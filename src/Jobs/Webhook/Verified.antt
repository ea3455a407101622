-- ===== src/Jobs/Webhook/Verified.antt =====
-- What the webhook route of app/webapp/routers/jobs_webhook_routes.py changes, and for whom.
use app_launcher_lite.Prelude.{
  String, ◌≡◌, refl, Bool, true, false, not, Option, none, some, List, [], if◌then◌else◌,
}
use app_launcher_lite.Prelude.Dict
use app_launcher_lite.Prelude.Dict.{Dict}
use app_launcher_lite.Prelude.Json.{Json}
use app_launcher_lite.Jobs.Job.{Job, WebhookConfig}
use app_launcher_lite.Jobs.World.{World, Host}
use app_launcher_lite.Jobs.Registry.{get_by_id}
use app_launcher_lite.Jobs.Registry.Checked.{Checked, ok, err}
use app_launcher_lite.Jobs.Registry.Python.{Python}
use app_launcher_lite.Jobs.Registry.Argv.{Composition, compose_argv}
use app_launcher_lite.Jobs.Schtasks.Fires.{Readers}
use app_launcher_lite.Jobs.Secrets.{resolve_secret_value}
use app_launcher_lite.Jobs.Webhook.{Signing, verify_webhook, event_allowed}
use app_launcher_lite.Jobs.Webhook.Mapping.{resolve_mapping}
use app_launcher_lite.Jobs.Webhook.Hook.{
  Codec, HookRequest, HookReply, unknown_hook, invalid_signature, event_ignored, bad_params,
  uncaught, admitted, lower_headers, text_values, payload_of, hook_fire, hook_composed,
  hook_payload, hook_signed, hook_known, with_webhook, run_job_webhook,
}

module _ (h : Host) (r : Readers) (g : Signing) (py : Python) (c : Codec) (w : World)
    (jobs : List Job) (secrets : Dict String) (q : HookRequest) where
  abbrev pub sent_headers : Dict String
  sent_headers = lower_headers py q.headers []

  -- The request is signed with the secret of the webhook, its event is one that the webhook takes,
  -- and its payload gives parameters that the job accepts.
  pub record Authentic (job : Job) (webhook : WebhookConfig) : Type 0 where
    pub secret : String
    pub payload : Json
    pub composed : Composition
    pub known : resolve_secret_value secrets webhook.secret ≡ ok secret
    pub signed : verify_webhook r g webhook secret q.body sent_headers q.received ≡ true
    pub wanted : event_allowed webhook (Dict.get "x-github-event" sent_headers) ≡ true
    pub readable : payload_of c q.body ≡ some payload
    pub fitting :
        compose_argv py c.to_int job.params
          (Json.object (text_values (resolve_mapping r py payload webhook.mapping)))
        ≡ ok composed

  -- The answer and the state: one that is not admitted changes nothing; one that is comes from an
  -- authentic request for this job, and is what the admission of the job makes of it.
  abbrev Ends : Job → WebhookConfig → String → HookReply × World → Type 0
  Ends job webhook rid (admitted a, w') =
      (x : Authentic job webhook) × ((admitted a, w')
        ≡ hook_fire h r g py c w jobs job webhook (resolve_mapping r py x.payload webhook.mapping)
            rid)
  Ends job webhook rid (unknown_hook, w') = w' ≡ w
  Ends job webhook rid (invalid_signature, w') = w' ≡ w
  Ends job webhook rid (event_ignored, w') = w' ≡ w
  Ends job webhook rid (bad_params, w') = w' ≡ w
  Ends job webhook rid (uncaught, w') = w' ≡ w

  gates :
      (job : Job) (webhook : WebhookConfig) (rid : String) (v e : Bool) (x : HookReply × World)
      → (v ≡ true → e ≡ true → Ends job webhook rid x)
      → Ends job webhook rid
          (if not v then (invalid_signature, w) else if not e then (event_ignored, w) else x)
  gates job webhook rid false e x h = refl
  gates job webhook rid true false x h = refl
  gates job webhook rid true true x h = h refl refl

  module _ (job : Job) (webhook : WebhookConfig) (rid secret : String)
      (known : resolve_secret_value secrets webhook.secret ≡ ok secret)
      (signed : verify_webhook r g webhook secret q.body sent_headers q.received ≡ true)
      (wanted : event_allowed webhook (Dict.get "x-github-event" sent_headers) ≡ true) where
    hook_composed-Ends :
        (payload : Json) (k : Checked Composition)
        → payload_of c q.body ≡ some payload
        → compose_argv py c.to_int job.params
            (Json.object (text_values (resolve_mapping r py payload webhook.mapping)))
          ≡ k
        → Ends job webhook rid (
            hook_composed h r g py c w jobs job webhook
              (resolve_mapping r py payload webhook.mapping)
              rid
              k)
    unfolding hook_fire
    hook_composed-Ends payload (err e) read fits = refl
    hook_composed-Ends payload (ok composed) read fits = (
      record {
        secret = secret;
        payload = payload;
        composed = composed;
        known = known;
        signed = signed;
        wanted = wanted;
        readable = read;
        fitting = fits;
      },
      refl,
    )

    hook_payload-Ends :
        (o : Option Json)
        → payload_of c q.body ≡ o
        → Ends job webhook rid (hook_payload h r g py c w jobs job webhook rid o)
    unfolding hook_payload
    hook_payload-Ends none read = refl
    hook_payload-Ends (some payload) read =
        hook_composed-Ends payload
          (compose_argv py c.to_int job.params
            (Json.object (text_values (resolve_mapping r py payload webhook.mapping))))
          read refl

  hook_signed-Ends :
      (job : Job) (webhook : WebhookConfig) (rid : String) (s : Checked String)
      → resolve_secret_value secrets webhook.secret ≡ s
      → Ends job webhook rid (hook_signed h r g py c w jobs job webhook q rid s)
  unfolding hook_signed
  hook_signed-Ends job webhook rid (err e) known = refl
  hook_signed-Ends job webhook rid (ok secret) known =
      gates job webhook rid (verify_webhook r g webhook secret q.body sent_headers q.received)
        (event_allowed webhook (Dict.get "x-github-event" sent_headers))
        (hook_payload h r g py c w jobs job webhook rid (payload_of c q.body))
        (λ signed wanted.
          hook_payload-Ends job webhook rid secret known signed wanted (payload_of c q.body) refl)

  -- The same, with the job that the path names.
  abbrev pub Outcome : String → String → HookReply × World → Type 0
  Outcome job_id rid (admitted a, w') =
      (job : Job) × (webhook : WebhookConfig) × (get_by_id jobs job_id ≡ some job)
      × (job.webhook ≡ some webhook)
      × Ends job webhook rid (admitted a, w')
  Outcome job_id rid (unknown_hook, w') = w' ≡ w
  Outcome job_id rid (invalid_signature, w') = w' ≡ w
  Outcome job_id rid (event_ignored, w') = w' ≡ w
  Outcome job_id rid (bad_params, w') = w' ≡ w
  Outcome job_id rid (uncaught, w') = w' ≡ w

  Ends-Outcome :
      (job_id rid : String) (job : Job) (webhook : WebhookConfig) (x : HookReply × World)
      → get_by_id jobs job_id ≡ some job
      → job.webhook ≡ some webhook
      → Ends job webhook rid x
      → Outcome job_id rid x
  Ends-Outcome job_id rid job webhook (admitted a, w') found has e = (job, webhook, found, has, e)
  Ends-Outcome job_id rid job webhook (unknown_hook, w') found has e = e
  Ends-Outcome job_id rid job webhook (invalid_signature, w') found has e = e
  Ends-Outcome job_id rid job webhook (event_ignored, w') found has e = e
  Ends-Outcome job_id rid job webhook (bad_params, w') found has e = e
  Ends-Outcome job_id rid job webhook (uncaught, w') found has e = e

  hook_known-Outcome :
      (job_id rid : String) (o : Option Job)
      → get_by_id jobs job_id ≡ o
      → Outcome job_id rid (hook_known h r g py c w jobs secrets q rid (with_webhook o))
  hook_known-Outcome job_id rid none found = refl
  hook_known-Outcome job_id rid (some job) found = go job.webhook refl
    where
      go :
          (b : Option WebhookConfig)
          → job.webhook ≡ b
          → Outcome job_id rid (hook_known h r g py c w jobs secrets q rid (some (job, b)))
      go none has = refl
      go (some webhook) has =
          Ends-Outcome job_id rid job webhook _ found has
            (hook_signed-Ends job webhook rid (resolve_secret_value secrets webhook.secret) refl)

  -- A webhook request that is not admitted changes nothing. One that is names a registered job
  -- with a webhook, is verified with the secret that the webhook's reference resolves to, has an
  -- event that the webhook takes and a payload whose mapped parameters the job accepts, and its
  -- answer and state are those of the job's admission with these parameters.
  pub run_job_webhook_lem :
      (job_id rid : String)
      → Outcome job_id rid (run_job_webhook h r g py c w jobs secrets job_id q rid)
  unfolding run_job_webhook
  run_job_webhook_lem job_id rid = hook_known-Outcome job_id rid (get_by_id jobs job_id) refl
