-- ===== src/Jobs/Webhook/Hook.antt =====
-- app/webapp/routers/jobs_webhook_routes.py: the route that an external service calls.
use Prim.Native.String.{◌++◌ as append}
use app_launcher_lite.Prelude.{ℕ, String, not, Option, none, some, List, [], ◌∷◌, if◌then◌else◌}
use app_launcher_lite.Prelude.Int.{ℤ}
use app_launcher_lite.Prelude.Dict
use app_launcher_lite.Prelude.Dict.{Dict}
use app_launcher_lite.Prelude.Json.{Json, Members, end, field}
use app_launcher_lite.Jobs.Record.{no_fields}
use app_launcher_lite.Jobs.Job.{Job, WebhookConfig}
use app_launcher_lite.Jobs.World.{World, Host}
use app_launcher_lite.Jobs.Admission.{Admitted, admit_and_spawn}
use app_launcher_lite.Jobs.Registry.{get_by_id}
use app_launcher_lite.Jobs.Registry.Checked.{Checked, ok, err}
use app_launcher_lite.Jobs.Registry.Python.{Python}
use app_launcher_lite.Jobs.Registry.Argv.{Composition, compose_argv}
use app_launcher_lite.Jobs.Schtasks.Fires.{Readers}
use app_launcher_lite.Jobs.Secrets.{resolve_secret_value}
use app_launcher_lite.Jobs.Webhook.{Bytes, Signing, verify_webhook, event_allowed}
use app_launcher_lite.Jobs.Webhook.Mapping.{resolve_mapping}

-- What `json.loads` makes of the bytes; other errors than a JSONDecodeError are not caught.
pub data Decoded : Type 0 where
  decoded : Json → Decoded
  not_json : Decoded
  undecodable : Decoded

-- What the route uses of Python, beside `Python` and `Readers`: `int` of the digits of a parameter,
-- and the JSON texts.
pub record Codec : Type 0 where
  pub to_int : String → ℤ
  pub loads : Bytes → Decoded
  pub dumps : Dict String → String

pub record HookRequest : Type 0 where
  pub body : Bytes
  pub headers : Dict String
  pub received : ℕ

-- The answers: 404, 401, 204, 400, an uncaught error, or what the admission answers.
pub data HookReply : Type 0 where
  unknown_hook : HookReply
  invalid_signature : HookReply
  event_ignored : HookReply
  bad_params : HookReply
  uncaught : HookReply
  admitted : Admitted → HookReply

-- {k.lower(): v for k, v in request.headers.items()}
unfoldable pub lower_headers : Python → Dict String → Dict String → Dict String
unfolding Dict.put
lower_headers py [] out = out
lower_headers py ((k, v) ∷ headers) out = lower_headers py headers (Dict.put (py.lower k) v out)

-- The mapped values, as `compose_argv` takes them.
unfoldable pub text_values : Dict String → Members
text_values [] = end
text_values ((k, v) ∷ d) = field k (Json.str v) (text_values d)

-- json.loads(body) if body else {}
unfoldable pub payload_of : Codec → Bytes → Option Json
payload_of c [] = some (Json.object end)
payload_of c (b ∷ body) = elim (c.loads (b ∷ body)) [
  | decoded v ↦ some v
  | not_json ↦ some (Json.object end)
  | undecodable ↦ none
]

-- if raw_params
abbrev pub params_text : Codec → Dict String → Option String
params_text c [] = none
params_text c (e ∷ d) = some (c.dumps (e ∷ d))

-- The job with its webhook block.
abbrev pub with_webhook : Option Job → Option (Job × Option WebhookConfig)
with_webhook none = none
with_webhook (some job) = some (job, job.webhook)

module _ (h : Host) (r : Readers) (g : Signing) (py : Python) (c : Codec) where
  -- The fire itself, with the parameters that the payload gave.
  unfoldable pub hook_fire :
      World → List Job → Job → WebhookConfig → Dict String → String → HookReply × World
  unfolding admit_and_spawn
  hook_fire w jobs job webhook mapped rid =
      let extra = record no_fields { trigger_source = some (append "webhook:" webhook.provider) } in
      let (a, w') = admit_and_spawn h w jobs job (params_text c mapped) "webhook" extra rid in
      (admitted a, w')

  abbrev pub hook_composed :
      World
      → List Job
      → Job
      → WebhookConfig
      → Dict String
      → String
      → Checked Composition
      → HookReply × World
  hook_composed w jobs job webhook mapped rid (err e) = (bad_params, w)
  hook_composed w jobs job webhook mapped rid (ok composed) =
      hook_fire w jobs job webhook mapped rid

  unfoldable pub hook_payload :
      World → List Job → Job → WebhookConfig → String → Option Json → HookReply × World
  unfolding hook_fire resolve_mapping compose_argv text_values
  hook_payload w jobs job webhook rid none = (uncaught, w)
  hook_payload w jobs job webhook rid (some payload) =
      let mapped = resolve_mapping r py payload webhook.mapping in
      hook_composed w jobs job webhook mapped rid
        (compose_argv py c.to_int job.params (Json.object (text_values mapped)))

  unfoldable pub hook_signed :
      World
      → List Job
      → Job
      → WebhookConfig
      → HookRequest
      → String
      → Checked String
      → HookReply × World
  unfolding verify_webhook event_allowed lower_headers payload_of hook_payload Dict.get
  hook_signed w jobs job webhook q rid (err e) = (invalid_signature, w)
  hook_signed w jobs job webhook q rid (ok secret) =
      let headers = lower_headers py q.headers [] in
      if not (verify_webhook r g webhook secret q.body headers q.received)
      then (invalid_signature, w)
      else if not (event_allowed webhook (Dict.get "x-github-event" headers))
      then (event_ignored, w)
      else hook_payload w jobs job webhook rid (payload_of c q.body)

  abbrev pub hook_known :
      World
      → List Job
      → Dict String
      → HookRequest
      → String
      → Option (Job × Option WebhookConfig)
      → HookReply × World
  hook_known w jobs secrets q rid none = (unknown_hook, w)
  hook_known w jobs secrets q rid (some (job, none)) = (unknown_hook, w)
  hook_known w jobs secrets q rid (some (job, some webhook)) =
      hook_signed w jobs job webhook q rid (resolve_secret_value secrets webhook.secret)

  -- `run_job_webhook`; the file _webhook.json in the run's directory is left out.
  unfoldable pub run_job_webhook :
      World → List Job → Dict String → String → HookRequest → String → HookReply × World
  unfolding get_by_id hook_signed resolve_secret_value
  run_job_webhook w jobs secrets job_id q rid =
      hook_known w jobs secrets q rid (with_webhook (get_by_id jobs job_id))
