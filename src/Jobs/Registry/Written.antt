-- ===== src/Jobs/Registry/Written.antt =====
-- `Job.to_dict`, `Param.to_dict` and `WebhookConfig.to_dict` of src/jobs/config_models.py and
-- src/jobs/webhook.py: the row that is written for a job. A key with `null` is left out.
pub mod Parts
pub mod Webhooks
pub mod Parameters
pub mod Restored
use app_launcher_lite.Prelude.{
  ℕ, zero, suc, String, ◌==◌, Bool, true, false, Option, none, some, List, [], ◌∷◌, if◌then◌else◌,
}
use app_launcher_lite.Prelude.Int.{pos}
use app_launcher_lite.Prelude.Dict.{Dict}
use app_launcher_lite.Prelude.Json.{Json, Items, Members, nil, cons, end, field}
use app_launcher_lite.Jobs.Job.{Job, Schedule, Param, WebhookConfig}
use app_launcher_lite.Jobs.Registry.Schedules.{add_field, schedule_to_dict}

-- The pairs of a payload in the order in which they are set.
unfoldable pub row_of : Dict Json → Members
unfolding add_field
row_of [] = end
row_of ((k, v) ∷ d) = add_field k v (row_of d)

unfoldable pub text_items : List String → Items
text_items [] = nil
text_items (s ∷ xs) = cons (Json.str s) (text_items xs)

-- `if xs: payload[key] = list(xs)`
unfoldable pub texts_json : List String → Json
unfolding text_items
texts_json [] = Json.null
texts_json (s ∷ xs) = Json.array (text_items (s ∷ xs))

unfoldable pub text_members : Dict String → Members
text_members [] = end
text_members ((k, s) ∷ d) = field k (Json.str s) (text_members d)

-- `if d: payload[key] = dict(d)`
unfoldable pub dict_json : Dict String → Json
unfolding text_members
dict_json [] = Json.null
dict_json (e ∷ d) = Json.object (text_members (e ∷ d))

unfoldable pub config_json : Members → Json
config_json end = Json.null
config_json (field k v d) = Json.object (field k v d)

-- `if text: payload[key] = text`
unfoldable pub text_json : String → Json
text_json s = if s == "" then Json.null else Json.str s

unfoldable pub option_json : Option String → Json
unfolding text_json
option_json none = Json.null
option_json (some s) = text_json s

-- `if flag: payload[key] = True`
unfoldable pub flag_json : Bool → Json
flag_json true = Json.bool true
flag_json false = Json.null

-- `if seconds: payload[key] = seconds`
unfoldable pub seconds_json : Option ℕ → Json
seconds_json none = Json.null
seconds_json (some zero) = Json.null
seconds_json (some (suc n)) = Json.int (pos (suc n))

-- `if seconds is not None: payload[key] = seconds`
unfoldable pub limit_json : Option ℕ → Json
limit_json none = Json.null
limit_json (some n) = Json.int (pos n)

unfoldable pub options_json : Option (List String) → Json
unfolding text_items
options_json none = Json.null
options_json (some xs) = Json.array (text_items xs)

-- `Param.to_dict`
unfoldable pub param_fields : Param → Dict Json
unfolding option_json options_json
param_fields p =
    ("name", Json.str p.name)
    ∷ ("kind", Json.str p.kind)
    ∷ ("required", (if p.required then Json.null else Json.bool false))
    ∷ ("default", p.default)
    ∷ ("options", options_json p.options)
    ∷ ("flag", option_json p.flag)
    ∷ ("env", option_json p.env)
    ∷ []

unfoldable pub param_to_dict : Param → Members
unfolding row_of param_fields
param_to_dict p = row_of (param_fields p)

unfoldable pub param_items : List Param → Items
unfolding param_to_dict
param_items [] = nil
param_items (p ∷ ps) = cons (Json.object (param_to_dict p)) (param_items ps)

unfoldable pub params_json : List Param → Json
unfolding param_items
params_json [] = Json.null
params_json (p ∷ ps) = Json.array (param_items (p ∷ ps))

-- `WebhookConfig.to_dict`
unfoldable pub webhook_fields : WebhookConfig → Dict Json
unfolding dict_json texts_json
webhook_fields w =
    ("provider", Json.str w.provider)
    ∷ ("secret", Json.str w.secret)
    ∷ ("mapping", dict_json w.mapping)
    ∷ ("events", texts_json w.events)
    ∷ []

unfoldable pub webhook_to_dict : WebhookConfig → Members
unfolding row_of webhook_fields
webhook_to_dict w = row_of (webhook_fields w)

unfoldable pub webhook_json : Option WebhookConfig → Json
unfolding webhook_to_dict
webhook_json none = Json.null
webhook_json (some w) = Json.object (webhook_to_dict w)

unfoldable pub parked_json : Option Schedule → Json
unfolding schedule_to_dict
parked_json none = Json.null
parked_json (some s) = Json.object (schedule_to_dict s)

-- `Job.to_dict`
unfoldable pub job_fields : Job → Dict Json
unfolding schedule_to_dict params_json seconds_json option_json texts_json flag_json parked_json
    text_json config_json webhook_json dict_json limit_json
job_fields j =
    ("id", Json.str j.id)
    ∷ ("name", Json.str j.name)
    ∷ ("script_path", Json.str j.script_path)
    ∷ ("args", Json.str j.args)
    ∷ ("schedule", Json.object (schedule_to_dict j.schedule))
    ∷ ("added_at", Json.str j.added_at)
    ∷ ("params", params_json j.params)
    ∷ ("cooldown_seconds", seconds_json j.cooldown_seconds)
    ∷ ("mutex_group", option_json j.mutex_group)
    ∷ ("on_success", texts_json j.on_success)
    ∷ ("on_failure", texts_json j.on_failure)
    ∷ ("confirm", flag_json j.confirm)
    ∷ ("alert_on_failure", flag_json j.alert_on_failure)
    ∷ ("visible", flag_json j.visible)
    ∷ ("elevated", flag_json j.elevated)
    ∷ ("paused_schedule", parked_json j.paused_schedule)
    ∷ ("schedule_changed_at", text_json j.schedule_changed_at)
    ∷ ("kind", text_json j.kind)
    ∷ ("kind_config", config_json j.kind_config)
    ∷ ("webhook", webhook_json j.webhook)
    ∷ ("env", dict_json j.env)
    ∷ ("max_runtime_seconds", limit_json j.max_runtime_seconds)
    ∷ ("no_output_seconds", limit_json j.no_output_seconds)
    ∷ []

unfoldable pub job_to_dict : Job → Members
unfolding job_fields row_of
job_to_dict j = row_of (job_fields j)

-- `JobsConfig.to_dict`: the rows under the key `jobs`.
unfoldable pub jobs_to_dict : List Job → Items
unfolding job_to_dict
jobs_to_dict [] = nil
jobs_to_dict (j ∷ jobs) = cons (Json.object (job_to_dict j)) (jobs_to_dict jobs)
