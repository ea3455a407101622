-- ===== src/Jobs/Job.antt =====
-- src/jobs/config_models.py: a registered job.
use app_launcher_lite.Prelude.{ℕ, String, Bool, false, Option, none, List, []}
use app_launcher_lite.Prelude.Dict.{Dict}
use app_launcher_lite.Prelude.Json.{Json, Members}

-- `Schedule`; `every` and `at` are what the JSON row has, whatever the type asks for.
pub record Schedule : Type 0 where
  pub type : String
  pub every : Json
  pub at : Json
  pub day : Option String

-- Schedule(type="none")
abbrev pub no_schedule : Schedule
no_schedule = record { type = "none"; every = Json.null; at = Json.null; day = none }

-- `Param`; a `default` of `None` is `null`.
pub record Param : Type 0 where
  pub name : String
  pub kind : String
  pub default : Json
  pub required : Bool
  pub options : Option (List String)
  pub flag : Option String
  pub env : Option String

-- `WebhookConfig` of src/jobs/webhook.py
pub record WebhookConfig : Type 0 where
  pub provider : String
  pub secret : String
  pub mapping : Dict String
  pub events : List String

-- `Job`. A `mutex_group` of `None` and an empty one are both falsy.
pub record Job : Type 0 where
  pub id : String
  pub name : String
  pub script_path : String
  pub args : String
  pub schedule : Schedule
  pub added_at : String
  pub params : List Param
  pub cooldown_seconds : Option ℕ
  pub mutex_group : Option String
  pub on_success : List String
  pub on_failure : List String
  pub confirm : Bool
  pub alert_on_failure : Bool
  pub visible : Bool
  pub elevated : Bool
  pub paused_schedule : Option Schedule
  pub kind : String
  pub kind_config : Members
  pub webhook : Option WebhookConfig
  pub env : Dict String
  pub max_runtime_seconds : Option ℕ
  pub no_output_seconds : Option ℕ
  pub schedule_changed_at : String

-- A job with the defaults of the dataclass.
abbrev pub new_job : String → String → String → Job
new_job id name script_path = record {
  id = id;
  name = name;
  script_path = script_path;
  args = "";
  schedule = no_schedule;
  added_at = "";
  params = [];
  cooldown_seconds = none;
  mutex_group = none;
  on_success = [];
  on_failure = [];
  confirm = false;
  alert_on_failure = false;
  visible = false;
  elevated = false;
  paused_schedule = none;
  kind = "";
  kind_config = Members.end;
  webhook = none;
  env = [];
  max_runtime_seconds = none;
  no_output_seconds = none;
  schedule_changed_at = "";
}
