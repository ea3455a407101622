-- ===== src/Jobs/Registry/Rows.antt =====
-- `job_from_dict` of src/jobs/config_models.py, and the rows that `load_jobs` of src/jobs/config.py
-- keeps.
pub mod Ranges
pub mod Valid
use app_launcher_lite.Prelude.{
  ℕ, String, ◌==◌, Bool, not, Option, none, some, List, [], ◌∷◌, if◌then◌else◌,
}
use app_launcher_lite.Prelude.Dict.{Dict}
use app_launcher_lite.Prelude.Json.{Json, Items, Members, nil, cons, lookup, truth}
use app_launcher_lite.Jobs.Job.{Job, Schedule, Param, WebhookConfig}
use app_launcher_lite.Jobs.Registry.Checked.{Checked, ok, err, ◌>>=◌, ◌>>◌, need}
use app_launcher_lite.Jobs.Registry.Python.{Python, strip, text_of}
use app_launcher_lite.Jobs.Registry.Fields.{
  validate_cooldown, validate_watchdog_seconds, validate_chain_list, validate_mutex_group,
  env_from_dict, kind_config_from_dict, validate_kind_shape,
}
use app_launcher_lite.Jobs.Registry.Schedules.{schedule_from_dict}
use app_launcher_lite.Jobs.Registry.Params.{params_from_dict, webhook_from_dict}

-- The parked schedule, when the row has one.
unfoldable pub parked_of : Python → Json → Checked (Option Schedule)
unfolding schedule_from_dict
parked_of py Json.null = ok none
parked_of py raw = do s ← schedule_from_dict py raw; ok (some s)

-- The kind, the script and the settings of the row.
unfoldable pub read_shape : Python → Members → Checked (String × String × Members)
unfolding strip text_of kind_config_from_dict validate_kind_shape lookup
read_shape py d = do
  let kind = strip (text_of py (lookup "kind" d))
  let script_path = strip (text_of py (lookup "script_path" d))
  config ← kind_config_from_dict (lookup "kind_config" d)
  validate_kind_shape py kind script_path config
  ok (kind, script_path, config)

-- The arguments of `Job(...)` that can be refused, in their order.
unfoldable pub read_timing :
    Python → Members → Checked (Schedule × List Param × Option ℕ × Option String)
unfolding schedule_from_dict params_from_dict validate_cooldown validate_mutex_group lookup
read_timing py d = do
  schedule ← schedule_from_dict py (lookup "schedule" d)
  params ← params_from_dict py (lookup "params" d)
  cooldown ← validate_cooldown (lookup "cooldown_seconds" d)
  group ← validate_mutex_group (lookup "mutex_group" d)
  ok (schedule, params, cooldown, group)

unfoldable pub read_chains : Members → Checked (List String × List String)
unfolding validate_chain_list lookup
read_chains d = do
  on_success ← validate_chain_list (lookup "on_success" d)
  on_failure ← validate_chain_list (lookup "on_failure" d)
  ok (on_success, on_failure)

unfoldable pub read_extras :
    Python → Members → Checked (Option Schedule × Option WebhookConfig × Dict String)
unfolding parked_of webhook_from_dict env_from_dict lookup
read_extras py d = do
  parked ← parked_of py (lookup "paused_schedule" d)
  webhook ← webhook_from_dict py (lookup "webhook" d)
  env ← env_from_dict (lookup "env" d)
  ok (parked, webhook, env)

unfoldable pub read_limits : Members → Checked (Option ℕ × Option ℕ)
unfolding validate_watchdog_seconds lookup
read_limits d = do
  max_runtime ← validate_watchdog_seconds (lookup "max_runtime_seconds" d)
  no_output ← validate_watchdog_seconds (lookup "no_output_seconds" d)
  ok (max_runtime, no_output)

-- `if not job.id`, `if not job.name`
unfoldable pub named_job : Job → Checked Job
named_job job = do
  need (not (job.id == "")) "job id is required"
  need (not (job.name == "")) "job name is required"
  ok job

-- `Job(...)`
unfoldable pub built_job :
    Python
    → Members
    → String × String × Members
    → Schedule × List Param × Option ℕ × Option String
    → List String × List String
    → Option Schedule × Option WebhookConfig × Dict String
    → Option ℕ × Option ℕ
    → Job
unfolding strip text_of lookup truth
built_job py d (kind, script_path, kind_config) (schedule, params, cooldown, group)
      (on_success, on_failure) (parked, webhook, env) (max_runtime, no_output) =
    record {
      id = strip (text_of py (lookup "id" d));
      name = strip (text_of py (lookup "name" d));
      script_path = script_path;
      args = text_of py (lookup "args" d);
      schedule = schedule;
      added_at = text_of py (lookup "added_at" d);
      params = params;
      cooldown_seconds = cooldown;
      mutex_group = group;
      on_success = on_success;
      on_failure = on_failure;
      confirm = truth (lookup "confirm" d);
      alert_on_failure = truth (lookup "alert_on_failure" d);
      visible = truth (lookup "visible" d);
      elevated = truth (lookup "elevated" d);
      paused_schedule = parked;
      kind = kind;
      kind_config = kind_config;
      webhook = webhook;
      env = env;
      max_runtime_seconds = max_runtime;
      no_output_seconds = no_output;
      schedule_changed_at = text_of py (lookup "schedule_changed_at" d);
    }

-- `job_from_dict`
unfoldable pub job_from_dict : Python → Members → Checked Job
unfolding read_shape read_timing read_chains read_extras read_limits named_job built_job
job_from_dict py d = do
  shape ← read_shape py d
  timing ← read_timing py d
  chains ← read_chains d
  extras ← read_extras py d
  limits ← read_limits d
  named_job (built_job py d shape timing chains extras limits)

-- The row of the file, or what `load_jobs` skips.
unfoldable pub loaded_row : Checked Job → List Job → List Job
loaded_row (ok job) jobs = job ∷ jobs
loaded_row (err f) jobs = jobs

-- The loop of `load_jobs` over the rows of the decoded file.
unfoldable pub load_rows : Python → Items → List Job
unfolding job_from_dict loaded_row
load_rows py nil = []
load_rows py (cons (Json.object d) rest) = loaded_row (job_from_dict py d) (load_rows py rest)
load_rows py (cons _ rest) = load_rows py rest
