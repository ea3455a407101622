-- ===== src/Jobs/Registry/Updates.antt =====
-- `update_job` of src/jobs/config.py: an edit in place, field by field. When a later field is
-- refused, the job in memory has the earlier ones, and the file is not written.
pub mod Kept
pub mod Keeps
use app_launcher_lite.Prelude.{
  String, ◌==◌, Bool, true, false, not, ◌&&◌, ◌||◌, Option, none, some, List, [], ◌∷◌,
  if◌then◌else◌,
}
use app_launcher_lite.Prelude.Json.{Json, Members, lookup, has_key, truth}
use app_launcher_lite.Jobs.Job.{Job, Schedule}
use app_launcher_lite.Jobs.Registry.{Fault, get_by_id}
use app_launcher_lite.Jobs.Registry.Chain.{validate_chain_consistency}
use app_launcher_lite.Jobs.Registry.Edits.{
  Registry, Reply, refused, absent, answered, save_jobs, sort_by_name, put_job,
  stamp_schedule_change,
}
use app_launcher_lite.Jobs.Registry.Checked.{Checked, ok, err, ◌>>=◌, ◌>>◌}
use app_launcher_lite.Jobs.Registry.Python.{Python, strip, str_of, text_of}
use app_launcher_lite.Jobs.Registry.Fields.{
  validate_cooldown, validate_watchdog_seconds, validate_chain_list, validate_mutex_group,
  env_from_dict, kind_config_from_dict, validate_kind_shape,
}
use app_launcher_lite.Jobs.Registry.Schedules.{schedule_from_dict, text_or_null}
use app_launcher_lite.Jobs.Registry.Params.{params_from_dict, webhook_from_dict}

-- The job as it stands in memory, and the `ValueError` that ended the edit.
abbrev pub Draft : Type 0
Draft = Job × Option Fault

unfoldable pub assign {ℓ} : {A : Type ℓ} → (A → Job → Job) → Checked A → Job → Draft
assign set (ok v) job = (set v job, none)
assign set (err f) job = (job, some f)

-- One row of `_SIMPLE_UPDATE_FIELDS`.
unfoldable pub edit_field {ℓ} :
    {A : Type ℓ} → Members → String → (Json → Checked A) → (A → Job → Job) → Job → Draft
unfolding assign lookup has_key
edit_field d key parse set job =
    if has_key key d then assign set (parse (lookup key d)) job else (job, none)

-- The next row, unless the edit has ended.
unfoldable pub and_then : Draft → (Job → Draft) → Draft
and_then (job, none) next = next job
and_then (job, some f) next = (job, some f)

-- `value != job.schedule` of two dataclasses
unfoldable pub same_schedule : Python → Schedule → Schedule → Bool
same_schedule py s t =
    (s.type == t.type)
    && py.equal s.every t.every
    && py.equal s.at t.at
    && py.equal (text_or_null s.day) (text_or_null t.day)

unfoldable pub set_schedule : Python → String → Schedule → Job → Job
unfolding same_schedule stamp_schedule_change
set_schedule py now s job =
    if same_schedule py s job.schedule
    then record job { schedule = s }
    else record (stamp_schedule_change now job) { schedule = s }

-- The name has no effect when it is falsy.
unfoldable pub edit_name : Python → Members → Job → Draft
unfolding strip str_of lookup truth
edit_name py d job =
    if truth (lookup "name" d)
    then (record job { name = strip (str_of py (lookup "name" d)) }, none)
    else (job, none)

-- `_SIMPLE_UPDATE_FIELDS`
unfoldable pub simple_update_fields : Python → String → List (Members → Job → Draft)
unfolding edit_name edit_field text_of schedule_from_dict set_schedule params_from_dict
    validate_cooldown validate_watchdog_seconds validate_mutex_group truth webhook_from_dict
    env_from_dict
simple_update_fields py now =
    edit_name py
    ∷ (λ d. edit_field d "args" (λ v. ok (text_of py v)) (λ v j. record j { args = v }))
    ∷ (λ d. edit_field d "schedule" (schedule_from_dict py) (set_schedule py now))
    ∷ (λ d. edit_field d "params" (params_from_dict py) (λ v j. record j { params = v }))
    ∷ (λ d.
        edit_field d "cooldown_seconds" validate_cooldown
          (λ v j. record j { cooldown_seconds = v }))
    ∷ (λ d.
        edit_field d "max_runtime_seconds" validate_watchdog_seconds
          (λ v j. record j { max_runtime_seconds = v }))
    ∷ (λ d.
        edit_field d "no_output_seconds" validate_watchdog_seconds
          (λ v j. record j { no_output_seconds = v }))
    ∷ (λ d. edit_field d "mutex_group" validate_mutex_group (λ v j. record j { mutex_group = v }))
    ∷ (λ d. edit_field d "confirm" (λ v. ok (truth v)) (λ v j. record j { confirm = v }))
    ∷ (λ d.
        edit_field d "alert_on_failure" (λ v. ok (truth v))
          (λ v j. record j { alert_on_failure = v }))
    ∷ (λ d. edit_field d "visible" (λ v. ok (truth v)) (λ v j. record j { visible = v }))
    ∷ (λ d. edit_field d "elevated" (λ v. ok (truth v)) (λ v j. record j { elevated = v }))
    ∷ (λ d. edit_field d "webhook" (webhook_from_dict py) (λ v j. record j { webhook = v }))
    ∷ (λ d. edit_field d "env" env_from_dict (λ v j. record j { env = v }))
    ∷ []

-- The loop over `_SIMPLE_UPDATE_FIELDS`.
unfoldable pub edit_rows : List (Members → Job → Draft) → Members → Job → Draft
unfolding and_then
edit_rows [] d job = (job, none)
edit_rows (row ∷ rows) d job = and_then (row d job) (edit_rows rows d)

unfoldable pub edit_simple : Python → String → Members → Job → Draft
unfolding simple_update_fields edit_rows
edit_simple py now = edit_rows (simple_update_fields py now)

-- The kind, the script and the settings that the job would have.
unfoldable pub effective_shape : Python → Members → Job → Checked (String × String × Members)
unfolding strip text_of lookup has_key kind_config_from_dict validate_kind_shape
effective_shape py d job = do
  let kind = if has_key "kind" d then strip (text_of py (lookup "kind" d)) else job.kind
  let script_path =
      if has_key "script_path" d
      then strip (text_of py (lookup "script_path" d))
      else job.script_path
  config ←
      (if has_key "kind_config" d
        then kind_config_from_dict (lookup "kind_config" d)
        else ok job.kind_config)
  validate_kind_shape py kind script_path config
  ok (kind, script_path, config)

abbrev pub set_shape : String × String × Members → Job → Job
set_shape (kind, script_path, config) job = record job {
  kind = kind;
  script_path = script_path;
  kind_config = config;
}

-- The block of `kind`, `script_path` and `kind_config`.
unfoldable pub edit_shape : Python → Members → Job → Draft
unfolding effective_shape assign has_key
edit_shape py d job =
    if has_key "kind" d || has_key "script_path" d || has_key "kind_config" d
    then assign set_shape (effective_shape py d job) job
    else (job, none)

-- The two chain lists, when both can be read.
unfoldable pub edit_lists : Members → Job → Draft
unfolding and_then edit_field validate_chain_list
edit_lists d job =
    and_then
      (edit_field d "on_success" validate_chain_list (λ v j. record j { on_success = v }) job)
      (edit_field d "on_failure" validate_chain_list (λ v j. record j { on_failure = v }))

-- The chain checks of the edited registry, and the revert when they find a fault.
unfoldable pub reverted : Job → Job → Option Fault → Draft
reverted before after none = (after, none)
reverted before after (some f) =
    (record after { on_success = before.on_success; on_failure = before.on_failure }, some f)

unfoldable pub edit_chains : List Job → String → Members → Job → Draft
unfolding edit_lists and_then reverted put_job validate_chain_consistency has_key
edit_chains jobs id d job = and_then (edit_lists d job) (λ new.
    if has_key "on_success" d || has_key "on_failure" d
    then reverted job new (validate_chain_consistency (put_job id new jobs))
    else (new, none))

-- The whole edit of the job in memory.
unfoldable pub edit_all : Python → String → List Job → String → Members → Job → Draft
unfolding edit_simple edit_shape edit_chains and_then
edit_all py now jobs id d job =
    and_then (and_then (edit_simple py now d job) (edit_shape py d)) (edit_chains jobs id d)

-- The registry after the edit: it is sorted and written unless a `ValueError` went up.
unfoldable pub finish_update : Python → Registry → String → Draft → Registry × Reply
unfolding put_job sort_by_name save_jobs
finish_update py r id (job, some f) = (record r { jobs = put_job id job r.jobs }, refused f)
finish_update py r id (job, none) =
    (save_jobs (record r { jobs = sort_by_name py.lower (put_job id job r.jobs) }), answered job)

unfoldable pub update_found :
    Python → String → Registry → String → Members → Option Job → Registry × Reply
unfolding edit_all finish_update
update_found py now r id d none = (r, absent)
update_found py now r id d (some job) = finish_update py r id (edit_all py now r.jobs id d job)

-- `update_job`
unfoldable pub update_job : Python → String → Registry → String → Members → Registry × Reply
unfolding update_found get_by_id
update_job py now r id d = update_found py now r id d (get_by_id r.jobs id)
