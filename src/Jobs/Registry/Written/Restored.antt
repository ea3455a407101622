-- ===== src/Jobs/Registry/Written/Restored.antt =====
-- `Job.to_dict` and `job_from_dict` of src/jobs/config_models.py, one after the other.
use app_launcher_lite.Prelude.{◌≡◌, refl, ◌∙◌, ap, List, [], ◌∷◌}
use app_launcher_lite.Prelude.Dict.{get, NodupKeys}
use app_launcher_lite.Jobs.Job.{Job}
use app_launcher_lite.Jobs.Registry.Checked.{ok}
use app_launcher_lite.Jobs.Registry.Python.{Python, strip}
use app_launcher_lite.Jobs.Registry.Schedules.RoundTrip.{schedule_from_dict-schedule_to_dict}
use app_launcher_lite.Jobs.Registry.Rows.{
  read_shape, read_timing, read_chains, read_extras, read_limits, named_job, built_job,
  job_from_dict, load_rows, loaded_row,
}
use app_launcher_lite.Jobs.Registry.Rows.Valid.{WellFormed}
use app_launcher_lite.Jobs.Registry.Written.{job_fields, job_to_dict, jobs_to_dict}
use app_launcher_lite.Jobs.Registry.Written.Parameters.{AllParams, params_back}
use app_launcher_lite.Jobs.Registry.Written.Webhooks.{HookOrNone, webhook_back}
use app_launcher_lite.Jobs.Registry.Written.Parts.{
  value_or_null, found, text_back, text_json_back, config_back, flag_back, cooldown_back,
  limit_back, IsGroup, group_back, AllStripped, chain_back, DayIsUpper, IsParked, parked_back,
  AllEnvNames, env_back,
}

-- What a well-formed job must have besides to be read back: texts without outer spaces, days in
-- upper case, names that pass their patterns, and no required parameter with a default.
pub record Restorable (py : Python) (j : Job) : Type 0 where
  pub well_formed : WellFormed py j
  pub id_stripped : strip j.id ≡ j.id
  pub name_stripped : strip j.name ≡ j.name
  pub script_stripped : strip j.script_path ≡ j.script_path
  pub kind_stripped : strip j.kind ≡ j.kind
  pub day_upper : DayIsUpper py j.schedule
  pub parked : IsParked py j.paused_schedule
  pub params_good : AllParams py j.params
  pub grouped : IsGroup j.mutex_group
  pub success_stripped : AllStripped j.on_success
  pub failure_stripped : AllStripped j.on_failure
  pub hooked : HookOrNone j.webhook
  pub env_distinct : NodupKeys j.env
  pub env_named : AllEnvNames j.env

module _ (py : Python) (j : Job) (back : Restorable py j) where
  shape_back : read_shape py (job_to_dict j) ≡ ok (j.kind, j.script_path, j.kind_config)
  unfolding read_shape value_or_null get job_fields
  shape_back =
      rw
        (
          found j "kind",
          found j "script_path",
          found j "kind_config",
          text_json_back py j.kind,
          text_back py j.script_path,
          back.kind_stripped,
          back.script_stripped,
          config_back j.kind_config,
          back.well_formed.shaped,
        )
        refl

  timing_back :
      read_timing py (job_to_dict j) ≡ ok (j.schedule, j.params, j.cooldown_seconds, j.mutex_group)
  unfolding read_timing value_or_null get job_fields
  timing_back =
      rw
        (
          found j "schedule",
          found j "params",
          found j "cooldown_seconds",
          found j "mutex_group",
          schedule_from_dict-schedule_to_dict py j.schedule back.well_formed.scheduled
              back.day_upper,
          params_back py j.params back.params_good,
          cooldown_back j.cooldown_seconds back.well_formed.cooled,
          group_back j.mutex_group back.grouped,
        )
        refl

  chains_back : read_chains (job_to_dict j) ≡ ok (j.on_success, j.on_failure)
  unfolding read_chains value_or_null get job_fields
  chains_back =
      rw
        (
          found j "on_success",
          found j "on_failure",
          chain_back j.on_success back.well_formed.chained.0 back.success_stripped,
          chain_back j.on_failure back.well_formed.chained.1 back.failure_stripped,
        )
        refl

  extras_back : read_extras py (job_to_dict j) ≡ ok (j.paused_schedule, j.webhook, j.env)
  unfolding read_extras value_or_null get job_fields
  extras_back =
      rw
        (
          found j "paused_schedule",
          found j "webhook",
          found j "env",
          parked_back py j.paused_schedule back.parked,
          webhook_back py j.webhook back.hooked,
          env_back j.env back.env_distinct back.env_named,
        )
        refl

  limits_back : read_limits (job_to_dict j) ≡ ok (j.max_runtime_seconds, j.no_output_seconds)
  unfolding read_limits value_or_null get job_fields
  limits_back =
      rw
        (
          found j "max_runtime_seconds",
          found j "no_output_seconds",
          limit_back j.max_runtime_seconds back.well_formed.watched.0,
          limit_back j.no_output_seconds back.well_formed.watched.1,
        )
        refl

  built_back :
      built_job py
        (job_to_dict j)
        (j.kind, j.script_path, j.kind_config)
        (j.schedule, j.params, j.cooldown_seconds, j.mutex_group)
        (j.on_success, j.on_failure)
        (j.paused_schedule, j.webhook, j.env)
        (j.max_runtime_seconds, j.no_output_seconds)
      ≡ j
  unfolding built_job value_or_null get job_fields
  built_back =
      rw
        (
          found j "id",
          found j "name",
          found j "args",
          found j "added_at",
          found j "confirm",
          found j "alert_on_failure",
          found j "visible",
          found j "elevated",
          found j "schedule_changed_at",
          text_back py j.id,
          text_back py j.name,
          text_back py j.args,
          text_back py j.added_at,
          text_json_back py j.schedule_changed_at,
          back.id_stripped,
          back.name_stripped,
          flag_back j.confirm,
          flag_back j.alert_on_failure,
          flag_back j.visible,
          flag_back j.elevated,
        )
        refl

  named_back : named_job j ≡ ok j
  unfolding named_job
  named_back = rw (back.well_formed.named.0, back.well_formed.named.1) refl

-- The row that is written for a restorable job gives the job back.
pub job_from_dict-job_to_dict :
    (py : Python) (j : Job) → Restorable py j → job_from_dict py (job_to_dict j) ≡ ok j
unfolding job_from_dict
job_from_dict-job_to_dict py j back =
    rw
      (
        shape_back py j back,
        timing_back py j back,
        chains_back py j back,
        extras_back py j back,
        limits_back py j back,
      )
      (ap named_job (built_back py j back) ∙ named_back py j back)

-- Every job of the list is restorable.
abbrev pub AllRestorable : Python → List Job → Type 0
AllRestorable py [] = Unit
AllRestorable py (j ∷ jobs) = Restorable py j × AllRestorable py jobs

-- Well-formed jobs whose texts have no outer spaces, whose days are in upper case, whose parked
-- schedules, groups, variables, webhooks and parameters are valid, and none of whose required
-- parameters has a default, are loaded back, all and in their order, from the rows that are
-- written for them.
pub load_rows-jobs_to_dict :
    (py : Python) (jobs : List Job)
    → AllRestorable py jobs
    → load_rows py (jobs_to_dict jobs) ≡ jobs
unfolding load_rows jobs_to_dict loaded_row
load_rows-jobs_to_dict py [] all = refl
load_rows-jobs_to_dict py (j ∷ jobs) (back, all) =
    rw (job_from_dict-job_to_dict py j back) (ap (λ l. j ∷ l) (load_rows-jobs_to_dict py jobs all))
