-- ===== src/Examples/Rows.antt =====
-- The theorems on the rows of jobs and on parameters at concrete ones.
use app_launcher_lite.Prelude.{List, arith, ◌≡◌, ◌↔◌, refl, true, false, some, none, [], ◌∷◌}
use app_launcher_lite.Prelude.Int.{pos}
use app_launcher_lite.Prelude.Decimal.{show}
use app_launcher_lite.Prelude.Dict.{get}
use app_launcher_lite.Prelude.Member.{member}
use app_launcher_lite.Prelude.Json.{Json, Members, end, field}
use app_launcher_lite.Jobs.Job.{Job, Param, new_job, no_schedule}
use app_launcher_lite.Jobs.Registry.Checked.{ok}
use app_launcher_lite.Jobs.Registry.Python.{strip, is_param_name, is_param_flag, is_env_name}
use app_launcher_lite.Jobs.Registry.Rows.{job_from_dict, load_rows}
use app_launcher_lite.Jobs.Registry.Written.{param_to_dict, jobs_to_dict}
use app_launcher_lite.Jobs.Registry.Fields.{validate_kind_shape}
use app_launcher_lite.Jobs.Registry.Written.Parameters.{IsParam}
use app_launcher_lite.Jobs.Registry.Written.Restored.{Restorable, load_rows-jobs_to_dict}
use app_launcher_lite.Jobs.Registry.Rows.Valid.{WellFormed, job_from_dict-WellFormed}
use app_launcher_lite.Jobs.Registry.Schedules.{validate_schedule}
use app_launcher_lite.Jobs.Registry.Params.{names_of, param_from_dict, validate_default}
use app_launcher_lite.Jobs.Registry.Argv.{Composition, compose_argv}
use app_launcher_lite.Jobs.Registry.Argv.Composed.{Declared, AllResolve, Composes, compose_argv_lem}
use app_launcher_lite.Examples.Common.{python, daily}

abbrev row : Members
row = field "id" (Json.str "fetch ") (
    field "name" (Json.str "Fetch") (
      field "script_path" (Json.str "fetch.py") (field "cooldown_seconds" (Json.int (pos 60)) end)))

abbrev read_row : Job
read_row = record (new_job "fetch" "Fetch" "fetch.py") { cooldown_seconds = some 60 }

row_read : job_from_dict python row ≡ ok read_row
unfolding job_from_dict
row_read = refl

job_from_dict-WellFormed_example : WellFormed python read_row
job_from_dict-WellFormed_example = job_from_dict-WellFormed python row read_row row_read

daily_valid : validate_schedule python daily ≡ ok tt
unfolding validate_schedule
daily_valid = refl

abbrev count : Param
count = record {
  name = "count";
  kind = "int";
  default = Json.null;
  required = true;
  options = none;
  flag = some "--count";
  env = none;
}

abbrev given : Members
given = field "count" (Json.int (pos 3)) end

composed :
    compose_argv python (λ s. pos 0) (count ∷ []) (Json.object given)
    ≡ ok ("--count" ∷ "3" ∷ [], [])
unfolding compose_argv member show
composed = refl

compose_argv_lem_example :
    let run = compose_argv python (λ s. pos 0) (count ∷ []) (Json.object given) in
    (((out : Composition) × (run ≡ ok out))
      ↔ Declared (names_of (count ∷ [])) given
        × ((vs : List Json) × AllResolve python (λ s. pos 0) given (count ∷ []) vs))
    × ((out : Composition) → run ≡ ok out → Composes python (λ s. pos 0) given (count ∷ []) out)
compose_argv_lem_example = compose_argv_lem python (λ s. pos 0) given (count ∷ [])

-- A final line feed passes the check of a time, and `true` that of a number of minutes.
line_feed_passes :
    (validate_schedule python (record daily { at = Json.str "06:30\n" }) ≡ ok tt)
    × (validate_schedule python (record no_schedule { type = "minutes"; every = Json.bool true })
        ≡ ok tt)
unfolding validate_schedule
line_feed_passes = (refl, refl)

-- A parameter that is required and has a default is read back as one that is not required.
required_lost :
    param_from_dict python
      (Json.object (param_to_dict (record count { default = Json.int (pos 1) })))
    ≡ ok (record count { default = Json.int (pos 1); required = false })
unfolding param_from_dict param_to_dict member
required_lost = refl

-- A job with all that is written for one.
abbrev full : Job
full = record read_row {
  params = count ∷ [];
  env = ("API_KEY", "$secret:key") ∷ [];
  webhook = some (record {
    provider = "github";
    secret = "s";
    mapping = ("count", "size") ∷ [];
    events = "push" ∷ [];
  });
  paused_schedule = some daily;
  max_runtime_seconds = some 0;
}

full-WellFormed : WellFormed python full
unfolding validate_kind_shape validate_schedule member
full-WellFormed = record {
  named = (refl, refl);
  shaped = refl;
  scheduled = refl;
  cooled = (omega arith, omega arith);
  watched = ((omega arith, omega arith), tt);
  chained = (tt, tt);
}

count-IsParam : IsParam python count
unfolding is_param_name is_param_flag strip member validate_default
count-IsParam = record {
  named = refl;
  name_stripped = refl;
  known = refl;
  kind_stripped = refl;
  options_fit = refl;
  flagged = (refl, refl);
  variable = tt;
  exclusive = refl;
  mapped = refl;
  default_read = refl;
  required_plain = λ e. refl;
}

full-Restorable : Restorable python full
unfolding member strip get is_env_name names_of
full-Restorable = record {
  well_formed = full-WellFormed;
  id_stripped = refl;
  name_stripped = refl;
  script_stripped = refl;
  kind_stripped = refl;
  day_upper = λ d e. cc;
  parked = (daily_valid, λ d e. cc);
  params_good = (count-IsParam, refl, tt);
  grouped = tt;
  success_stripped = tt;
  failure_stripped = tt;
  hooked = record {
    provided = refl;
    provider_stripped = refl;
    secret_full = refl;
    secret_stripped = refl;
    mapping_distinct = (refl, tt);
    mapping_full = (refl, refl, tt);
    events_full = (refl, tt);
  };
  env_distinct = (refl, tt);
  env_named = (refl, tt);
}

load_rows-jobs_to_dict_example : load_rows python (jobs_to_dict (full ∷ [])) ≡ full ∷ []
load_rows-jobs_to_dict_example = load_rows-jobs_to_dict python (full ∷ []) (full-Restorable, tt)
