-- ===== src/Jobs/Coverage/Alerts.antt =====
-- src/jobs/coverage.py: the alerts on new problems, and the file that keeps them from repeating.
pub mod Step
pub mod Standing
use app_launcher_lite.Prelude.{
  ℕ, ◌+◌, ◌*◌, ltb, String, ◌==◌, Bool, true, false, not, ◌&&◌, ◌||◌, Option, none, some, is_some,
  List, [], ◌∷◌, map, if◌then◌else◌,
}
use app_launcher_lite.Prelude.Decimal.{show}
use app_launcher_lite.Prelude.Dict
use app_launcher_lite.Prelude.Dict.{Dict}
use app_launcher_lite.Prelude.Texts.{join, sort_texts}
use app_launcher_lite.Jobs.Job.{Job}
use app_launcher_lite.Jobs.World.{World}
use app_launcher_lite.Jobs.Executor.{NotifyConfig}
use app_launcher_lite.Jobs.Registry.Python.{Python}
use app_launcher_lite.Jobs.Schtasks.State.{
  Proc, Tasks, Coverage, CoverageState, problem, Problem, task_missing, task_disabled, missed_fire,
}
use app_launcher_lite.Jobs.Schtasks.Fires.{Readers, day}
use app_launcher_lite.Jobs.Schtasks.Tasks.{Install}
use app_launcher_lite.Jobs.Coverage.{Now, scan_coverage}

-- One entry of coverage-alerts.json, but for the detail; a missing field is `none`.
pub record AlertEntry : Type 0 where
  pub signature : Option String
  pub last_seen_at : Option ℕ
  pub last_alert_epoch : Option ℕ
  pub last_alert_at : Option ℕ

-- `COVERAGE_ALERT_REPEAT_SECONDS`
abbrev pub repeat_after : ℕ
repeat_after = day

-- What one alert sends.
pub record CoverageAlert : Type 0 where
  pub job_id : String
  pub pushed : Bool
  pub telegram : Bool

abbrev pub problem_text : Problem → String
problem_text task_missing = "task_missing"
problem_text task_disabled = "task_disabled"
problem_text missed_fire = "missed_fire"

-- `_signature`
unfoldable pub signature_of : Coverage → String
unfolding join sort_texts show
signature_of c = join "|" (
    join "," (map problem_text c.problems)
    ∷ join "," (sort_texts c.missing_tasks)
    ∷ join "," (sort_texts c.disabled_tasks)
    ∷ show c.missed_count
    ∷ [])

abbrev pub in_problem : CoverageState → Bool
in_problem problem = true
in_problem _ = false

abbrev pub same_signature : Option String → String → Bool
same_signature none s = false
same_signature (some t) s = t == s

abbrev pub within_repeat : Option ℕ → ℕ → Bool
within_repeat none wall = false
within_repeat (some last) wall = ltb wall (last + repeat_after)

-- state.get(job.id) or {}
abbrev pub no_entry : AlertEntry
no_entry = record {
  signature = none;
  last_seen_at = none;
  last_alert_epoch = none;
  last_alert_at = none;
}

abbrev pub entry_or_empty : Option AlertEntry → AlertEntry
entry_or_empty none = no_entry
entry_or_empty (some e) = e

unfoldable pub is_recent : AlertEntry → String → ℕ → Bool
is_recent prior signature wall =
    same_signature prior.signature signature && within_repeat prior.last_alert_epoch wall

-- state[job.id] = {...}
unfoldable pub alert_entry : Bool → AlertEntry → String → ℕ → ℕ → AlertEntry
alert_entry recent prior signature wall stamp = record {
  signature = some signature;
  last_seen_at = some stamp;
  last_alert_epoch = if recent then prior.last_alert_epoch else some wall;
  last_alert_at = if recent then prior.last_alert_at else some stamp;
}

-- The notifications of one alert, on the channels that are on.
unfoldable pub alert_for : NotifyConfig → Job → CoverageAlert
alert_for cfg job = record {
  job_id = job.id;
  pushed = cfg.notify_on_failure && cfg.has_pushover;
  telegram = job.alert_on_failure && cfg.has_telegram;
}

-- The loop of `check_and_alert` ends, or a notification raises and the rest is given up.
pub record Checks : Type 0 where
  pub completed : Bool
  pub alerted : List CoverageAlert
  pub state : Dict AlertEntry
  pub dirty : Bool

abbrev pub add_alert : CoverageAlert → Checks → Checks
add_alert a c = record c { alerted = a ∷ c.alerted }

-- One check: what is on the wall clock and the local one, and whether the notification of a job is
-- delivered or raises.
pub record Round : Type 0 where
  pub wall : ℕ
  pub stamp : ℕ
  pub delivers : String → Bool

-- What the loop does for one job with the coverage `c`; `next` is the loop over the jobs behind it.
unfoldable pub check_job :
    NotifyConfig
    → Round
    → Job
    → Coverage
    → (Dict AlertEntry → Bool → Checks)
    → Dict AlertEntry
    → Bool
    → Checks
unfolding Dict.get Dict.put Dict.del signature_of is_recent alert_entry alert_for
check_job cfg round job c next state dirty =
    let prior = entry_or_empty (Dict.get job.id state) in
    let recent = is_recent prior (signature_of c) round.wall in
    let entry = alert_entry recent prior (signature_of c) round.wall round.stamp in
    let state' = Dict.put job.id entry state in
    if not (in_problem c.state)
    then next (Dict.del job.id state) (dirty || is_some (Dict.get job.id state))
    else if recent
    then next state' true
    else if round.delivers job.id
    then add_alert (alert_for cfg job) (next state' true)
    else record { completed = false; alerted = []; state = state'; dirty = true }

-- results.get(job.id)
abbrev pub check_found :
    NotifyConfig
    → Round
    → Job
    → Option Coverage
    → (Dict AlertEntry → Bool → Checks)
    → Dict AlertEntry
    → Bool
    → Checks
check_found cfg round job none next state dirty = next state dirty
check_found cfg round job (some c) next state dirty = check_job cfg round job c next state dirty

-- The loop over the jobs.
unfoldable pub check_each :
    NotifyConfig → Round → Dict Coverage → List Job → Dict AlertEntry → Bool → Checks
unfolding Dict.get check_job
check_each cfg round results [] state dirty = record {
  completed = true;
  alerted = [];
  state = state;
  dirty = dirty;
}
check_each cfg round results (job ∷ jobs) state dirty =
    check_found cfg round job (Dict.get job.id results) (check_each cfg round results jobs) state
      dirty

-- The file after the checks; a write that fails is swallowed.
unfoldable pub written : Bool → Dict AlertEntry → Checks → Dict AlertEntry
written can_write file c = if c.completed && c.dirty && can_write then c.state else file

module _ {S : Type 0} (r : Readers) (i : Install) (py : Python)
    (run : S → List String → Proc × S) where
  -- `check_and_alert`: the alerts, the file, and the process's caches.
  unfoldable pub check_and_alert :
      NotifyConfig
      → World
      → List Job
      → Now
      → Round
      → Bool
      → Dict AlertEntry
      → Tasks S
      → List CoverageAlert × Dict AlertEntry × Tasks S
  unfolding scan_coverage check_each written
  check_and_alert cfg w jobs now round can_write file t =
      let (results, t') = scan_coverage r i py run w jobs now t in
      let checks = check_each cfg round results jobs file false in
      (checks.alerted, written can_write file checks, record t' { coverage_cache = none })
