-- ===== src/Jobs/Coverage.antt =====
-- src/jobs/coverage.py: whether the scheduled jobs are registered and fire.
pub mod Missed
pub mod Window
pub mod Verdicts
pub mod Alerts
use app_launcher_lite.Prelude.{
  ℕ, ◌+◌, ◌-◌, ◌*◌, ◌/◌, ltb, leb, eqb, length, String, ◌==◌, Bool, true, false, not, ◌&&◌, ◌||◌,
  Option, none, some, is_some, List, [], ◌∷◌, ◌++◌, map, if◌then◌else◌,
}
use app_launcher_lite.Prelude.Dict
use app_launcher_lite.Prelude.Dict.{Dict}
use app_launcher_lite.Jobs.Record.{Run}
use app_launcher_lite.Jobs.Job.{Job}
use app_launcher_lite.Jobs.World.{World}
use app_launcher_lite.Jobs.History.{second, drop, list_runs, max_runs_per_job}
use app_launcher_lite.Jobs.Stats.{parse_iso}
use app_launcher_lite.Jobs.Registry.Edits.{is_paused}
use app_launcher_lite.Jobs.Registry.Python.{Python}
use app_launcher_lite.Jobs.Schtasks.State.{
  Proc, Tasks, Coverage, CoverageState, covered, problem, unknown, exempt, Problem, task_missing,
  task_disabled, missed_fire,
}
use app_launcher_lite.Jobs.Schtasks.Fires.{Readers, minute, day, is_frequent, upcoming_fires}
use app_launcher_lite.Jobs.Schtasks.Tasks.{Install, task_names_for}
use app_launcher_lite.Jobs.Schtasks.Records.{registered_task_states}

-- `COVERAGE_WINDOW_DAYS`, `MISSED_FIRE_GRACE_SECONDS`, `MISSED_FIRE_EARLY_TOLERANCE_SECONDS`,
-- `MAX_REPORTED_MISSED_FIRES`, `_COVERAGE_TTL_SECONDS` and the cap of `upcoming_fires`.
abbrev pub window : ℕ
window = 3 * day

abbrev pub grace : ℕ
grace = 900 * second

abbrev pub early_tolerance : ℕ
early_tolerance = 90 * second

abbrev pub max_reported : ℕ
max_reported = 5

abbrev pub coverage_ttl : ℕ
coverage_ttl = 60 * second

abbrev pub fires_cap : ℕ
fires_cap = 200

-- `_parse_iso` of a text of the job's row
abbrev pub stamp_of : Readers → String → Option ℕ
stamp_of r s = if s == "" then none else r.from_iso s

-- if began is not None and began > window_start
unfoldable pub clamp : ℕ → Option ℕ → ℕ
clamp start none = start
clamp start (some began) = if ltb start began then began else start

unfoldable pub starts_of : List Run → List ℕ
starts_of [] = []
starts_of (r ∷ runs) = elim (parse_iso r.started_at) [
  | none ↦ starts_of runs
  | some t ↦ t ∷ starts_of runs
]

-- min(starts), of a list that may be empty
unfoldable pub oldest_of : List ℕ → Option ℕ
oldest_of [] = none
oldest_of (t ∷ ts) = elim (oldest_of ts) [
  | none ↦ some t
  | some u ↦ some (if ltb u t then u else t)
]

-- `window_start` before the test of the deadline
unfoldable pub window_start : Readers → Job → ℕ → List Run → ℕ
unfolding clamp starts_of oldest_of
window_start r job now runs =
    let start =
      clamp (clamp (now - window) (stamp_of r job.added_at)) (stamp_of r job.schedule_changed_at) in
    if leb max_runs_per_job (length runs) then clamp start (oldest_of (starts_of runs)) else start

-- any(fire - early_tolerance <= s <= fire + late for s in starts)
unfoldable pub has_run : ℕ → List ℕ → Bool
has_run fire [] = false
has_run fire (s ∷ starts) =
    (leb fire (s + early_tolerance) && leb s (fire + grace)) || has_run fire starts

-- The loop over the expected fires.
unfoldable pub uncovered : List ℕ → List ℕ → List ℕ
unfolding has_run
uncovered starts [] = []
uncovered starts (fire ∷ fires) =
    let rest = uncovered starts fires in if has_run fire starts then rest else fire ∷ rest

-- `missed_fires`, with the runs that `list_runs` answers; the order of the starts does not matter.
unfoldable pub missed_fires : Readers → Job → ℕ → List Run → List ℕ
unfolding is_frequent window_start starts_of upcoming_fires uncovered
missed_fires r job now runs =
    if is_frequent job.schedule
    then []
    else (let start = window_start r job now runs in
        let deadline = now - grace in
        if leb deadline start
        then []
        else uncovered (starts_of runs) (upcoming_fires r job.schedule start deadline fires_cap))

-- `_result`; a missed fire is reported to the minute.
abbrev pub to_minute : ℕ → ℕ
to_minute t = t / minute * minute

unfoldable pub result : CoverageState → List Problem → List String → List String → List ℕ → Coverage
result state problems missing disabled missed = record {
  state = state;
  problems = problems;
  missing_tasks = missing;
  disabled_tasks = disabled;
  missed_count = length missed;
  missed_fires = map to_minute (drop (length missed - max_reported) missed);
}

-- The names with no entry, and those whose entry is disabled.
unfoldable pub missing_names : Dict (Option Bool) → List String → List String
unfolding Dict.get
missing_names d [] = []
missing_names d (n ∷ names) =
    let rest = missing_names d names in if is_some (Dict.get n d) then rest else n ∷ rest

abbrev pub is_off : Option (Option Bool) → Bool
is_off (some (some false)) = true
is_off _ = false

unfoldable pub disabled_names : Dict (Option Bool) → List String → List String
unfolding Dict.get
disabled_names d [] = []
disabled_names d (n ∷ names) =
    let rest = disabled_names d names in if is_off (Dict.get n d) then n ∷ rest else rest

-- The two lists of the structural half; a failed query leaves both empty.
abbrev pub missing_in : Option (Dict (Option Bool)) → List String → List String
missing_in none names = []
missing_in (some d) names = missing_names d names

abbrev pub disabled_in : Option (Dict (Option Bool)) → List String → List String
disabled_in none names = []
disabled_in (some d) names = disabled_names d names

abbrev pub any_in {ℓ} : {A : Type ℓ} → List A → Bool
any_in [] = false
any_in (_ ∷ _) = true

abbrev pub problem_if {ℓ} : {A : Type ℓ} → List A → Problem → List Problem
problem_if l p = if any_in l then p ∷ [] else []

-- The verdict from the three lists, and whether the query answered.
unfoldable pub verdict_of : Bool → List String → List String → List ℕ → Coverage
unfolding result
verdict_of answered missing disabled missed =
    let problems =
      problem_if missing task_missing
      ++ (problem_if disabled task_disabled ++ problem_if missed missed_fire) in
    if any_in problems
    then result problem problems missing disabled missed
    else if not answered
    then result unknown [] [] [] []
    else result covered [] [] [] []

-- `coverage_for`
unfoldable pub coverage_for :
    Readers → Install → Job → Option (Dict (Option Bool)) → ℕ → List Run → Coverage
unfolding is_paused task_names_for missing_names disabled_names missed_fires verdict_of result
coverage_for r i job states now runs =
    if is_paused job || (job.schedule.type == "none")
    then result exempt [] [] [] []
    else (let names = task_names_for i job in
        verdict_of (is_some states) (missing_in states names) (disabled_in states names)
          (missed_fires r job now runs))

-- The loop of `scan_coverage`; a history that cannot be read is left out.
unfoldable pub scan_jobs :
    Readers
    → Install
    → World
    → Option (Dict (Option Bool))
    → ℕ
    → List Job
    → Dict Coverage
    → Dict Coverage
unfolding coverage_for list_runs Dict.put
scan_jobs r i w states now [] out = out
scan_jobs r i w states now (job ∷ jobs) out =
    scan_jobs r i w states now jobs
      (Dict.put job.id (coverage_for r i job states now (list_runs w job.id)) out)

-- The instants that a scan reads: the monotonic clock, and the local time.
pub record Now : Type 0 where
  pub monotonic : ℕ
  pub local : ℕ

module _ {S : Type 0} (r : Readers) (i : Install) (py : Python) (run : S → List String → Proc × S)
    (w : World) (jobs : List Job) where
  -- `scan_coverage`
  unfoldable pub scan_coverage : Now → Tasks S → Dict Coverage × Tasks S
  unfolding registered_task_states scan_jobs
  scan_coverage now t =
      let (states, t') = registered_task_states i py run now.monotonic t in
      (scan_jobs r i w states now.local jobs [], t')

  unfoldable pub rescanned : Now → Tasks S → Dict Coverage × Tasks S
  unfolding scan_coverage
  rescanned now t =
      let (snapshot, t') = scan_coverage now t in
      (snapshot, record t' { coverage_cache = some (now.monotonic, snapshot) })

  abbrev pub cached_or : Option (ℕ × Dict Coverage) → Now → Tasks S → Dict Coverage × Tasks S
  cached_or none now t = rescanned now t
  cached_or (some (ts, snapshot)) now t =
      if ltb (now.monotonic - ts) coverage_ttl then (snapshot, t) else rescanned now t

  -- `coverage_map`
  unfoldable pub coverage_map : Bool → Now → Tasks S → Dict Coverage × Tasks S
  unfolding rescanned
  coverage_map fresh now t = if fresh then rescanned now t else cached_or t.coverage_cache now t

  -- `coverage_for_job`
  unfoldable pub coverage_for_job : Now → Tasks S → String → Coverage × Tasks S
  unfolding coverage_map Dict.get result
  coverage_for_job now t job_id =
      let (snapshot, t') = coverage_map false now t in
      (elim (Dict.get job_id snapshot) [ none ↦ result unknown [] [] [] [] | some c ↦ c ], t')
