-- ===== src/Jobs/Schtasks/State.antt =====
-- What src/jobs/schtasks.py and src/jobs/coverage.py keep in the process, beside the task scheduler.
use app_launcher_lite.Prelude.{ℕ, Bool, String, Option, none, List}
use app_launcher_lite.Prelude.Dict.{Dict}

-- A completed `schtasks.exe`: whether its code is 0, and what it printed. A time-out is a failure
-- that printed nothing.
pub record Proc : Type 0 where
  pub succeeded : Bool
  pub stdout : String

-- One task of the bulk query: its next run as it is rendered, and whether it is enabled, if stated.
pub record TaskRecord : Type 0 where
  pub next_run : Option String
  pub enabled : Option Bool

-- `STATE_OK` and the other states of coverage.
pub data CoverageState : Type 0 where
  covered problem unknown exempt : CoverageState

-- `PROBLEM_TASK_MISSING` and the other problems.
pub data Problem : Type 0 where
  task_missing task_disabled missed_fire : Problem

-- The payload of `_result`. `detail` is kept as the parts that it is made of, the problems.
pub record Coverage : Type 0 where
  pub state : CoverageState
  pub problems : List Problem
  pub missing_tasks : List String
  pub disabled_tasks : List String
  pub missed_count : ℕ
  pub missed_fires : List ℕ

-- `_next_run_cache` and `_coverage_cache`, with the monotonic instant of each; and the state of the
-- task scheduler itself.
pub record Tasks (S : Type 0) : Type 0 where
  pub scheduler : S
  pub next_run_cache : Option (ℕ × Option (Dict TaskRecord))
  pub coverage_cache : Option (ℕ × Dict Coverage)

-- `invalidate_next_run_cache`, which calls `invalidate_coverage_cache`.
unfoldable pub invalidate_next_run_cache : {S : Type 0} → Tasks S → Tasks S
invalidate_next_run_cache t = record t { next_run_cache = none; coverage_cache = none }
