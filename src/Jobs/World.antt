-- ===== src/Jobs/World.antt =====
-- The state that the jobs subsystem shares between the webapp and the executors: the run directories,
-- the mutex queue file, the stats cache and the executors spawned so far. Each operation of src/jobs
-- that takes a lock for its read, merge and swap is one step on it.
use app_launcher_lite.Prelude.{
  true, false, ◌∷◌, ◌++◌, if◌then◌else◌, ℕ, String, Bool, Option, none, some, List, [],
}
use app_launcher_lite.Prelude.Dict
use app_launcher_lite.Prelude.Dict.{Dict}
use app_launcher_lite.Jobs.Record.{Run, Status}

-- One entry of `_queue.json`. A field that is not a text is `none`; so are missing params.
pub record Entry : Type 0 where
  pub job_id : Option String
  pub run_id : Option String
  pub trigger : Option String
  pub params : Option String

-- The arguments of one `spawn_run_job_detached`.
pub record Spawn : Type 0 where
  pub job_id : String
  pub run_id : String
  pub trigger : String
  pub params : Option String

-- What `_compute_stats` returns; the rate of successes is kept as its two counts.
pub record RunStats : Type 0 where
  pub p50 : Option ℕ
  pub p95 : Option ℕ
  pub success_recent : ℕ
  pub total_recent : ℕ
  pub completed_count : ℕ
  pub last7 : List (Option Status × Option String)

-- `runs` maps a job id to its run directories, by name; a directory with no readable run.json holds
-- the empty record, as both readers and the merge take it.
pub record World : Type 0 where
  pub runs : Dict (Dict Run)
  pub queue : Dict (List Entry)
  pub stats_cache : Dict (ℕ × RunStats)
  pub spawned : List Spawn

-- What the operating system answers: whether a process lives, by its pid and the hint of its start;
-- whether a spawn succeeds (`false` is an OSError, whose text is `spawn_error`); the instant; and whether a directory can be
-- removed.
pub record Host : Type 0 where
  pub is_pid_alive : ℕ → Option ℕ → Bool
  pub can_spawn : Spawn → Bool
  pub spawn_error : String
  pub can_remove : String → String → Bool
  pub now : ℕ

-- The run directories of a job; a job that never ran has none.
unfoldable pub runs_of : World → String → Dict Run
runs_of w job_id = elim (Dict.get job_id w.runs) [ none ↦ [] | some d ↦ d ]

unfoldable pub set_runs : World → String → Dict Run → World
set_runs w job_id d = record w { runs = Dict.put job_id d w.runs }

-- `spawn_run_job_detached`: whether it returned.
unfoldable pub spawn_detached : Host → World → Spawn → Bool × World
spawn_detached h w s =
    if h.can_spawn s then (true, record w { spawned = w.spawned ++ s ∷ [] }) else (false, w)
