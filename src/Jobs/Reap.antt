-- ===== src/Jobs/Reap.antt =====
-- src/jobs/reap.py: run records that an executor left behind.
pub mod Frames
pub mod Laws
use app_launcher_lite.Prelude.{
  ℕ, zero, suc, String, ◌==◌, Bool, true, false, Option, none, some, List, [], ◌∷◌, if◌then◌else◌,
  leb, is_some,
}
use app_launcher_lite.Prelude.Dict
use app_launcher_lite.Prelude.Int.{ℤ, sub_ℕ}
use app_launcher_lite.Jobs.Record.{Run, Stamp, at, unreadable, Status, failed, no_fields, is_live}
use app_launcher_lite.Jobs.Job.{Job}
use app_launcher_lite.Jobs.World.{World, Host}
use app_launcher_lite.Jobs.History.{second, stamp, list_runs, read_run, write_run_json}
use app_launcher_lite.Jobs.Queue.{drain_mutex_queue}
use Prim.Native.Nat.{◌/◌, ◌*◌}

-- `invalidate_stats_cache(job_id)` of src/jobs/stats.py
unfoldable pub invalidate_stats_cache : World → String → World
invalidate_stats_cache w job_id = record w { stats_cache = Dict.del job_id w.stats_cache }

-- The pid that `_reap_one` acts on: recorded, and provably dead.
unfoldable pub dead_pid : Host → Run → Bool
dead_pid h r = elim r.pid [
  | none ↦ false
  | some zero ↦ false
  | some (suc p) ↦ if h.is_pid_alive (suc p) r.pid_create_time then false else true
]

-- The run id of a record: missing and empty are falsy.
abbrev pub run_id_of : Run → Option String
run_id_of r = elim r.run_id [ none ↦ none | some i ↦ if i == "" then none else some i ]

-- `(finished - started).total_seconds()`, where the start can be read.
abbrev pub duration_since : Option Stamp → ℕ → Option ℤ
duration_since (some (at started)) now = some (sub_ℕ (now / second * second) started)
duration_since _ now = none

-- The fields that `_reap_one` writes.
abbrev pub reaped_fields : Host → Run → Run
reaped_fields h r = record no_fields {
  status = some failed;
  finished_at = some (stamp h.now);
  duration_seconds = duration_since r.started_at h.now;
  reaped = some true;
}

-- `_reap_one`: the record after the write, if the run was reaped.
unfoldable pub reap_one : Host → World → String → Run → Option Run × World
unfolding dead_pid
reap_one h w job_id r =
    if dead_pid h r
    then elim (run_id_of r) [
      | none ↦ (none, w)
      | some run_id ↦
          let w' =
            invalidate_stats_cache (write_run_json w job_id run_id (reaped_fields h r)) job_id in
          (some (read_run w' job_id run_id), w')
    ]
    else (none, w)

-- The loop of `finalize_dead_runs` over the records as they were listed.
unfoldable pub finalize_each : Host → World → String → List Run → List Run × World
finalize_each h w job_id [] = ([], w)
finalize_each h w job_id (r ∷ rs) =
    if is_live r.status
    then (let (updated, w') = reap_one h w job_id r in
        let (reaped, w'') = finalize_each h w' job_id rs in
        (elim updated [ none ↦ reaped | some u ↦ u ∷ reaped ], w''))
    else finalize_each h w job_id rs

-- `finalize_dead_runs`
unfoldable pub finalize_dead_runs : Host → World → Job → List Run × World
finalize_dead_runs h w job = finalize_each h w job.id (list_runs w job.id)

-- The mutex group of a job, if it names one.
abbrev pub group_of : Job → Option String
group_of job = elim job.mutex_group [ none ↦ none | some g ↦ if g == "" then none else some g ]

-- `reap_stranded_runs`
unfoldable pub reap_stranded_runs : Host → World → Job → List Run × World
reap_stranded_runs h w job =
    let (reaped, w') = finalize_dead_runs h w job in
    elim reaped [
      | [] ↦ ([], w')
      | r ∷ rs ↦ elim (group_of job) [
        | none ↦ (r ∷ rs, w')
        | some g ↦ (r ∷ rs, (drain_mutex_queue h w' g).1)
      ]
    ]
