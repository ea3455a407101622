-- ===== src/Jobs/Admission.antt =====
-- The admission of a fire to a mutex group: `mutex_collision` and `dispatch_chain_run` of
-- src/jobs/queue.py, and `_admit_and_spawn` of app/webapp/routers/jobs_run.py.
pub mod Scan
pub mod Collision
pub mod Fires
pub mod Endings
pub mod Laws
use app_launcher_lite.Prelude.{
  ℕ, String, ◌==◌, Bool, true, false, not, is_some, Option, none, some, List, [], ◌∷◌, ◌++◌,
  if◌then◌else◌,
}
use app_launcher_lite.Prelude.Dict
use app_launcher_lite.Jobs.Record.{
  Run, Status, queued, pending, no_fields, is_live, or_else, update,
}
use app_launcher_lite.Jobs.Job.{Job}
use app_launcher_lite.Jobs.World.{World, Host, Entry, Spawn, spawn_detached}
use app_launcher_lite.Jobs.History.{
  stamp, latest_run, write_run_json, base_run_meta, mark_run_failed,
}
use app_launcher_lite.Jobs.Trigger.{chain_trigger}
use app_launcher_lite.Jobs.Stats.{cooldown_check}
use app_launcher_lite.Jobs.Naming.{new_run_dir}
use app_launcher_lite.Jobs.Queue.{enqueue_mutex}
use app_launcher_lite.Jobs.Reap.{finalize_dead_runs, group_of}

-- `other.mutex_group == job.mutex_group`
abbrev pub same_group : Option String → String → Bool
same_group none g = false
same_group (some h) g = h == g

-- The loop of `mutex_collision`.
unfoldable pub collision_in : Host → World → List Job → Job → String → Option Job × World
collision_in h w [] job g = (none, w)
collision_in h w (other ∷ jobs) job g =
    let later = collision_in h w jobs job g in
    let w' = (finalize_dead_runs h w other).1 in
    let after = collision_in h w' jobs job g in
    if other.id == job.id
    then later
    else if not (same_group other.mutex_group g)
    then later
    else elim (latest_run w' other.id) [
      | none ↦ after
      | some latest ↦ if is_live latest.status then (some other, w') else after
    ]

-- `mutex_collision`
unfoldable pub mutex_collision : Host → World → List Job → Job → Option Job × World
mutex_collision h w jobs job = elim (group_of job) [
  | none ↦ (none, w)
  | some g ↦ collision_in h w jobs job g
]

-- The metadata of a fire that queues behind the holder of its group.
abbrev pub queued_meta : Run → Job → Job → Run
queued_meta meta job holder = record meta {
  status = some queued;
  mutex_group = job.mutex_group;
  mutex_blocked_by = some holder.id;
}

-- The queue entry of a fire.
abbrev pub entry_for : Job → String → String → Option String → Entry
entry_for job run_id trigger params = record {
  job_id = some job.id;
  run_id = some run_id;
  trigger = some trigger;
  params = params;
}

-- `enqueue_mutex(job.mutex_group, …)`: only a job with a group gets here.
abbrev pub enqueue_for : World → Job → Entry → World
enqueue_for w job entry = elim job.mutex_group [ none ↦ w | some g ↦ enqueue_mutex w g entry ]

-- What both fires do once the collision is known: queue behind the holder, or spawn. `true` says
-- that it was queued or spawned, `false` that the spawn failed and the run was marked failed.
unfoldable pub fire :
    Host → World → Job → Option Job → Run → String → String → Option String → Run → Bool × World
fire h w job (some holder) meta run_id trigger params on_error = (
  true,
  enqueue_for (write_run_json w job.id run_id (queued_meta meta job holder)) job
      (entry_for job run_id trigger params),
)
fire h w job none meta run_id trigger params on_error =
    let w' = write_run_json w job.id run_id (record meta { status = some pending }) in
    let (ok, w'') =
      spawn_detached h w'
        (record { job_id = job.id; run_id = run_id; trigger = trigger; params = params }) in
    if ok then (true, w'') else (false, mark_run_failed w'' h.now job.id run_id none on_error)

-- `dispatch_chain_run`: the run's directory, whether it was queued or spawned, and the new state.
unfoldable pub dispatch_chain_run :
    Host → World → List Job → Job → String → String → String × Bool × World
unfolding fire
dispatch_chain_run h w jobs downstream upstream_id rid =
    let (holder, w1) = mutex_collision h w jobs downstream in
    let (run_id, w2) = new_run_dir w1 downstream.id rid in
    let trigger = chain_trigger upstream_id in
    let meta = record (base_run_meta downstream trigger (stamp h.now) run_id) {
      chained_from = some upstream_id;
    } in
    let (ok, w3) =
      fire h w2 downstream holder meta run_id trigger none
        (record no_fields { chain_spawn_error = some h.spawn_error }) in
    (run_id, ok, w3)

-- What the run route answers: 429 with the seconds to wait, 500, or the run's id.
pub data Admitted : Type 0 where
  cooled_down : ℕ → Admitted
  spawn_failed : Admitted
  accepted : String → Bool → Admitted

-- `_admit_and_spawn` once the cooldown is known.
unfoldable pub admit_unless :
    Option (ℕ × ℕ × String)
    → Host
    → World
    → List Job
    → Job
    → Option String
    → String
    → Run
    → String
    → Admitted × World
unfolding fire
admit_unless (some (remaining, _, _)) h w jobs job params trigger extra rid =
    (cooled_down remaining, w)
admit_unless none h w jobs job params trigger extra rid =
    let (holder, w1) = mutex_collision h w jobs job in
    let (run_id, w2) = new_run_dir w1 job.id rid in
    let meta =
      update (record (base_run_meta job trigger (stamp h.now) run_id) { params = params }) extra in
    let (ok, w3) = fire h w2 job holder meta run_id trigger params no_fields in
    (if ok then accepted run_id (is_some holder) else spawn_failed, w3)

-- `_admit_and_spawn`: `extra` is what the webhook route adds to the record.
unfoldable pub admit_and_spawn :
    Host → World → List Job → Job → Option String → String → Run → String → Admitted × World
unfolding admit_unless
admit_and_spawn h w jobs job = admit_unless (cooldown_check w job h.now) h w jobs job
