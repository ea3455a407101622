-- ===== src/Jobs/Admission/Laws.antt =====
-- The run route's admission, `_admit_and_spawn` of app/webapp/routers/jobs_run.py, and the chain's,
-- `dispatch_chain_run` of src/jobs/queue.py, from the collision check to the answer.
use app_launcher_lite.Prelude.{
  ℕ, String, ◌≡◌, refl, ap, Bool, true, false, some, none, Option, List, if◌then◌else◌, is_some,
}
use app_launcher_lite.Prelude.Dict.{NodupKeys}
use app_launcher_lite.Jobs.Record.{Run, no_fields, update, or_else}
use app_launcher_lite.Jobs.World.{World, Host}
use app_launcher_lite.Jobs.Job.{Job}
use app_launcher_lite.Jobs.History.{base_run_meta}
use app_launcher_lite.Jobs.Stats.{cooldown_check}
use app_launcher_lite.Jobs.Trigger.{chain_trigger}
use app_launcher_lite.Jobs.Admission.{
  mutex_collision, dispatch_chain_run, Admitted, cooled_down, spawn_failed, accepted, admit_unless,
  admit_and_spawn,
}
use app_launcher_lite.Jobs.Admission.Endings.{Fired, fired}

-- From a queue file with distinct groups, a chained run that finds its group held is queued behind
-- the holder, another registered job of the group; else it is spawned, and if that fails it is
-- closed as failed.
pub dispatch_chain_run_ends :
    (h : Host) (w : World) (jobs : List Job) (downstream : Job) (upstream_id rid : String)
    → NodupKeys w.queue
    → let (run_id, ok, w') = dispatch_chain_run h w jobs downstream upstream_id rid in
      Fired w jobs downstream run_id
        (chain_trigger upstream_id)
        none
        (mutex_collision h w jobs downstream).0
        ok
        w'
unfolding dispatch_chain_run base_run_meta
dispatch_chain_run_ends h w jobs downstream upstream_id rid nd =
    fired h w jobs downstream rid (chain_trigger upstream_id) none _ _ nd refl

-- What the run route's answer says of the state. A refusal changes nothing; a queued run waits behind
-- another registered job of its group, and the answer says so; else the run is with an executor, or
-- it is closed as failed.
pub Answered :
    World → List Job → Job → String → Option String → Option Job → Admitted → World → Type 0
unfolding Fired
Answered w jobs job trigger params holder (cooled_down n) w' = w' ≡ w
Answered w jobs job trigger params holder spawn_failed w' =
    (i : String) × Fired w jobs job i trigger params holder false w'
Answered w jobs job trigger params holder (accepted i queued) w' =
    (queued ≡ is_some holder) × Fired w jobs job i trigger params holder true w'

answer :
    (w : World) (jobs : List Job) (job : Job) (i trigger : String) (params : Option String)
    (holder : Option Job) (ok : Bool) (w' : World)
    → Fired w jobs job i trigger params holder ok w'
    → Answered w jobs job trigger params holder
        (if ok then accepted i (is_some holder) else spawn_failed)
        w'
unfolding Answered
answer w jobs job i trigger params holder true w' f = (refl, f)
answer w jobs job i trigger params holder false w' f = (i, f)

answered :
    (c : Option (ℕ × ℕ × String)) (h : Host) (w : World) (jobs : List Job) (job : Job)
    (params : Option String) (trigger : String) (extra : Run) (rid : String)
    → NodupKeys w.queue
    → extra.killed ≡ none
    → let out = admit_unless c h w jobs job params trigger extra rid in
      Answered w jobs job trigger params (mutex_collision h w jobs job).0 out.0 out.1
unfolding admit_unless update base_run_meta Answered
answered (some c) h w jobs job params trigger extra rid nd k = refl
answered none h w jobs job params trigger extra rid nd k =
    answer w jobs job _ trigger params _ _ _
      (fired h w jobs job rid trigger params _ no_fields nd (ap (λ o. or_else o none) k))

-- From a queue file with distinct groups, and with extra fields that say nothing of a kill, every
-- answer of the run route fits the state it leaves: a refusal changes nothing; a queued answer
-- comes exactly when the collision check found a holder, which is another registered job of the
-- group, and the run is then last in its group's list and nothing was spawned; else the run is
-- pending and handed to an executor; or the spawn failed and the run is closed as failed with exit
-- code -1.
pub admit_and_spawn_lem :
    (h : Host) (w : World) (jobs : List Job) (job : Job) (params : Option String) (trigger : String)
    (extra : Run) (rid : String)
    → NodupKeys w.queue
    → extra.killed ≡ none
    → let out = admit_and_spawn h w jobs job params trigger extra rid in
      Answered w jobs job trigger params (mutex_collision h w jobs job).0 out.0 out.1
unfolding admit_and_spawn
admit_and_spawn_lem h w jobs job = answered (cooldown_check w job h.now) h w jobs job
