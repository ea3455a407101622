-- ===== src/Jobs/Admission/Fires.antt =====
-- The two ends of a fire, in src/jobs/queue.py and app/webapp/routers/jobs_run.py: a queued run or a
-- spawned one.
use app_launcher_lite.Prelude.{
  ℕ, String, ◌==◌, ◌≡◌, refl, ◌∙◌, ap, sym, subst, true, false, some, none, Option, List, [], ◌∷◌,
  ◌++◌, Bool-cases, inl, inr, if◌then◌else◌, eq_refl,
}
use app_launcher_lite.Prelude.Dict
use app_launcher_lite.Prelude.Dict.{NodupKeys, get-put, put}
use app_launcher_lite.Prelude.Int.{negsuc}
use app_launcher_lite.Jobs.Record.{
  Run, queued, pending, failed, no_fields, truthy, or_else, merge, update,
}
use app_launcher_lite.Jobs.World.{World, Host, Entry, Spawn, runs_of, set_runs, spawn_detached}
use app_launcher_lite.Jobs.Job.{Job}
use app_launcher_lite.Jobs.History.{stamp, read_run, write_run_json, mark_run_failed}
use app_launcher_lite.Jobs.History.Writes.{runs_of-set_runs, read_run-write_run_json}
use app_launcher_lite.Jobs.Naming.{new_run_dir}
use app_launcher_lite.Jobs.Reap.Frames.{Framed, write_run_json-Framed}
use app_launcher_lite.Jobs.Queue.{entries_of, enqueue_mutex, write_queue}
use app_launcher_lite.Jobs.Queue.Fifo.{entries_of-write_queue}
use app_launcher_lite.Jobs.Admission.{queued_meta, entry_for, enqueue_for, fire}

-- The run waits behind the holder: its record says so, its entry is the last of its group, no other
-- group's list changed and nothing was spawned.
pub record Waits (w w' : World) (job holder : Job) (g run_id : String) (entry : Entry)
    : Type 0 where
  pub status : (read_run w' job.id run_id).status ≡ some queued
  pub behind : (read_run w' job.id run_id).mutex_blocked_by ≡ some holder.id
  pub last : entries_of g w'.queue ≡ entries_of g w.queue ++ entry ∷ []
  pub others : (k : String) → (g == k) ≡ false → entries_of k w'.queue ≡ entries_of k w.queue
  pub spawned : w'.spawned ≡ w.spawned

-- The run was handed to an executor, and no queue changed.
pub record Starts (w w' : World) (job : Job) (spawn : Spawn) : Type 0 where
  pub status : (read_run w' job.id spawn.run_id).status ≡ some pending
  pub spawned : w'.spawned ≡ w.spawned ++ spawn ∷ []
  pub queue : w'.queue ≡ w.queue

-- The executor could not be spawned: the run is closed as failed.
pub record Fails (w w' : World) (job : Job) (run_id : String) : Type 0 where
  pub status : (read_run w' job.id run_id).status ≡ some failed
  pub exit_code : (read_run w' job.id run_id).exit_code ≡ some (negsuc 0)
  pub spawned : w'.spawned ≡ w.spawned
  pub queue : w'.queue ≡ w.queue

read_run-write_same :
    (w : World) (j i : String) (f : Run)
    → read_run (write_run_json w j i f) j i ≡ merge (read_run w j i) f
read_run-write_same w j i f = read_run-write_run_json w j i j i f ∙ rw (eq_refl j, eq_refl i) refl

put_here : (d : Dict.Dict Run) (n : String) → Dict.get n (put n no_fields d) ≡ some no_fields
put_here d n = get-put n n no_fields d ∙ rw (eq_refl n) refl

set_here : (w : World) (j : String) (d : Dict.Dict Run) → runs_of (set_runs w j d) j ≡ d
set_here w j d = runs_of-set_runs w j j d ∙ rw (eq_refl j) refl

pub read_run-new_run_dir :
    (w : World) (j rid : String)
    → read_run (new_run_dir w j rid).1 j (new_run_dir w j rid).0 ≡ no_fields
unfolding new_run_dir read_run
read_run-new_run_dir w j rid =
    ap
      (λ (d : Dict.Dict Run). elim (Dict.get {V = Run} (new_run_dir w j rid).0 d) as (λ _. Run) [
        | none ↦ no_fields
        | some r ↦ r
      ])
      (set_here w j (put (new_run_dir w j rid).0 no_fields (runs_of w j)))
    ∙ rw (put_here (runs_of w j) (new_run_dir w j rid).0) refl

pub new_run_dir-Framed : (w : World) (j rid : String) → Framed j w (new_run_dir w j rid).1
unfolding new_run_dir set_runs
new_run_dir-Framed w j rid = record {
  queue = refl;
  spawned = refl;
  others = λ k e. runs_of-set_runs w j k _ ∙ rw e refl;
}

merge-queued :
    (f : Run) (job holder : Job)
    → ((merge no_fields (queued_meta f job holder)).status ≡ some queued)
      × ((merge no_fields (queued_meta f job holder)).mutex_blocked_by ≡ some holder.id)
unfolding merge update
merge-queued f job holder = (refl, refl)

read_run-enqueue :
    (w : World) (g j i : String) (e : Entry) → read_run (enqueue_mutex w g e) j i ≡ read_run w j i
unfolding enqueue_mutex write_queue read_run
read_run-enqueue w g j i e = refl

enqueue_for-group :
    (w : World) (job : Job) (g : String) (e : Entry)
    → job.mutex_group ≡ some g
    → enqueue_for w job e ≡ enqueue_mutex w g e
enqueue_for-group w job g e at =
    ap (λ o. elim o as (λ _. World) [ none ↦ w | some k ↦ enqueue_mutex w k e ]) at

spawned-enqueue : (w : World) (g : String) (e : Entry) → (enqueue_mutex w g e).spawned ≡ w.spawned
unfolding enqueue_mutex write_queue
spawned-enqueue w g e = refl

enqueued :
    (w u : World) (g k : String) (e : Entry)
    → NodupKeys w.queue
    → u.queue ≡ w.queue
    → entries_of k (enqueue_mutex u g e).queue
      ≡ (if g == k then entries_of g w.queue ++ e ∷ [] else entries_of k w.queue)
unfolding enqueue_mutex
enqueued w u g k e nd same =
    (entries_of-write_queue u g k (entries_of g u.queue ++ e ∷ [])
      (subst (λ (q : Dict.Dict (List Entry)). NodupKeys q) (sym same) nd)).0
    ∙ ap (λ q. if g == k then entries_of g q ++ e ∷ [] else entries_of k q) same

enqueued_here :
    (w u : World) (g : String) (e : Entry)
    → NodupKeys w.queue
    → u.queue ≡ w.queue
    → entries_of g (enqueue_mutex u g e).queue ≡ entries_of g w.queue ++ e ∷ []
enqueued_here w u g e nd same = enqueued w u g g e nd same ∙ rw (eq_refl g) refl

enqueued_there :
    (w u : World) (g : String) (e : Entry)
    → NodupKeys w.queue
    → u.queue ≡ w.queue
    → (k : String) → (g == k) ≡ false
    → entries_of k (enqueue_mutex u g e).queue ≡ entries_of k w.queue
enqueued_there w u g e nd same k ne = enqueued w u g k e nd same ∙ rw ne refl

pub fire-Waits :
    (h : Host) (w : World) (job holder : Job) (meta : Run) (g i trigger : String)
    (params : Option String) (on_error : Run)
    → NodupKeys w.queue
    → job.mutex_group ≡ some g
    → read_run w job.id i ≡ no_fields
    → Waits w
        (fire h w job (some holder) meta i trigger params on_error).1
        job
        holder
        g
        i
        (entry_for job i trigger params)
unfolding fire
fire-Waits h w job holder meta g i trigger params on_error nd at new =
    let queued_w = write_run_json w job.id i (queued_meta meta job holder) in
    let here : read_run queued_w job.id i ≡ merge no_fields (queued_meta meta job holder) =
      read_run-write_same w job.id i (queued_meta meta job holder)
      ∙ ap (λ r. merge r (queued_meta meta job holder)) new in
    let still = read_run-enqueue queued_w g job.id i (entry_for job i trigger params) ∙ here in
    let framed = write_run_json-Framed w job.id i (queued_meta meta job holder) in
    rw (enqueue_for-group queued_w job g (entry_for job i trigger params) at) (record {
      status = ap (λ (r : Run). r.status) still ∙ (merge-queued meta job holder).0;
      behind = ap (λ (r : Run). r.mutex_blocked_by) still ∙ (merge-queued meta job holder).1;
      last = enqueued_here w queued_w g (entry_for job i trigger params) nd framed.queue;
      others = enqueued_there w queued_w g (entry_for job i trigger params) nd framed.queue;
      spawned = spawned-enqueue queued_w g (entry_for job i trigger params) ∙ framed.spawned;
    })

-- What a run that is being started holds when no kill is recorded for it.
merge-pending :
    (f : Run)
    → ((merge no_fields (record f { status = some pending })).status ≡ some pending)
      × ((merge no_fields (record f { status = some pending })).killed ≡ or_else f.killed none)
unfolding merge update
merge-pending f = (refl, refl)

unkilled : (old new : Run) → truthy old.killed ≡ false → merge old new ≡ update old new
unfolding merge
unkilled old new k = rw k refl

mark_run_failed-same :
    (w : World) (now : ℕ) (j i : String) (f : Run)
    → truthy (read_run w j i).killed ≡ false
    → let w' = mark_run_failed w now j i none f in
      ((read_run w' j i).status ≡ some failed)
      × ((read_run w' j i).exit_code ≡ some (negsuc 0))
      × (w'.queue ≡ w.queue)
      × (w'.spawned ≡ w.spawned)
unfolding mark_run_failed update
mark_run_failed-same w now j i f k =
    let fields : Run = record f {
      finished_at = some (stamp now);
      exit_code = some (negsuc 0);
      status = some failed;
    } in
    let framed = write_run_json-Framed w j i fields in
    let here = read_run-write_same w j i fields ∙ unkilled (read_run w j i) fields k in
    (
      ap (λ (r : Run). r.status) here,
      ap (λ (r : Run). r.exit_code) here,
      framed.queue,
      framed.spawned,
    )

pub fire-Starts :
    (h : Host) (w : World) (job : Job) (meta : Run) (i trigger : String) (params : Option String)
    (on_error : Run)
    → read_run w job.id i ≡ no_fields
    → meta.killed ≡ none
    → let spawn : Spawn = record {
      job_id = job.id;
      run_id = i;
      trigger = trigger;
      params = params;
    } in
      let out = fire h w job none meta i trigger params on_error in
      (out.0 ≡ true → Starts w out.1 job spawn) × (out.0 ≡ false → Fails w out.1 job i)
unfolding fire spawn_detached read_run
fire-Starts h w job meta i trigger params on_error new k =
    let started : Run = record meta { status = some pending } in
    let w' = write_run_json w job.id i started in
    let framed = write_run_json-Framed w job.id i started in
    let here : read_run w' job.id i ≡ merge no_fields started =
      read_run-write_same w job.id i started ∙ ap (λ r. merge r started) new in
    let spawn : Spawn = record {
      job_id = job.id;
      run_id = i;
      trigger = trigger;
      params = params;
    } in
    let pend : (merge no_fields started).killed ≡ none =
      (merge-pending meta).1 ∙ ap (λ o. or_else o none) k in
    let alive : truthy (read_run w' job.id i).killed ≡ false =
      ap (λ (r : Run). truthy r.killed) here ∙ ap truthy pend in
    let closed = mark_run_failed-same w' h.now job.id i on_error alive in
    elim (Bool-cases (h.can_spawn spawn)) [
      | inl ok ↦ rw ok (
        λ _. record {
          status = ap (λ (r : Run). r.status) here ∙ (merge-pending meta).0;
          spawned = ap (λ l. l ++ spawn ∷ []) framed.spawned;
          queue = framed.queue;
        },
        λ e. cc,
      )
      | inr no_spawn ↦ rw no_spawn (
        λ e. cc,
        λ _. record {
          status = closed.0;
          exit_code = closed.1;
          spawned = closed.3 ∙ framed.spawned;
          queue = closed.2 ∙ framed.queue;
        },
      )
    ]
