-- ===== src/Jobs/Queue/Draining.antt =====
-- `drain_mutex_queue` of src/jobs/queue.py: what one release does.
use app_launcher_lite.Prelude.{
  String, ◌==◌, ◌≡◌, refl, ◌∙◌, ap, sym, Bool, true, some, none, Option, List, [], ◌∷◌, ◌++◌,
  Bool-cases, Option-cases, inl, inr, if◌then◌else◌, eq_iff,
}
use app_launcher_lite.Prelude.Dict.{NodupKeys}
use app_launcher_lite.Jobs.Record.{Run, is_queued}
use app_launcher_lite.Jobs.World.{World, Host, Entry, Spawn, runs_of, spawn_detached}
use app_launcher_lite.Jobs.History.{read_run, head_of}
use app_launcher_lite.Jobs.Queue.{
  entries_of, write_queue, pop_mutex_entry, trigger_or_manual, release_entry, drain_mutex_queue,
}
use app_launcher_lite.Jobs.Queue.Fifo.{pop_mutex_entry_lem, entries_of-write_queue}

-- The executor that an entry asks for.
abbrev pub spawn_for : Entry → String → String → Spawn
spawn_for e j i = record {
  job_id = j;
  run_id = i;
  trigger = trigger_or_manual e.trigger;
  params = e.params;
}

-- The queued run of the entry was handed to an executor.
pub record Released (w w' : World) (e : Entry) : Type 0 where
  pub job_id : String
  pub run_id : String
  pub names : (e.job_id ≡ some job_id) × (e.run_id ≡ some run_id)
  pub waited : is_queued (read_run w job_id run_id).status ≡ true
  pub spawned : w'.spawned ≡ w.spawned ++ spawn_for e job_id run_id ∷ []

-- What a release answers and does.
pub Release : World → Option Entry → Option Entry → World → Type 0
Release w entry none w' = w'.spawned ≡ w.spawned
Release w entry (some e) w' = (entry ≡ some e) × Released w w' e

released :
    (h : Host) (w : World) (entry : Option Entry)
    → let out = release_entry h w entry in Release w entry out.0 out.1 × (out.1.queue ≡ w.queue)
unfolding release_entry Release spawn_detached
released h w none = (refl, refl)
released h w (some e) = elim (Option-cases e.job_id) [
  | inl no_job ↦ rw no_job (refl, refl)
  | inr (j, ej) ↦ rw ej (elim (Option-cases e.run_id) [
    | inl no_run ↦ rw no_run (refl, refl)
    | inr (i, ei) ↦ rw ei (elim (Bool-cases (is_queued (read_run w j i).status)) [
      | inr stale ↦ rw stale (refl, refl)
      | inl waits ↦ rw waits (elim (Bool-cases (h.can_spawn (spawn_for e j i))) [
        | inr no_spawn ↦ rw no_spawn (refl, refl)
        | inl ok ↦ rw ok (
          (
            refl,
            record { job_id = j; run_id = i; names = (refl, refl); waited = waits; spawned = refl },
          ),
          refl,
        )
      ])
    ])
  ])
]

abbrev pub tail_of : List Entry → List Entry
tail_of [] = []
tail_of (x ∷ l) = l

-- One pop: its answer, the lists it leaves, and that it spawns nothing and touches no record.
record Popped (w : World) (g : String) : Type 0 where
  answer : (pop_mutex_entry w g).0 ≡ head_of (entries_of g w.queue)
  left :
      (k : String)
      → entries_of k (pop_mutex_entry w g).1.queue
        ≡ (if g == k then tail_of (entries_of g w.queue) else entries_of k w.queue)
  runs : (pop_mutex_entry w g).1.runs ≡ w.runs
  spawned : (pop_mutex_entry w g).1.spawned ≡ w.spawned

idle :
    (w : World) (g k : String)
    → entries_of g w.queue ≡ []
    → entries_of k w.queue
      ≡ (if g == k then tail_of (entries_of g w.queue) else entries_of k w.queue)
idle w g k e = elim (Bool-cases (g == k)) [
  | inr ne ↦ rw ne refl
  | inl same ↦
      ap (λ (x : String). entries_of x w.queue) (sym ((eq_iff g k).0 same))
      ∙ e
      ∙ sym (
          ap (λ (b : Bool). if b then tail_of (entries_of g w.queue) else entries_of k w.queue) same
          ∙ ap tail_of e)
]

group-Popped :
    (w : World) (g : String) (l : List Entry)
    → NodupKeys w.queue
    → entries_of g w.queue ≡ l
    → Popped w g
unfolding write_queue
group-Popped w g [] nd e = record {
  answer = rw (pop_mutex_entry_lem w g [] e, e) refl;
  left = λ k. rw (pop_mutex_entry_lem w g [] e) (idle w g k e);
  runs = rw (pop_mutex_entry_lem w g [] e) refl;
  spawned = rw (pop_mutex_entry_lem w g [] e) refl;
}
group-Popped w g (x ∷ l) nd e = record {
  answer = rw (pop_mutex_entry_lem w g (x ∷ l) e, e) refl;
  left = λ k. rw (pop_mutex_entry_lem w g (x ∷ l) e, e) (entries_of-write_queue w g k l nd).0;
  runs = rw (pop_mutex_entry_lem w g (x ∷ l) e) refl;
  spawned = rw (pop_mutex_entry_lem w g (x ∷ l) e) refl;
}

read_run-runs : (u w : World) (j i : String) → u.runs ≡ w.runs → read_run u j i ≡ read_run w j i
unfolding read_run runs_of
read_run-runs u w j i e = rw e refl

moved :
    (w u : World) (entry first : Option Entry)
    → u.runs ≡ w.runs
    → u.spawned ≡ w.spawned
    → entry ≡ first
    → (o : Option Entry) (w' : World) → Release u entry o w'
    → Release w first o w'
unfolding Release
moved w u entry first runs spawned same none w' r = r ∙ spawned
moved w u entry first runs spawned same (some e) w' (at, r) = (
  sym same ∙ at,
  record {
    job_id = r.job_id;
    run_id = r.run_id;
    names = r.names;
    waited =
        ap (λ (x : Run). is_queued x.status) (sym (read_run-runs u w r.job_id r.run_id runs))
        ∙ r.waited;
    spawned = r.spawned ∙ ap (λ l. l ++ spawn_for e r.job_id r.run_id ∷ []) spawned;
  },
)

-- With distinct groups in the queue file, a release takes exactly the first entry of its group and
-- no entry of another; it spawns nothing, or the run of that entry, whose record still says
-- queued, with the entry's trigger and parameters.
pub drain_mutex_queue_lem :
    (h : Host) (w : World) (g : String)
    → NodupKeys w.queue
    → let out = drain_mutex_queue h w g in
      Release w (head_of (entries_of g w.queue)) out.0 out.1
      × ((k : String)
          → entries_of k out.1.queue
            ≡ (if g == k then tail_of (entries_of g w.queue) else entries_of k w.queue))
unfolding drain_mutex_queue
drain_mutex_queue_lem h w g nd =
    let p = group-Popped w g (entries_of g w.queue) nd refl in
    let w' = (pop_mutex_entry w g).1 in
    let (release, queue) = released h w' (pop_mutex_entry w g).0 in
    (
      moved w w' (pop_mutex_entry w g).0 (head_of (entries_of g w.queue)) p.runs p.spawned p.answer
          (release_entry h w' (pop_mutex_entry w g).0).0
          (release_entry h w' (pop_mutex_entry w g).0).1 release,
      λ k. ap (entries_of k) queue ∙ p.left k,
    )
