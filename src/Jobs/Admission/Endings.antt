-- ===== src/Jobs/Admission/Endings.antt =====
-- How a fire ends, from the collision check on: the part that both admissions share.
use mathlib.Core.List.{Memᴰ}
use mathlib.Core.Option.{none-ne-some}
use app_launcher_lite.Prelude.{
  String, ◌≡◌, refl, ◌∙◌, ap, sym, subst, Bool, true, false, some, none, Option, List, [], ◌∷◌,
  ◌++◌, Option-cases, inl, inr, arith,
}
use app_launcher_lite.Prelude.Dict.{NodupKeys, Dict}
use app_launcher_lite.Jobs.Record.{Run}
use app_launcher_lite.Jobs.World.{World, Host, Entry, Spawn}
use app_launcher_lite.Jobs.Job.{Job}
use app_launcher_lite.Jobs.Naming.{new_run_dir}
use app_launcher_lite.Jobs.Reap.{group_of}
use app_launcher_lite.Jobs.Reap.Frames.{finalize_dead_runs-Framed}
use app_launcher_lite.Jobs.Queue.{entries_of}
use app_launcher_lite.Jobs.Admission.{entry_for, fire, collision_in, mutex_collision}
use app_launcher_lite.Jobs.Admission.Scan.{
  rival, reaped_by, after_collision_in, mutex_collision-group, collision_in-some,
}
use app_launcher_lite.Jobs.Admission.Fires.{
  Waits, Starts, Fails, fire-Waits, fire-Starts, read_run-new_run_dir, new_run_dir-Framed,
}

abbrev Still : World → World → Type 0
Still w w' = (w'.queue ≡ w.queue) × (w'.spawned ≡ w.spawned)

reaping-Still : (h : Host) (w u : World) (o : Job) → Still w u → Still w (reaped_by h u o)
unfolding reaped_by
reaping-Still h w u o s =
    let f = finalize_dead_runs-Framed h u o in (f.queue ∙ s.0, f.spawned ∙ s.1)

ungrouped :
    (h : Host) (w : World) (jobs : List Job) (job : Job)
    → group_of job ≡ none
    → mutex_collision h w jobs job ≡ (none, w)
unfolding mutex_collision
ungrouped h w jobs job e =
    ap
      (λ o. elim o as (λ _. Option Job × World) [
        | none ↦ (none, w)
        | some k ↦ collision_in h w jobs job k
      ])
      e

mutex_collision-Still :
    (h : Host) (w : World) (jobs : List Job) (job : Job) → Still w (mutex_collision h w jobs job).1
mutex_collision-Still h w jobs job = elim (Option-cases (group_of job)) [
  | inl e ↦ rw (ungrouped h w jobs job e) (refl, refl)
  | inr (g, e) ↦ rw (mutex_collision-group h w jobs job g e) (
      after_collision_in (Still w) h w jobs job g (λ u o m s. reaping-Still h w u o s) (refl, refl))
]

Waits-from :
    (w u w' : World) (job holder : Job) (g i : String) (e : Entry)
    → Still w u
    → Waits u w' job holder g i e
    → Waits w w' job holder g i e
Waits-from w u w' job holder g i e s p = record {
  status = p.status;
  behind = p.behind;
  last = p.last ∙ ap (λ q. entries_of g q ++ e ∷ []) s.0;
  others = λ k ne. p.others k ne ∙ ap (entries_of k) s.0;
  spawned = p.spawned ∙ s.1;
}

Starts-from :
    (w u w' : World) (job : Job) (p : Spawn) → Still w u → Starts u w' job p → Starts w w' job p
Starts-from w u w' job p s q = record {
  status = q.status;
  spawned = q.spawned ∙ ap (λ l. l ++ p ∷ []) s.1;
  queue = q.queue ∙ s.0;
}

Fails-from :
    (w u w' : World) (job : Job) (i : String) → Still w u → Fails u w' job i → Fails w w' job i
Fails-from w u w' job i s q = record {
  status = q.status;
  exit_code = q.exit_code;
  spawned = q.spawned ∙ s.1;
  queue = q.queue ∙ s.0;
}

abbrev spawn_of : Job → String → String → Option String → Spawn
spawn_of job i trigger params = record {
  job_id = job.id;
  run_id = i;
  trigger = trigger;
  params = params;
}

-- How a fire ends, by the holder of its group and by whether it was queued or spawned.
unfoldable pub Fired :
    World → List Job → Job → String → String → Option String → Option Job → Bool → World → Type 0
Fired w jobs job i trigger params (some holder) ok w' =
    (g : String) × (group_of job ≡ some g)
    × Memᴰ holder jobs
    × (rival job g holder ≡ true)
    × (ok ≡ true)
    × Waits w w' job holder g i (entry_for job i trigger params)
Fired w jobs job i trigger params none true w' = Starts w w' job (spawn_of job i trigger params)
Fired w jobs job i trigger params none false w' = Fails w w' job i

named : (job : Job) (g : String) → group_of job ≡ some g → job.mutex_group ≡ some g
named job g e = ground arith

held :
    (h : Host) (w : World) (jobs : List Job) (job holder : Job)
    → (mutex_collision h w jobs job).0 ≡ some holder
    → (g : String) × (group_of job ≡ some g) × Memᴰ holder jobs × (rival job g holder ≡ true)
held h w jobs job holder e = elim (Option-cases (group_of job)) [
  | inl no_group ↦ absurd (
      none-ne-some holder
        (sym (ap (λ (out : Option Job × World). out.0) (ungrouped h w jobs job no_group)) ∙ e))
  | inr (g, at) ↦
      let found = collision_in-some h w jobs job g holder (
        ap (λ (out : Option Job × World). out.0) (sym (mutex_collision-group h w jobs job g at))
        ∙ e) in
      (g, at, found.0, found.1)
]

queued_ok :
    (h : Host) (w : World) (job holder : Job) (meta : Run) (i trigger : String)
    (params : Option String) (on_error : Run)
    → (fire h w job (some holder) meta i trigger params on_error).0 ≡ true
unfolding fire
queued_ok h w job holder meta i trigger params on_error = refl

-- The check and the new directory together spawn nothing and touch no queue.
through :
    (h : Host) (w : World) (jobs : List Job) (job : Job) (rid : String)
    → Still w (new_run_dir (mutex_collision h w jobs job).1 job.id rid).1
through h w jobs job rid =
    let s = mutex_collision-Still h w jobs job in
    let f = new_run_dir-Framed (mutex_collision h w jobs job).1 job.id rid in
    (f.queue ∙ s.0, f.spawned ∙ s.1)

by_answer :
    (w : World) (jobs : List Job) (job : Job) (i trigger : String) (params : Option String)
    (ok : Bool) (w' : World)
    → (ok ≡ true → Starts w w' job (spawn_of job i trigger params))
    → (ok ≡ false → Fails w w' job i)
    → Fired w jobs job i trigger params none ok w'
unfolding Fired
by_answer w jobs job i trigger params true w' on off = on refl
by_answer w jobs job i trigger params false w' on off = off refl

ends :
    (h : Host) (w : World) (jobs : List Job) (job : Job) (rid trigger : String)
    (params : Option String) (meta on_error : Run)
    → NodupKeys w.queue
    → meta.killed ≡ none
    → (holder : Option Job) → (mutex_collision h w jobs job).0 ≡ holder
    → let d = new_run_dir (mutex_collision h w jobs job).1 job.id rid in
      let out = fire h d.1 job holder meta d.0 trigger params on_error in
      Fired w jobs job d.0 trigger params holder out.0 out.1
unfolding Fired
ends h w jobs job rid trigger params meta on_error nd k (some holder) e =
    let c = mutex_collision h w jobs job in
    let d = new_run_dir c.1 job.id rid in
    let (g, at, member, rival_of) = held h w jobs job holder e in
    let (queue, spawned) = through h w jobs job rid in
    (
      g,
      at,
      member,
      rival_of,
      queued_ok h d.1 job holder meta d.0 trigger params on_error,
      Waits-from w d.1 _ job holder g d.0 (entry_for job d.0 trigger params) (queue, spawned)
          (fire-Waits h d.1 job holder meta g d.0 trigger params on_error
            (subst (λ (q : Dict (List Entry)). NodupKeys q) (sym queue) nd) (named job g at)
            (read_run-new_run_dir c.1 job.id rid)),
    )
ends h w jobs job rid trigger params meta on_error nd k none e =
    let c = mutex_collision h w jobs job in
    let d = new_run_dir c.1 job.id rid in
    let out = fire h d.1 job none meta d.0 trigger params on_error in
    let started =
      fire-Starts h d.1 job meta d.0 trigger params on_error (read_run-new_run_dir c.1 job.id rid)
        k in
    by_answer w jobs job d.0 trigger params out.0 out.1
      (λ ok.
        Starts-from w d.1 out.1 job (spawn_of job d.0 trigger params) (through h w jobs job rid)
          (started.0 ok))
      (λ failed. Fails-from w d.1 out.1 job d.0 (through h w jobs job rid) (started.1 failed))

-- The fire from the collision check on, as both admissions run it.
pub fired :
    (h : Host) (w : World) (jobs : List Job) (job : Job) (rid trigger : String)
    (params : Option String) (meta on_error : Run)
    → NodupKeys w.queue
    → meta.killed ≡ none
    → let c = mutex_collision h w jobs job in
      let d = new_run_dir c.1 job.id rid in
      let out = fire h d.1 job c.0 meta d.0 trigger params on_error in
      Fired w jobs job d.0 trigger params c.0 out.0 out.1
unfolding Fired
fired h w jobs job rid trigger params meta on_error nd k =
    let c = mutex_collision h w jobs job in
    ends h w jobs job rid trigger params meta on_error nd k c.0 refl
