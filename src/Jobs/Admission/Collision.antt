-- ===== src/Jobs/Admission/Collision.antt =====
-- What `mutex_collision` of src/jobs/queue.py finds.
use mathlib.Core.List.{Memᴰ}
use mathlib.Core.Option.{some-injective}
use app_launcher_lite.Prelude.{
  eq_iff, String, ◌==◌, ◌≡◌, refl, ◌∙◌, ap, sym, subst, true, false, some, none, Option, List, [],
  ◌∷◌, map, arith, Bool-cases, inl, inr,
}
use app_launcher_lite.Prelude.Dict.{get}
use app_launcher_lite.Jobs.Record.{Run, is_live, no_fields, truthy, failed}
use app_launcher_lite.Jobs.World.{World, Host, runs_of}
use app_launcher_lite.Jobs.Job.{Job}
use app_launcher_lite.Jobs.Registry.{UniqueIds}
use app_launcher_lite.Jobs.History.{decorate, sort_desc, list_runs, read_run}
use app_launcher_lite.Jobs.Reap.{group_of, dead_pid, run_id_of}
use app_launcher_lite.Jobs.Reap.Laws.{finalize_dead_runs_closes}
use app_launcher_lite.Jobs.Reap.Frames.{finalize_dead_runs-Framed}
use app_launcher_lite.Jobs.Admission.{collision_in, mutex_collision}
use app_launcher_lite.Jobs.Admission.Scan.{
  rival, live_latest, apart, reaped_by, collision_in-cons, scanned, collision_in-none,
  collision_in-some, mutex_collision-group,
}

-- The scan answers a holder right after it reaped the holder's records, which it found as they were.
record Reaped (h : Host) (w after : World) (o : Job) : Type 0 where
  before : World
  untouched : runs_of before o.id ≡ runs_of w o.id
  reaped : after ≡ reaped_by h before o

first-Reaped :
    (h : Host) (w : World) (x : Job) (jobs : List Job) (job : Job) (g : String) (o : Job)
    → (Memᴰ o jobs → (x.id == o.id) ≡ false)
    → ((u : World)
        → (collision_in h u jobs job g).0 ≡ some o
        → Reaped h u (collision_in h u jobs job g).1 o)
    → let out = scanned h w x jobs job g in out.0 ≡ some o → Reaped h w out.1 o
unfolding reaped_by
first-Reaped h w x jobs job g o apart rest = elim (Bool-cases (rival job g x)) [
  | inr off ↦ rw off (rest w)
  | inl on ↦ rw on (elim (Bool-cases (live_latest (reaped_by h w x) x.id)) [
    | inl live ↦ rw live (λ e. record {
      before = w;
      untouched = refl;
      reaped = ap (reaped_by h w) (some-injective x o e);
    })
    | inr over ↦ rw over (λ e.
        (let later = rest (reaped_by h w x) e in
          let there = (collision_in-some h (reaped_by h w x) jobs job g o e).0 in
          record {
            before = later.before;
            untouched =
                later.untouched ∙ (finalize_dead_runs-Framed h w x).others o.id (apart there);
            reaped = later.reaped;
          }))
  ])
]

collision_in-Reaped :
    (h : Host) (w : World) (jobs : List Job) (job : Job) (g : String) (o : Job)
    → UniqueIds jobs
    → (collision_in h w jobs job g).0 ≡ some o
    → Reaped h w (collision_in h w jobs job g).1 o
unfolding collision_in
collision_in-Reaped h w [] job g o u e = cc
collision_in-Reaped h w (x ∷ jobs) job g o u e =
    subst (λ (out : Option Job × World). out.0 ≡ some o → Reaped h w out.1 o)
      (sym (collision_in-cons h w x jobs job g))
      (first-Reaped h w x jobs job g o
        (λ m. ground (arith, apart x.id jobs u.0 o m, eq_iff x.id o.id, eq_iff o.id x.id))
        (λ v. collision_in-Reaped h v jobs job g o u.1))
      e

-- No run of the job that was live with a dead process is live any more.
abbrev pub NoneStranded : Host → World → World → Job → Type 0
NoneStranded h w after o =
    (i : String) (r : Run)
    → Memᴰ r (list_runs w o.id)
    → is_live r.status ≡ true
    → dead_pid h r ≡ true
    → run_id_of r ≡ some i
    → truthy (read_run w o.id i).killed ≡ false
    → (read_run after o.id i).status ≡ some failed

Reaped-NoneStranded :
    (h : Host) (w after : World) (o : Job) → Reaped h w after o → NoneStranded h w after o
unfolding list_runs read_run reaped_by
Reaped-NoneStranded h w after o p i r m live dead name unkilled =
    let there = subst (λ d. Memᴰ r (map decorate (sort_desc d))) (sym p.untouched) m in
    let free =
      subst
        (λ d.
          truthy (elim (get {V = Run} i d) as (λ _. Run) [ none ↦ no_fields | some q ↦ q ]).killed
          ≡ false)
        (sym p.untouched) unkilled in
    ap (λ u. (read_run u o.id i).status) p.reaped
    ∙ (finalize_dead_runs_closes h p.before o i r there live dead name free).0

-- For a grouped job and a registry with unique ids, the collision check answers a registered job
-- of the same group, other than the fired one, whose newest record says running or pending in the
-- state that the check leaves; and in that state each run of the answered job that was listed as
-- running or pending with its process gone, and that no one killed, is closed as failed. When the
-- check answers none, no registered job of the group other than the fired one has such a newest
-- record left.
pub mutex_collision_lem :
    (h : Host) (w : World) (jobs : List Job) (job : Job) (g : String)
    → UniqueIds jobs
    → group_of job ≡ some g
    → let out = mutex_collision h w jobs job in
      ((o : Job)
        → out.0 ≡ some o
        → Memᴰ o jobs
          × (rival job g o ≡ true)
          × (live_latest out.1 o.id ≡ true)
          × NoneStranded h w out.1 o)
      × (out.0 ≡ none
          → (o : Job) → Memᴰ o jobs
          → rival job g o ≡ true
          → live_latest out.1 o.id ≡ false)
mutex_collision_lem h w jobs job g u e = rw (mutex_collision-group h w jobs job g e) (
  λ o found.
      (let (there, same, live) = collision_in-some h w jobs job g o found in
        (
          there,
          same,
          live,
          Reaped-NoneStranded h w _ o (collision_in-Reaped h w jobs job g o u found),
        )),
  λ n o m r. collision_in-none h w jobs job g o u m r n,
)
