-- ===== src/Jobs/Admission/Scan.antt =====
-- The scan of the registry in `mutex_collision` of src/jobs/queue.py.
use mathlib.Core.List.{Memᴰ}
use mathlib.Core.Option.{some-injective}
use app_launcher_lite.Prelude.{
  String, ◌==◌, ◌≡◌, refl, ◌∙◌, ap, sym, subst, Bool, true, false, not, ◌&&◌, some, none, Option,
  List, [], ◌∷◌, map, arith, Bool-cases, inl, inr, if◌then◌else◌,
}
use app_launcher_lite.Prelude.Dict.{Dict}
use app_launcher_lite.Jobs.Record.{Run, is_live}
use app_launcher_lite.Jobs.World.{World, Host}
use app_launcher_lite.Jobs.Job.{Job}
use app_launcher_lite.Jobs.Registry.{ids, UniqueIds}
use app_launcher_lite.Prelude.Member.{member}
use app_launcher_lite.Jobs.History.{head_of, decorate, sort_desc, latest_run, list_runs}
use app_launcher_lite.Jobs.Reap.{finalize_dead_runs, group_of}
use app_launcher_lite.Jobs.Reap.Frames.{Framed, finalize_dead_runs-Framed}
use app_launcher_lite.Jobs.Admission.{same_group, collision_in, mutex_collision}

-- The newest record of the job says running or pending.
pub live_latest : World → String → Bool
live_latest w j = elim (latest_run w j) [ none ↦ false | some r ↦ is_live r.status ]

-- Another job, of the group.
pub rival : Job → String → Job → Bool
rival job g other = not (other.id == job.id) && same_group other.mutex_group g

-- With unique ids, no later job has the id of the first.
pub apart :
    (id : String) (jobs : List Job)
    → member id (ids jobs) ≡ false
    → (y : Job) → Memᴰ y jobs
    → (y.id == id) ≡ false
unfolding member ids
apart id [] new y m = elim m [ ]
apart id (x ∷ jobs) new y m = elim m [
  | Memᴰ.head e ↦ ap (λ (z : Job). z.id == id) e ∙ ground arith
  | Memᴰ.tail later ↦ apart id jobs (ground arith) y later
]

unfoldable pub reaped_by : Host → World → Job → World
reaped_by h w other = (finalize_dead_runs h w other).1

branches :
    {A : Type 0} (own same : Bool) (latest : Option Run) (found later after : A)
    → (if own
        then later
        else if not same
        then later
        else elim latest [ none ↦ after | some r ↦ if is_live r.status then found else after ])
      ≡ (if not own && same
          then (if (elim latest [ none ↦ false | some r ↦ is_live r.status ]) then found else after)
          else later)
branches true same latest found later after = refl
branches false false latest found later after = refl
branches false true none found later after = refl
branches false true (some r) found later after = refl

pub collision_in-cons :
    (h : Host) (w : World) (other : Job) (jobs : List Job) (job : Job) (g : String)
    → collision_in h w (other ∷ jobs) job g ≡ (
        if rival job g other
        then (if live_latest (reaped_by h w other) other.id
            then (some other, reaped_by h w other)
            else collision_in h (reaped_by h w other) jobs job g)
        else collision_in h w jobs job g)
unfolding collision_in rival live_latest reaped_by
collision_in-cons h w other jobs job g =
    branches (other.id == job.id) (same_group other.mutex_group g)
      (latest_run (finalize_dead_runs h w other).1 other.id)
      (some other, (finalize_dead_runs h w other).1) (collision_in h w jobs job g)
      (collision_in h (finalize_dead_runs h w other).1 jobs job g)

latest_live_in : Dict Run → Bool
latest_live_in d = elim (head_of (map decorate (sort_desc d))) [
  | none ↦ false
  | some r ↦ is_live r.status
]

live_latest-Framed :
    (u v : World) (j k : String)
    → Framed j u v
    → (j == k) ≡ false
    → live_latest v k ≡ live_latest u k
unfolding live_latest latest_run list_runs latest_live_in
live_latest-Framed u v j k f e = ap latest_live_in (f.others k e)

-- What every reaping of a job of the registry keeps, the scan keeps.
pub after_collision_in :
    (P : World → Type 0) (h : Host) (w : World) (jobs : List Job) (job : Job) (g : String)
    → ((u : World) (other : Job) → Memᴰ other jobs → P u → P (reaped_by h u other))
    → P w
    → P (collision_in h w jobs job g).1
unfolding collision_in
after_collision_in P h w [] job g step p = p
after_collision_in P h w (other ∷ jobs) job g step p =
    let rest : (u : World) → P u → P (collision_in h u jobs job g).1 =
      λ u. after_collision_in P h u jobs job g (λ v o m. step v o (Memᴰ.tail m)) in
    let reaped = step w other (Memᴰ.head refl) p in
    rw (collision_in-cons h w other jobs job g) (elim (Bool-cases (rival job g other)) [
      | inr off ↦ rw off (rest w p)
      | inl on ↦ rw on (elim (Bool-cases (live_latest (reaped_by h w other) other.id)) [
        | inl live ↦ rw live reaped
        | inr over ↦ rw over (rest (reaped_by h w other) reaped)
      ])
    ])

-- The jobs of the group that the scan passed over.
settled :
    (h : Host) (w : World) (jobs : List Job) (job : Job) (g : String) (o : Job)
    → ((y : Job) → Memᴰ y jobs → (y.id == o.id) ≡ false)
    → live_latest w o.id ≡ false
    → live_latest (collision_in h w jobs job g).1 o.id ≡ false
unfolding reaped_by
settled h w jobs job g o apart over =
    after_collision_in (λ u. live_latest u o.id ≡ false) h w jobs job g
      (λ u y m e.
        live_latest-Framed u _ y.id o.id (finalize_dead_runs-Framed h u y) (apart y m) ∙ e)
      over

-- The scan of a registry from its first job on, the branches written out.
abbrev pub scanned : Host → World → Job → List Job → Job → String → Option Job × World
scanned h w x jobs job g =
    if rival job g x
    then (if live_latest (reaped_by h w x) x.id
        then (some x, reaped_by h w x)
        else collision_in h (reaped_by h w x) jobs job g)
    else collision_in h w jobs job g

passed_over :
    (h : Host) (w : World) (x : Job) (jobs : List Job) (job : Job) (g : String)
    → ((y : Job) → Memᴰ y jobs → (y.id == x.id) ≡ false)
    → rival job g x ≡ true
    → (scanned h w x jobs job g).0 ≡ none
    → live_latest (scanned h w x jobs job g).1 x.id ≡ false
passed_over h w x jobs job g apart on =
    rw on (elim (Bool-cases (live_latest (reaped_by h w x) x.id)) [
      | inl live ↦ rw live (λ e. cc)
      | inr over ↦ rw over (λ e. settled h (reaped_by h w x) jobs job g x apart over)
    ])

further :
    (h : Host) (w : World) (x : Job) (jobs : List Job) (job : Job) (g : String) (o : Job)
    → ((u : World)
        → (collision_in h u jobs job g).0 ≡ none
        → live_latest (collision_in h u jobs job g).1 o.id ≡ false)
    → (scanned h w x jobs job g).0 ≡ none
    → live_latest (scanned h w x jobs job g).1 o.id ≡ false
further h w x jobs job g o rest = elim (Bool-cases (rival job g x)) [
  | inr off ↦ rw off (rest w)
  | inl on ↦ rw on (elim (Bool-cases (live_latest (reaped_by h w x) x.id)) [
    | inl live ↦ rw live (λ e. cc)
    | inr over ↦ rw over (rest (reaped_by h w x))
  ])
]

pub collision_in-none :
    (h : Host) (w : World) (jobs : List Job) (job : Job) (g : String) (o : Job)
    → UniqueIds jobs
    → Memᴰ o jobs
    → rival job g o ≡ true
    → (collision_in h w jobs job g).0 ≡ none
    → live_latest (collision_in h w jobs job g).1 o.id ≡ false
collision_in-none h w [] job g o u m r = elim m [ ]
collision_in-none h w (x ∷ jobs) job g o u m r =
    subst (λ (out : Option Job × World). out.0 ≡ none → live_latest out.1 o.id ≡ false)
      (sym (collision_in-cons h w x jobs job g))
      (elim m [
        | Memᴰ.tail later ↦
            further h w x jobs job g o (λ v. collision_in-none h v jobs job g o u.1 later r)
        | Memᴰ.head e ↦
            subst
              (λ (y : Job).
                (scanned h w x jobs job g).0 ≡ none
                → live_latest (scanned h w x jobs job g).1 y.id ≡ false)
              (sym e)
              (passed_over h w x jobs job g (apart x.id jobs u.0)
                (subst (λ (y : Job). rival job g y ≡ true) e r))
      ])

-- The holder that the scan answers, in the state that it leaves.
abbrev pub Found : World → List Job → Job → String → Job → Type 0
Found w jobs job g o = Memᴰ o jobs × (rival job g o ≡ true) × (live_latest w o.id ≡ true)

first :
    (h : Host) (w : World) (x : Job) (jobs : List Job) (job : Job) (g : String) (o : Job)
    → ((u : World)
        → (collision_in h u jobs job g).0 ≡ some o
        → Found (collision_in h u jobs job g).1 (x ∷ jobs) job g o)
    → let out = scanned h w x jobs job g in out.0 ≡ some o → Found out.1 (x ∷ jobs) job g o
first h w x jobs job g o rest = elim (Bool-cases (rival job g x)) [
  | inr off ↦ rw off (rest w)
  | inl on ↦ rw on (elim (Bool-cases (live_latest (reaped_by h w x) x.id)) [
    | inr over ↦ rw over (rest (reaped_by h w x))
    | inl live ↦ rw live (λ e.
        (let same : x ≡ o = some-injective x o e in
          (
            Memᴰ.head (sym same),
            subst (λ (y : Job). rival job g y ≡ true) same on,
            subst (λ (y : Job). live_latest (reaped_by h w x) y.id ≡ true) same live,
          )))
  ])
]

pub collision_in-some :
    (h : Host) (w : World) (jobs : List Job) (job : Job) (g : String) (o : Job)
    → (collision_in h w jobs job g).0 ≡ some o
    → Memᴰ o jobs
      × (rival job g o ≡ true)
      × (live_latest (collision_in h w jobs job g).1 o.id ≡ true)
unfolding collision_in
collision_in-some h w [] job g o n = cc
collision_in-some h w (x ∷ jobs) job g o n =
    let rest : (u : World)
        → (collision_in h u jobs job g).0 ≡ some o
        → Found (collision_in h u jobs job g).1 (x ∷ jobs) job g o =
      λ u e.
        (let found = collision_in-some h u jobs job g o e in
          (Memᴰ.tail found.0, found.1, found.2)) in
    subst (λ (out : Option Job × World). out.0 ≡ some o → Found out.1 (x ∷ jobs) job g o)
      (sym (collision_in-cons h w x jobs job g)) (first h w x jobs job g o rest) n

pub mutex_collision-group :
    (h : Host) (w : World) (jobs : List Job) (job : Job) (g : String)
    → group_of job ≡ some g
    → mutex_collision h w jobs job ≡ collision_in h w jobs job g
unfolding mutex_collision
mutex_collision-group h w jobs job g e =
    ap
      (λ o. elim o as (λ _. Option Job × World) [
        | none ↦ (none, w)
        | some k ↦ collision_in h w jobs job k
      ])
      e
