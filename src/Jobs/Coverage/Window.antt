-- ===== src/Jobs/Coverage/Window.antt =====
-- What `missed_fires` of src/jobs/coverage.py reports, and the window that it looks at.
use app_launcher_lite.Prelude.{
  ℕ, ◌+◌, ◌-◌, ◌≤◌, ◌<◌, ltb, leb, length, ◌≡◌, refl, sym, ◌∙◌, ap, ◌⊎◌, inl, inr, Bool, true,
  false, not, ◌&&◌, Bool-cases, Option, none, some, List, [], if◌then◌else◌, arith,
}
use app_launcher_lite.Jobs.Record.{Run}
use app_launcher_lite.Jobs.Job.{Job}
use app_launcher_lite.Jobs.History.{max_runs_per_job}
use app_launcher_lite.Jobs.Schtasks.Fires.{Readers, is_frequent, upcoming_fires}
use app_launcher_lite.Jobs.Schtasks.Fires.Named.{fires}
use app_launcher_lite.Jobs.Schtasks.Fires.Window.{has, upcoming_fires_lem}
use app_launcher_lite.Jobs.Coverage.{
  window, grace, fires_cap, stamp_of, clamp, starts_of, oldest_of, window_start, has_run, uncovered,
  missed_fires,
}
use app_launcher_lite.Jobs.Coverage.Missed.{has-uncovered}

-- The start of the window is not before the instant, if there is one.
abbrev pub NotBefore : Option ℕ → ℕ → Type 0
NotBefore none start = Unit {0}
NotBefore (some began) start = began ≤ start

-- What the start of the window is one of: three days ago, a stamp of the job, or, when the history
-- is full, its oldest run.
abbrev pub IsBound : Readers → Job → ℕ → List Run → ℕ → Type 0
IsBound r job now runs start =
    (start ≡ now - window)
    ⊎ ((stamp_of r job.added_at ≡ some start)
        ⊎ ((stamp_of r job.schedule_changed_at ≡ some start)
            ⊎ ((max_runs_per_job ≤ length runs) × (oldest_of (starts_of runs) ≡ some start))))

clamp_is : (start : ℕ) (o : Option ℕ) → (clamp start o ≡ start) ⊎ (o ≡ some (clamp start o))
unfolding clamp
clamp_is start none = inl refl
clamp_is start (some began) = elim (Bool-cases (ltb start began)) [
  | inl later ↦ rw later (inr refl)
  | inr sooner ↦ rw sooner (inl refl)
]

clamp_bounds : (start : ℕ) (o : Option ℕ) → (start ≤ clamp start o) × NotBefore o (clamp start o)
unfolding clamp
clamp_bounds start none = (omega arith, tt)
clamp_bounds start (some began) = (ground arith, ground arith)

leb→le : (a b : ℕ) → leb a b ≡ true → a ≤ b
leb→le a b h = ground arith

not_before : (o : Option ℕ) (a b : ℕ) → NotBefore o a → a ≤ b → NotBefore o b
not_before none a b h l = tt
not_before (some began) a b h l = omega (arith, h, l)

not_dense :
    (t : ℕ) (dense b : Bool) (l : List ℕ)
    → dense ≡ false
    → has t l ≡ b
    → has t (if dense then [] else l) ≡ b
not_dense t true b l e h = cc
not_dense t false b l e h = h

module _ (r : Readers) (job : Job) (now : ℕ) (runs : List Run) where
  abbrev since_added : ℕ
  since_added = clamp (now - window) (stamp_of r job.added_at)

  abbrev since_changed : ℕ
  since_changed = clamp since_added (stamp_of r job.schedule_changed_at)

  since_changed-IsBound : IsBound r job now runs since_changed
  since_changed-IsBound = elim (clamp_is since_added (stamp_of r job.schedule_changed_at)) [
    | inr changed ↦ inr (inr (inl changed))
    | inl kept ↦ elim (clamp_is (now - window) (stamp_of r job.added_at)) [
      | inr added ↦ inr (inl (added ∙ ap some (sym kept)))
      | inl far ↦ inl (kept ∙ far)
    ]
  ]

  window_start-IsBound : IsBound r job now runs (window_start r job now runs)
  unfolding window_start
  window_start-IsBound = elim (Bool-cases (leb max_runs_per_job (length runs))) [
    | inr short ↦ rw short since_changed-IsBound
    | inl full ↦ rw full (elim (clamp_is since_changed (oldest_of (starts_of runs))) [
      | inr oldest ↦ inr (inr (inr (leb→le max_runs_per_job (length runs) full, oldest)))
      | inl kept ↦ rw kept since_changed-IsBound
    ])
  ]

  since_changed-le : since_changed ≤ window_start r job now runs
  unfolding window_start
  since_changed-le = ground (arith, (clamp_bounds since_changed (oldest_of (starts_of runs))).0)

  listed_or_short :
      (t start deadline : ℕ) (l : List ℕ)
      → (has t l ≡ (fires r job.schedule t && ltb start t && ltb t deadline))
      → has t (if leb deadline start then [] else uncovered (starts_of runs) l) ≡ (
          fires r job.schedule t
          && ltb start t
          && ltb t deadline
          && not (has_run t (starts_of runs)))
  unfolding has
  listed_or_short t start deadline l e = elim (Bool-cases (leb deadline start)) [
    | inl short ↦ rw short (ground arith)
    | inr long ↦ rw long (ground (arith, has-uncovered t (starts_of runs) l))
  ]

  -- For a schedule that is neither of minutes nor hourly, with fewer expected fires than the cap:
  -- the missed fires are exactly the instants that the schedule names after the start of the
  -- window and more than the grace of 15 minutes ago, for which no listed run began from 90
  -- seconds before to the end of the grace. The window starts at most three days ago, and not
  -- before the job was added or its schedule last changed, where these stamps can be read; its
  -- start is one of these three or, when the history is full, that of the oldest run.
  pub missed_fires_lem :
      (t : ℕ)
      → is_frequent job.schedule ≡ false
      → length (upcoming_fires r job.schedule (window_start r job now runs) (now - grace) fires_cap)
        < fires_cap
      → let start = window_start r job now runs in
        (has t (missed_fires r job now runs) ≡ (
          fires r job.schedule t
          && ltb start t
          && ltb t (now - grace)
          && not (has_run t (starts_of runs))))
        × (now ≤ start + window)
        × NotBefore (stamp_of r job.added_at) start
        × NotBefore (stamp_of r job.schedule_changed_at) start
        × IsBound r job now runs start
  unfolding missed_fires
  missed_fires_lem t sparse short =
      let start = window_start r job now runs in
      let l = upcoming_fires r job.schedule start (now - grace) fires_cap in
      let added = clamp_bounds (now - window) (stamp_of r job.added_at) in
      let changed = clamp_bounds since_added (stamp_of r job.schedule_changed_at) in
      (
        not_dense t (is_frequent job.schedule) _ _ sparse (
            listed_or_short t start (now - grace) l
              (upcoming_fires_lem r job.schedule start (now - grace) fires_cap t sparse short).0),
        omega (arith, since_changed-le, added.0, changed.0),
        not_before (stamp_of r job.added_at) since_added start added.1
            (omega (arith, since_changed-le, changed.0)),
        not_before (stamp_of r job.schedule_changed_at) since_changed start changed.1
            since_changed-le,
        window_start-IsBound,
      )
