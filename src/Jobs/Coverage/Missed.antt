-- ===== src/Jobs/Coverage/Missed.antt =====
-- What `missed_fires` of src/jobs/coverage.py reports.
use app_launcher_lite.Prelude.{
  ℕ, ◌+◌, ◌-◌, ◌≤◌, ◌<◌, ltb, leb, eqb, ◌≡◌, refl, sym, ◌∙◌, ap, Bool, true, false, not, ◌&&◌, inl,
  inr, Bool-cases, Option, none, some, List, [], ◌∷◌, if◌then◌else◌, arith,
}
use app_launcher_lite.Jobs.Record.{Run}
use app_launcher_lite.Jobs.Job.{Job}
use app_launcher_lite.Jobs.Schtasks.Fires.{Readers, is_frequent, upcoming_fires}
use app_launcher_lite.Jobs.Schtasks.Fires.Named.{fires}
use app_launcher_lite.Jobs.Schtasks.Fires.Window.{has, upcoming_fires-named}
use app_launcher_lite.Jobs.Coverage.{
  window, grace, early_tolerance, fires_cap, stamp_of, clamp, starts_of, oldest_of, window_start,
  has_run, uncovered, missed_fires,
}

pub has-uncovered :
    (t : ℕ) (starts fires : List ℕ)
    → has t (uncovered starts fires) ≡ (has t fires && not (has_run t starts))
unfolding has uncovered
has-uncovered t starts [] = refl
has-uncovered t starts (fire ∷ fires) = elim (Bool-cases (eqb fire t)) [
  | inl same ↦
      let e : fire ≡ t = ground arith in
      ground (arith, has-uncovered t starts fires, ap (λ k. has_run k starts) e)
  | inr differs ↦ ground (arith, has-uncovered t starts fires)
]

-- A run that starts from 90 seconds before a fire to the end of its grace covers it.
has_run_of_start :
    (t s : ℕ) (starts : List ℕ)
    → has s starts ≡ true
    → (leb t (s + early_tolerance) && leb s (t + grace)) ≡ true
    → has_run t starts ≡ true
unfolding has has_run
has_run_of_start t s [] h k = cc
has_run_of_start t s (u ∷ starts) h k = ground (arith, has_run_of_start t s starts)

clamp-le : (start : ℕ) (o : Option ℕ) → start ≤ clamp start o
unfolding clamp
clamp-le start none = omega arith
clamp-le start (some began) = ground arith

-- The instant comes after the stamp, if there is one.
abbrev pub AfterStamp : Option ℕ → ℕ → Type 0
AfterStamp none t = Unit {0}
AfterStamp (some began) t = began < t

after_clamp : (start : ℕ) (o : Option ℕ) (t : ℕ) → clamp start o < t → AfterStamp o t
unfolding clamp
after_clamp start none t h = tt
after_clamp start (some began) t h = ground arith

in_last :
    (t : ℕ) (dense short : Bool) (l : List ℕ)
    → has t (if dense then [] else if short then [] else l) ≡ true
    → (dense ≡ false) × (has t l ≡ true)
unfolding has
in_last t true short l h = cc
in_last t false true l h = cc
in_last t false false l h = (refl, h)

parts : (a b : Bool) → (a && not b) ≡ true → (a ≡ true) × (b ≡ false)
parts a b h = (ground arith, ground arith)

three : (a b c : Bool) → (a && b && c) ≡ true → (a ≡ true) × (b ≡ true) × (c ≡ true)
three a b c h = (ground arith, ground arith, ground arith)

ltb→lt : (a b : ℕ) → ltb a b ≡ true → a < b
ltb→lt a b h = ground arith

module _ (r : Readers) (job : Job) (now : ℕ) (runs : List Run) (t : ℕ) where
  abbrev clamped : ℕ
  clamped =
      clamp (clamp (now - window) (stamp_of r job.added_at)) (stamp_of r job.schedule_changed_at)

  clamped-le : clamped ≤ window_start r job now runs
  unfolding window_start
  clamped-le = ground (arith, clamp-le clamped (oldest_of (starts_of runs)))

  missed_in_window :
      has t (missed_fires r job now runs) ≡ true
      → (is_frequent job.schedule ≡ false)
        × (has t (
              uncovered (starts_of runs) (
                upcoming_fires r job.schedule
                  (window_start r job now runs)
                  (now - grace)
                  fires_cap))
            ≡ true)
  unfolding missed_fires
  missed_in_window h =
      in_last t (is_frequent job.schedule) (leb (now - grace) (window_start r job now runs)) _ h

  -- A fire that is reported as missed is an instant that the schedule names, in the last three
  -- days and more than the grace of 15 minutes ago, after the job was added and after its schedule
  -- last changed where these stamps can be read, and no listed run with a readable start began
  -- from 90 seconds before it to the end of its grace.
  pub missed_fires-real :
      (s : ℕ)
      → has t (missed_fires r job now runs) ≡ true
      → (fires r job.schedule t ≡ true)
        × (now < t + window)
        × (t + grace < now)
        × AfterStamp (stamp_of r job.added_at) t
        × AfterStamp (stamp_of r job.schedule_changed_at) t
        × ((has s (starts_of runs) && (leb t (s + early_tolerance) && leb s (t + grace))) ≡ false)
  missed_fires-real s h =
      let start = window_start r job now runs in
      let fires_in = upcoming_fires r job.schedule start (now - grace) fires_cap in
      let (sparse, listed) = missed_in_window h in
      let (expected, bare) =
        parts (has t fires_in) _ (sym (has-uncovered t (starts_of runs) fires_in) ∙ listed) in
      let (named, after, before) =
        three (fires r job.schedule t) _ _
          (upcoming_fires-named r job.schedule start (now - grace) fires_cap t sparse expected) in
      let late : clamped < t = omega (arith, clamped-le, ltb→lt start t after) in
      let later : clamp (now - window) (stamp_of r job.added_at) < t = omega (
        arith,
        late,
        clamp-le (clamp (now - window) (stamp_of r job.added_at))
            (stamp_of r job.schedule_changed_at),
      ) in
      (
        named,
        omega (arith, later, clamp-le (now - window) (stamp_of r job.added_at)),
        omega (arith, ltb→lt t (now - grace) before),
        after_clamp (now - window) (stamp_of r job.added_at) t later,
        after_clamp (clamp (now - window) (stamp_of r job.added_at))
            (stamp_of r job.schedule_changed_at) t late,
        ground (arith, has_run_of_start t s (starts_of runs), bare),
      )
