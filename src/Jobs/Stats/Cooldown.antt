-- ===== src/Jobs/Stats/Cooldown.antt =====
-- `cooldown_check` of src/jobs/stats.py.
use Prim.Native.Nat.{◌*◌, ◌-◌, ◌/◌}
use mathlib.Core.List.{Memᴰ}
use app_launcher_lite.Prelude.{
  ℕ, zero, suc, ◌+◌, ◌≤◌, ◌<◌, String, ◌≡◌, refl, ◌∙◌, ap, some, none, Option, arith, eqb, true,
  false, ◌⊎◌, inl, inr, List, [], ◌∷◌, ◌++◌, if◌then◌else◌,
}
use app_launcher_lite.Jobs.Record.{
  Run, Status, skipped, dry_run_success, dry_run_failed, success, queued, pending, running, failed,
}
use app_launcher_lite.Jobs.World.{World}
use app_launcher_lite.Jobs.Job.{Job}
use app_launcher_lite.Jobs.History.{second, list_runs}
use app_launcher_lite.Jobs.Stats.{
  cooldown_check, anchor_of, is_no_fire, cooling_from, cooling_since, parse_iso, text_or_empty,
}

ceiling : ℕ → ℕ
ceiling remaining = (remaining + (second - 1)) / second

ceiling_bounds :
    (r : ℕ) → 0 < r → (r ≤ ceiling r * second) × (ceiling r * second < r + second) × (0 < ceiling r)
unfolding ceiling
ceiling_bounds r h = (omega arith, omega arith, omega arith)

answer : ℕ → ℕ → String → Option (ℕ × ℕ × String)
answer r c i = if eqb r 0 then none else some (ceiling r, c, i)

early : (r c : ℕ) (i : String) → r ≡ 0 → answer r c i ≡ none
unfolding answer
early r c i h = ground arith

late : (r c : ℕ) (i : String) → 0 < r → answer r c i ≡ some (ceiling r, c, i)
unfolding answer
late r c i h = ground arith

set_cooldown :
    (o : Option ℕ) (c : ℕ) (answer_for : ℕ → Option (ℕ × ℕ × String))
    → o ≡ some (suc c)
    → elim o as (λ _. Option (ℕ × ℕ × String)) [
      | none ↦ none
      | some zero ↦ none
      | some (suc k) ↦ answer_for (suc k)
    ]
      ≡ answer_for (suc c)
set_cooldown o c answer_for e = rw e refl

cooled :
    (w : World) (job : Job) (now c : ℕ) (anchor : Run) (started : ℕ)
    → job.cooldown_seconds ≡ some (suc c)
    → anchor_of (list_runs w job.id) ≡ some anchor
    → parse_iso anchor.started_at ≡ some started
    → cooldown_check w job now
      ≡ answer (started + suc c * second - now) (suc c) (text_or_empty anchor.run_id)
unfolding cooldown_check answer ceiling
cooled w job now c anchor started e1 e2 e3 =
    set_cooldown job.cooldown_seconds c (λ k. cooling_from (anchor_of (list_runs w job.id)) k now)
      e1
    ∙ ap (λ o. cooling_from o (suc c) now) e2
    ∙ ap (λ o. cooling_since o (suc c) anchor now) e3

-- The status says that the record is of no real fire.
abbrev pub NoFire : Run → Type 0
NoFire r =
    (r.status ≡ some skipped)
    ⊎ ((r.status ≡ some dry_run_success) ⊎ (r.status ≡ some dry_run_failed))

no_fire :
    (r : Run)
    → (NoFire r → is_no_fire r.status ≡ true) × ((NoFire r → ⊥) → is_no_fire r.status ≡ false)
no_fire r = (
  λ h. elim h [
    | inl e ↦ ap is_no_fire e
    | inr (inl e) ↦ ap is_no_fire e
    | inr (inr e) ↦ ap is_no_fire e
  ],
  λ h. differs r.status h,
)
  where
    differs :
        (o : Option Status)
        → ((o ≡ some skipped) ⊎ ((o ≡ some dry_run_success) ⊎ (o ≡ some dry_run_failed)) → ⊥)
        → is_no_fire o ≡ false
    differs (some skipped) h = absurd (h (inl refl))
    differs (some dry_run_success) h = absurd (h (inr (inl refl)))
    differs (some dry_run_failed) h = absurd (h (inr (inr refl)))
    differs none h = refl
    differs (some queued) h = refl
    differs (some pending) h = refl
    differs (some running) h = refl
    differs (some failed) h = refl
    differs (some (Status.other _)) h = refl
    differs (some success) h = refl

anchor_of-first :
    (before after : List Run) (anchor : Run)
    → ((r : Run) → Memᴰ r before → NoFire r)
    → (NoFire anchor → ⊥)
    → anchor_of (before ++ anchor ∷ after) ≡ some anchor
unfolding anchor_of
anchor_of-first [] after anchor passed real = rw ((no_fire anchor).1 real) refl
anchor_of-first (r ∷ before) after anchor passed real =
    rw ((no_fire r).0 (passed r (Memᴰ.head refl)))
      (anchor_of-first before after anchor (λ q m. passed q (Memᴰ.tail m)) real)

-- With a positive cooldown, and a run whose start can be read, whose status is none of skipped,
-- dry_run_success and dry_run_failed, and before which the list, newest first, has only runs of
-- these statuses: a check before the cooldown is over answers the seconds left, rounded up, with
-- that run; a later check answers nothing; from the run's start on the answer never exceeds the
-- cooldown.
pub cooldown_check_lem :
    (w : World) (job : Job) (now c : ℕ) (before after : List Run) (anchor : Run) (started : ℕ)
    → job.cooldown_seconds ≡ some (suc c)
    → list_runs w job.id ≡ before ++ anchor ∷ after
    → ((r : Run) → Memᴰ r before → NoFire r)
    → (NoFire anchor → ⊥)
    → parse_iso anchor.started_at ≡ some started
    → let over = started + suc c * second in
      (over ≤ now → cooldown_check w job now ≡ none)
      × (now < over
          → (n : ℕ) × (cooldown_check w job now ≡ some (n, suc c, text_or_empty anchor.run_id))
            × (over ≤ now + n * second)
            × (now + n * second < over + second)
            × (started ≤ now → n ≤ suc c))
cooldown_check_lem w job now c before after anchor started e1 listed passed real e3 =
    let over = started + suc c * second in
    let found = ap anchor_of listed ∙ anchor_of-first before after anchor passed real in
    let eq = cooled w job now c anchor started e1 found e3 in
    let b = ceiling_bounds (over - now) in
    (
      λ h. eq ∙ early (over - now) (suc c) (text_or_empty anchor.run_id) (omega arith),
      λ h. (
        ceiling (over - now),
        eq ∙ late (over - now) (suc c) (text_or_empty anchor.run_id) (omega arith),
        omega (arith, b (omega arith)),
        omega (arith, b (omega arith)),
        λ k. omega (arith, b (omega arith)),
      ),
    )
