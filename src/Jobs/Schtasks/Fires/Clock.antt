-- ===== src/Jobs/Schtasks/Fires/Clock.antt =====
-- The calendar arithmetic of the computed fires: the first instant after another with a given time
-- of day, or with a given weekday and time of day.
use app_launcher_lite.Prelude.{ℕ, ◌+◌, ◌-◌, ◌*◌, ◌/◌, ◌%◌, ◌≤◌, ◌<◌, ◌≡◌, arith}
use app_launcher_lite.Jobs.Schtasks.Fires.{day, roll}

module _ (now k : ℕ) (small : k < day) where
  pub daily-later : now < roll day now (now / day * day + k)
  unfolding roll
  daily-later = ground arith

  pub daily-on : roll day now (now / day * day + k) % day ≡ k
  unfolding roll
  daily-on = ground arith

  pub daily-first : (t : ℕ) → now < t → t % day ≡ k → roll day now (now / day * day + k) ≤ t
  unfolding roll
  daily-first t h e = ground arith

module _ (now k index : ℕ) (small : k < day) (weekly : index < 7) where
  abbrev pub weekly_candidate : ℕ
  weekly_candidate = now / day * day + k + (index + 7 - now / day % 7) % 7 * day

  pub weekly-later : now < roll (7 * day) now weekly_candidate
  unfolding roll
  weekly-later = ground arith

  pub weekly-on :
      (roll (7 * day) now weekly_candidate % day ≡ k)
      × (roll (7 * day) now weekly_candidate / day % 7 ≡ index)
  unfolding roll
  weekly-on = ground arith

  pub weekly-first :
      (t : ℕ)
      → now < t
      → t % day ≡ k
      → t / day % 7 ≡ index
      → roll (7 * day) now weekly_candidate ≤ t
  unfolding roll
  weekly-first t h e w = ground arith
