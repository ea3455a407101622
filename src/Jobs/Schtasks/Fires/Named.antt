-- ===== src/Jobs/Schtasks/Fires/Named.antt =====
-- The instants that a schedule names, and the first of them after a clock, apart from the code.
use app_launcher_lite.Prelude.{
  ℕ, ◌%◌, ◌≤◌, ◌<◌, eqb, ltb, ◌==◌, ◌≡◌, Bool, true, false, ◌&&◌, ◌||◌, Option, none, some,
  if◌then◌else◌,
}
use app_launcher_lite.Prelude.Json.{Json, Items, nil, cons}
use app_launcher_lite.Jobs.Job.{Schedule}
use app_launcher_lite.Jobs.Schtasks.Fires.{Readers, day, hhmm, time_of_day, weekday_index, weekday}

-- The instant `t` has the time of day.
abbrev pub at_time : Option (ℕ × ℕ) → ℕ → Bool
at_time none t = false
at_time (some hm) t = eqb (t % day) (time_of_day hm)

-- It has one of the times.
unfoldable pub at_some_time : Readers → Items → ℕ → Bool
at_some_time r nil t = false
at_some_time r (cons entry rest) t = at_time (hhmm r entry) t || at_some_time r rest t

abbrev pub at_one_of : Readers → Json → ℕ → Bool
at_one_of r (Json.array entries) t = at_some_time r entries t
at_one_of r _ t = false

abbrev pub on_weekday : Option ℕ → ℕ → Bool
on_weekday none t = false
on_weekday (some index) t = eqb (weekday t) index

abbrev pub equals : Option ℕ → ℕ → Bool
equals none t = false
equals (some fire) t = eqb fire t

abbrev pub at_moment : Readers → Json → ℕ → Bool
at_moment r (Json.str s) t = equals (r.from_iso s) t
at_moment r _ t = false

-- The instant is one that the schedule names, whatever the clock says; the dense schedules, which
-- count from the clock, name none.
unfoldable pub fires : Readers → Schedule → ℕ → Bool
fires r s t =
    if s.type == "daily"
    then at_time (hhmm r s.at) t
    else if s.type == "daily_times"
    then at_one_of r s.at t
    else if s.type == "weekly"
    then on_weekday (weekday_index s.day) t && at_time (hhmm r s.at) t
    else if s.type == "once"
    then at_moment r s.at t
    else false

-- `o` is the first instant after `now` at which `on` holds, and `none` if there is none.
abbrev pub IsFirst : (ℕ → Bool) → ℕ → Option ℕ → Type 0
IsFirst on now none = (t : ℕ) → now < t → on t ≡ false
IsFirst on now (some fire) =
    (now < fire) × (on fire ≡ true) × ((t : ℕ) → now < t → on t ≡ true → fire ≤ t)

-- Beside the instant `t`: `o` is an instant after `now` at which `on` holds, and `t` is none between;
-- or there is none, and `t` is none.
abbrev pub IsNext : (ℕ → Bool) → ℕ → ℕ → Option ℕ → Type 0
IsNext on now t none = (ltb now t && on t) ≡ false
IsNext on now t (some fire) =
    (now < fire) × (on fire ≡ true) × ((ltb now t && ltb t fire && on t) ≡ false)
