-- ===== src/Jobs/Schtasks/Fires.antt =====
-- src/jobs/schtasks.py: the computed fires of a schedule, `next_fire` and `upcoming_fires`.
-- An instant is a naive local datetime, in microseconds from the first midnight of the calendar,
-- which begins a Monday; instants past the calendar's last year are not cut off.
pub mod Clock
pub mod Named
pub mod Least
pub mod Window
use app_launcher_lite.Prelude.{
  ℕ, zero, suc, ◌+◌, ◌-◌, ◌*◌, ◌/◌, ◌%◌, ltb, leb, String, ◌==◌, Bool, true, false, ◌&&◌, ◌||◌,
  Option, none, some, List, [], ◌∷◌, if◌then◌else◌,
}
use app_launcher_lite.Prelude.Int.{ℤ, pos, negsuc}
use app_launcher_lite.Prelude.Json.{Json, Items, nil, cons}
use app_launcher_lite.Prelude.Texts.{partition}
use app_launcher_lite.Jobs.Job.{Schedule}
use app_launcher_lite.Jobs.History.{second}
use app_launcher_lite.Jobs.Registry.Schedules.{is_positive}

-- Python's `int` of a text, and `datetime.fromisoformat` where it answers a naive instant.
pub record Readers : Type 0 where
  pub int_of : String → Option ℤ
  pub from_iso : String → Option ℕ

abbrev pub minute : ℕ
minute = 60 * second

abbrev pub hour : ℕ
hour = 60 * minute

abbrev pub day : ℕ
day = 24 * hour

-- 0 <= h <= 23 and 0 <= m <= 59
abbrev pub clock_time : Option ℤ → Option ℤ → Option (ℕ × ℕ)
clock_time (some (pos h)) (some (pos m)) = if leb h 23 && leb m 59 then some (h, m) else none
clock_time _ _ = none

-- `_hhmm`
abbrev pub read_parts : Readers → Option (String × String) → Option (ℕ × ℕ)
read_parts r none = none
read_parts r (some (hh, mm)) = clock_time (r.int_of hh) (r.int_of mm)

unfoldable pub hhmm : Readers → Json → Option (ℕ × ℕ)
unfolding partition
hhmm r (Json.str s) = read_parts r (partition ":" s)
hhmm r _ = none

-- The ticks from midnight to a time of day.
abbrev pub time_of_day : ℕ × ℕ → ℕ
time_of_day (h, m) = h * hour + m * minute

-- now.replace(hour=h, minute=m, second=0, microsecond=0)
abbrev pub replace_time : ℕ → ℕ × ℕ → ℕ
replace_time now hm = now / day * day + time_of_day hm

-- if candidate <= now: candidate += period
unfoldable pub roll : ℕ → ℕ → ℕ → ℕ
roll period now candidate = if leb candidate now then candidate + period else candidate

-- The value of a positive `every`.
unfoldable pub count_of : Json → ℕ
count_of (Json.int (pos n)) = n
count_of (Json.bool true) = 1
count_of _ = 0

unfoldable pub daily_fire : ℕ → Option (ℕ × ℕ) → Option ℕ
unfolding roll
daily_fire now none = none
daily_fire now (some hm) = some (roll day now (replace_time now hm))

-- if best is None or candidate < best
unfoldable pub earlier : Option ℕ → Option ℕ → Option ℕ
earlier best none = best
earlier none (some c) = some c
earlier (some b) (some c) = some (if ltb c b then c else b)

-- The loop over the times of `daily_times`.
unfoldable pub best_fire : Readers → ℕ → Option ℕ → Items → Option ℕ
unfolding hhmm daily_fire earlier
best_fire r now best nil = best
best_fire r now best (cons entry rest) =
    best_fire r now (earlier best (daily_fire now (hhmm r entry))) rest

unfoldable pub times_fire : Readers → ℕ → Json → Option ℕ
unfolding best_fire
times_fire r now (Json.array entries) = best_fire r now none entries
times_fire r now _ = none

-- `_WEEKDAY_INDEX`
unfoldable pub weekday_index : Option String → Option ℕ
weekday_index none = none
weekday_index (some d) =
    if d == "MON"
    then some 0
    else if d == "TUE"
    then some 1
    else if d == "WED"
    then some 2
    else if d == "THU"
    then some 3
    else if d == "FRI"
    then some 4
    else if d == "SAT"
    then some 5
    else if d == "SUN"
    then some 6
    else none

-- `now.weekday()`
abbrev pub weekday : ℕ → ℕ
weekday now = now / day % 7

unfoldable pub weekly_fire : ℕ → Option ℕ → Option (ℕ × ℕ) → Option ℕ
unfolding roll
weekly_fire now (some index) (some hm) =
    let days_ahead = (index + 7 - weekday now) % 7 in
    some (roll (7 * day) now (replace_time now hm + days_ahead * day))
weekly_fire now _ _ = none

-- fire if fire > now else None
unfoldable pub once_at : ℕ → Option ℕ → Option ℕ
once_at now none = none
once_at now (some fire) = if ltb now fire then some fire else none

unfoldable pub once_fire : Readers → ℕ → Json → Option ℕ
unfolding once_at
once_fire r now (Json.str s) = once_at now (r.from_iso s)
once_fire r now _ = none

-- `next_fire`
unfoldable pub next_fire : Readers → Schedule → ℕ → Option ℕ
unfolding is_positive count_of hhmm daily_fire times_fire weekday_index weekly_fire once_fire
next_fire r s now =
    if (s.type == "minutes") && is_positive s.every
    then some (now + count_of s.every * minute)
    else if (s.type == "hourly") && is_positive s.every
    then some (now + count_of s.every * hour)
    else if s.type == "daily"
    then daily_fire now (hhmm r s.at)
    else if s.type == "daily_times"
    then times_fire r now s.at
    else if s.type == "weekly"
    then weekly_fire now (weekday_index s.day) (hhmm r s.at)
    else if s.type == "once"
    then once_fire r now s.at
    else none

-- `FREQUENT_SCHEDULE_TYPES`
unfoldable pub is_frequent : Schedule → Bool
is_frequent s = (s.type == "minutes") || (s.type == "hourly")

-- The loop of `upcoming_fires`, for as many fires as the cap leaves.
unfoldable pub walk_fires : Readers → Schedule → ℕ → ℕ → ℕ → List ℕ
walk_fires r s end zero cursor = []
walk_fires r s end (suc room) cursor = elim (next_fire r s cursor) [
  | none ↦ []
  | some fire ↦ if leb end fire then [] else fire ∷ walk_fires r s end room fire
]

-- `upcoming_fires`
unfoldable pub upcoming_fires : Readers → Schedule → ℕ → ℕ → ℕ → List ℕ
unfolding is_frequent walk_fires
upcoming_fires r s start end cap = if is_frequent s then [] else walk_fires r s end cap start
