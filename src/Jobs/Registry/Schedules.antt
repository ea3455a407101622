-- ===== src/Jobs/Registry/Schedules.antt =====
-- src/jobs/config_models.py: `Schedule`, its checks, and its JSON form.
pub mod RoundTrip
use app_launcher_lite.Prelude.{
  ℕ, zero, suc, leb, String, ◌==◌, Bool, true, false, not, ◌&&◌, ◌||◌, Option, none, some, List, [],
  ◌∷◌, if◌then◌else◌,
}
use app_launcher_lite.Prelude.Int.{pos}
use app_launcher_lite.Prelude.Member.{member}
use app_launcher_lite.Prelude.Json.{Json, Items, Members, nil, cons, end, field, lookup, truth}
use app_launcher_lite.Jobs.Job.{Schedule, no_schedule}
use app_launcher_lite.Jobs.Registry.{malformed}
use app_launcher_lite.Jobs.Registry.Checked.{Checked, ok, err, ◌>>=◌, ◌>>◌, need}
use app_launcher_lite.Jobs.Registry.Python.{Python, str_of, is_hhmm, is_once_at}

-- `SCHEDULE_TYPES`
abbrev pub schedule_types : List String
schedule_types = "none" ∷ "minutes" ∷ "hourly" ∷ "daily" ∷ "daily_times" ∷ "weekly" ∷ "once" ∷ []

-- `WEEKLY_DAYS`
abbrev pub weekly_days : List String
weekly_days = "MON" ∷ "TUE" ∷ "WED" ∷ "THU" ∷ "FRI" ∷ "SAT" ∷ "SUN" ∷ []

-- `isinstance(every, int) and every > 0`; `True` is the integer 1.
unfoldable pub is_positive : Json → Bool
is_positive (Json.int (pos (suc n))) = true
is_positive (Json.bool b) = b
is_positive _ = false

-- `every > 23`
unfoldable pub above_day : Json → Bool
above_day (Json.int (pos n)) = not (leb n 23)
above_day _ = false

-- `isinstance(at, str) and _HHMM_RE.match(at)`
unfoldable pub is_time : Python → Json → Bool
unfolding is_hhmm
is_time py (Json.str s) = is_hhmm py s
is_time py _ = false

unfoldable pub all_times : Python → Items → Bool
unfolding is_time
all_times py nil = true
all_times py (cons t rest) = let later = all_times py rest in is_time py t && later

-- A list of times with at least one.
unfoldable pub is_times : Python → Json → Bool
unfolding all_times
is_times py (Json.array (cons t rest)) = all_times py (cons t rest)
is_times py _ = false

unfoldable pub is_moment : Python → Json → Bool
unfolding is_once_at
is_moment py (Json.str s) = is_once_at py s
is_moment py _ = false

unfoldable pub is_weekday : Option String → Bool
is_weekday none = false
is_weekday (some d) = member d weekly_days

-- `_validate_schedule`
unfoldable pub validate_schedule : Python → Schedule → Checked (Unit {0})
unfolding member is_positive above_day is_time is_times is_moment is_weekday
validate_schedule py s =
    if not (member s.type schedule_types)
    then err (malformed "unknown schedule type")
    else if s.type == "none"
    then ok tt
    else if (s.type == "minutes") || (s.type == "hourly")
    then (do
      need (is_positive s.every) "the schedule requires every > 0"
      need (not ((s.type == "hourly") && above_day s.every)) "hourly schedule every must be 1..23")
    else if s.type == "daily"
    then need (is_time py s.at) "daily schedule needs at=HH:MM"
    else if s.type == "daily_times"
    then need (is_times py s.at) "daily_times schedule needs a list of HH:MM"
    else if s.type == "weekly"
    then (do
      need (is_weekday s.day) "weekly schedule day must be one of the days"
      need (is_time py s.at) "weekly schedule needs at=HH:MM")
    else need (is_moment py s.at) "once schedule needs at=YYYY-MM-DDTHH:MM"

unfoldable pub checked_schedule : Python → Schedule → Checked Schedule
unfolding validate_schedule
checked_schedule py s = do validate_schedule py s; ok s

-- The four fields of the row.
unfoldable pub type_of : Python → Json → String
unfolding str_of truth
type_of py raw = if truth raw then str_of py raw else "none"

unfoldable pub day_of : Python → Json → Option String
unfolding str_of truth
day_of py raw = if truth raw then some (py.upper (str_of py raw)) else none

unfoldable pub schedule_of : Python → Members → Schedule
unfolding type_of day_of lookup
schedule_of py d = record {
  type = type_of py (lookup "type" d);
  every = lookup "every" d;
  at = lookup "at" d;
  day = day_of py (lookup "day" d);
}

-- `schedule_from_dict`
unfoldable pub schedule_from_dict : Python → Json → Checked Schedule
unfolding checked_schedule schedule_of
schedule_from_dict py Json.null = ok no_schedule
schedule_from_dict py (Json.object d) = checked_schedule py (schedule_of py d)
schedule_from_dict py _ = err (malformed "schedule must be an object")

-- `if value is not None: payload[key] = value`
unfoldable pub add_field : String → Json → Members → Members
add_field key Json.null rest = rest
add_field key v rest = field key v rest

abbrev pub text_or_null : Option String → Json
text_or_null none = Json.null
text_or_null (some s) = Json.str s

-- `Schedule.to_dict`
unfoldable pub schedule_to_dict : Schedule → Members
unfolding add_field
schedule_to_dict s =
    field "type" (Json.str s.type)
      (add_field "every" s.every (add_field "at" s.at (add_field "day" (text_or_null s.day) end)))
