-- ===== src/Jobs/Registry/Schedules/RoundTrip.antt =====
-- `Schedule.to_dict` and `schedule_from_dict` of src/jobs/config_models.py, one after the other.
use app_launcher_lite.Prelude.{
  String, ◌==◌, ◌≡◌, refl, sym, ap, ◌∙◌, subst, false, Option, none, some, Bool-cases, inl, inr,
  eq_iff, if◌then◌else◌,
}
use app_launcher_lite.Prelude.Member.{member}
use app_launcher_lite.Prelude.Json.{Json, Members, end, lookup, truth}
use app_launcher_lite.Jobs.Job.{Schedule}
use app_launcher_lite.Jobs.Registry.{malformed}
use app_launcher_lite.Jobs.Registry.Checked.{ok, err}
use app_launcher_lite.Jobs.Registry.Python.{Python, str_of}
use app_launcher_lite.Jobs.Registry.Schedules.{
  schedule_types, validate_schedule, checked_schedule, type_of, day_of, schedule_of,
  schedule_from_dict, add_field, text_or_null, schedule_to_dict,
}

pub lookup-add_field :
    (k key : String) (v : Json) (rest : Members)
    → lookup key rest ≡ Json.null
    → lookup k (add_field key v rest) ≡ (if key == k then v else lookup k rest)
unfolding add_field lookup
lookup-add_field k key Json.null rest h = elim (Bool-cases (key == k)) [
  | inr e ↦ rw e refl
  | inl e ↦ rw e (subst (λ j. lookup j rest ≡ Json.null) ((eq_iff key k).0 e) h)
]
lookup-add_field k key (Json.bool b) rest h = refl
lookup-add_field k key (Json.int n) rest h = refl
lookup-add_field k key (Json.real r) rest h = refl
lookup-add_field k key (Json.str s) rest h = refl
lookup-add_field k key (Json.array xs) rest h = refl
lookup-add_field k key (Json.object d) rest h = refl

-- The keys of the row in turn, each with what comes after it.
module _ (s : Schedule) where
  abbrev after_at : Members
  after_at = add_field "day" (text_or_null s.day) end

  abbrev after_every : Members
  after_every = add_field "at" s.at after_at

  no_at : lookup "at" after_at ≡ Json.null
  unfolding lookup
  no_at = lookup-add_field "at" "day" (text_or_null s.day) end refl

  no_every : lookup "every" after_every ≡ Json.null
  unfolding lookup
  no_every =
      lookup-add_field "every" "at" s.at after_at no_at
      ∙ lookup-add_field "every" "day" (text_or_null s.day) end refl

  every-back : lookup "every" (schedule_to_dict s) ≡ s.every
  unfolding schedule_to_dict lookup
  every-back = lookup-add_field "every" "every" s.every after_every no_every

  at-back : lookup "at" (schedule_to_dict s) ≡ s.at
  unfolding schedule_to_dict lookup
  at-back =
      lookup-add_field "at" "every" s.every after_every no_every
      ∙ lookup-add_field "at" "at" s.at after_at no_at

  day-back : lookup "day" (schedule_to_dict s) ≡ text_or_null s.day
  unfolding schedule_to_dict lookup
  day-back =
      lookup-add_field "day" "every" s.every after_every no_every
      ∙ lookup-add_field "day" "at" s.at after_at no_at
      ∙ lookup-add_field "day" "day" (text_or_null s.day) end refl

type-row : (s : Schedule) → lookup "type" (schedule_to_dict s) ≡ Json.str s.type
unfolding schedule_to_dict lookup
type-row s = refl

unknown-type :
    (py : Python) (s : Schedule)
    → member s.type schedule_types ≡ false
    → validate_schedule py s ≡ err (malformed "unknown schedule type")
unfolding validate_schedule
unknown-type py s e = rw e

type-back :
    (py : Python) (s : Schedule)
    → validate_schedule py s ≡ ok tt
    → type_of py (Json.str s.type) ≡ s.type
unfolding type_of truth str_of member
type-back py s e = elim (Bool-cases (s.type == "")) [
  | inr full ↦ rw full
  | inl empty ↦ absurd (
      cc (
        unknown-type py s
            (subst (λ k. member k schedule_types ≡ false) (sym ((eq_iff s.type "").0 empty)) refl),
        e,
      ))
]

day_kept :
    (py : Python) (o : Option String)
    → ((d : String) → o ≡ some d → ((d == "") ≡ false) × (py.upper d ≡ d))
    → day_of py (text_or_null o) ≡ o
unfolding day_of truth str_of
day_kept py none h = refl
day_kept py (some d) h = let (full, same) = h d refl in rw full (ap some same)

row-back :
    (py : Python) (s : Schedule)
    → validate_schedule py s ≡ ok tt
    → ((d : String) → s.day ≡ some d → ((d == "") ≡ false) × (py.upper d ≡ d))
    → schedule_of py (schedule_to_dict s) ≡ s
unfolding schedule_of
row-back py s valid day =
    rw (every-back s, at-back s, day-back s, day_kept py s.day day)
      (ap (λ (t : String). record s { type = t })
        (ap (type_of py) (type-row s) ∙ type-back py s valid))

-- A valid schedule whose day, when it has one, is not empty and already in upper case, is read
-- back from the row that is written for it.
pub schedule_from_dict-schedule_to_dict :
    (py : Python) (s : Schedule)
    → validate_schedule py s ≡ ok tt
    → ((d : String) → s.day ≡ some d → ((d == "") ≡ false) × (py.upper d ≡ d))
    → schedule_from_dict py (Json.object (schedule_to_dict s)) ≡ ok s
unfolding schedule_from_dict checked_schedule
schedule_from_dict-schedule_to_dict py s valid day =
    let same : schedule_of py (schedule_to_dict s) ≡ s = row-back py s valid day in
    ap (checked_schedule py) same ∙ rw valid
