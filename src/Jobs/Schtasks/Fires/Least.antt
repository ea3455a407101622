-- ===== src/Jobs/Schtasks/Fires/Least.antt =====
-- What `next_fire` of src/jobs/schtasks.py answers, against the instants that a schedule names.
use app_launcher_lite.Prelude.{
  ℕ, ◌<◌, ltb, String, ◌==◌, ◌≡◌, refl, Bool, true, false, ◌&&◌, ◌||◌, inl, inr, Bool-cases, Option,
  none, some, if◌then◌else◌, arith,
}
use app_launcher_lite.Prelude.Int.{ℤ, pos, negsuc}
use app_launcher_lite.Prelude.Json.{Json, Items, nil, cons}
use app_launcher_lite.Jobs.Job.{Schedule}
use app_launcher_lite.Jobs.Schtasks.Fires.{
  Readers, day, clock_time, read_parts, hhmm, time_of_day, daily_fire, earlier, best_fire,
  times_fire, weekday_index, weekly_fire, once_at, once_fire, next_fire, is_frequent,
}
use app_launcher_lite.Jobs.Schtasks.Fires.Clock.{
  daily-later, daily-on, daily-first, weekly-later, weekly-on, weekly-first,
}
use app_launcher_lite.Jobs.Schtasks.Fires.Named.{
  at_time, at_some_time, at_one_of, on_weekday, equals, at_moment, fires, IsFirst, IsNext,
}

-- `next_fire`'s times of day are below a day.
clock_time-below : (h m : Option ℤ) (hm : ℕ × ℕ) → clock_time h m ≡ some hm → time_of_day hm < day
clock_time-below (some (pos h)) (some (pos m)) (h', m') e = ground arith
clock_time-below (some (pos h)) (some (negsuc m)) hm e = cc
clock_time-below (some (pos h)) none hm e = cc
clock_time-below (some (negsuc h)) m hm e = cc
clock_time-below none m hm e = cc

read_parts-below :
    (r : Readers) (o : Option (String × String)) (hm : ℕ × ℕ)
    → read_parts r o ≡ some hm
    → time_of_day hm < day
read_parts-below r none hm e = cc
read_parts-below r (some (hh, mm)) hm e = clock_time-below (r.int_of hh) (r.int_of mm) hm e

hhmm-below : (r : Readers) (v : Json) (hm : ℕ × ℕ) → hhmm r v ≡ some hm → time_of_day hm < day
unfolding hhmm
hhmm-below r (Json.str s) hm e = read_parts-below r _ hm e
hhmm-below r Json.null hm e = cc
hhmm-below r (Json.bool b) hm e = cc
hhmm-below r (Json.int n) hm e = cc
hhmm-below r (Json.real x) hm e = cc
hhmm-below r (Json.array xs) hm e = cc
hhmm-below r (Json.object d) hm e = cc

abbrev Below : Option (ℕ × ℕ) → Type 0
Below none = Unit {0}
Below (some hm) = time_of_day hm < day

below : (r : Readers) (v : Json) → Below (hhmm r v)
below r v = go (hhmm r v) refl
  where
    go : (o : Option (ℕ × ℕ)) → hhmm r v ≡ o → Below o
    go none e = tt
    go (some hm) e = hhmm-below r v hm e

daily_fire-IsFirst :
    (now : ℕ) (o : Option (ℕ × ℕ)) → Below o → IsFirst (at_time o) now (daily_fire now o)
unfolding daily_fire
daily_fire-IsFirst now none small = λ t h. refl
daily_fire-IsFirst now (some (h, m)) small =
    let k = time_of_day (h, m) in
    let on = daily-on now k small in
    (
      daily-later now k small,
      ground (arith, on),
      λ t later e. daily-first now k small t later (ground arith),
    )

weekday_index-below : (d : Option String) (i : ℕ) → weekday_index d ≡ some i → i < 7
unfolding weekday_index
weekday_index-below none i e = cc
weekday_index-below (some d) i e = ground arith

weekly_fire-IsFirst :
    (now : ℕ) (d : Option ℕ) (o : Option (ℕ × ℕ))
    → Below o
    → ((i : ℕ) → d ≡ some i → i < 7)
    → IsFirst (λ t. on_weekday d t && at_time o t) now (weekly_fire now d o)
unfolding weekly_fire
weekly_fire-IsFirst now none o small weekly = λ t h. refl
weekly_fire-IsFirst now (some i) none small weekly = λ t h. ground arith
weekly_fire-IsFirst now (some i) (some (h, m)) small weekly =
    let k = time_of_day (h, m) in
    let week = weekly i refl in
    let on = weekly-on now k i small week in
    (
      weekly-later now k i small week,
      ground (arith, on),
      λ t later e. weekly-first now k i small week t later (ground arith) (ground arith),
    )

once_at-IsFirst : (now : ℕ) (o : Option ℕ) → IsFirst (equals o) now (once_at now o)
unfolding once_at
once_at-IsFirst now none = λ t h. refl
once_at-IsFirst now (some fire) = elim (Bool-cases (ltb now fire)) [
  | inl later ↦ rw later (ground arith, ground arith, λ t h e. ground arith)
  | inr past ↦ rw past (λ t h. ground arith)
]

-- The earlier of the first instants for two tests is the first instant for either.
earlier-IsFirst :
    (f g : ℕ → Bool) (now : ℕ) (a b : Option ℕ)
    → IsFirst f now a
    → IsFirst g now b
    → IsFirst (λ t. f t || g t) now (earlier a b)
unfolding earlier
earlier-IsFirst f g now none none p q = λ t h. ground (arith, p t h, q t h)
earlier-IsFirst f g now (some a) none p q =
    (p.0, ground (arith, p.1), λ t h e. p.2 t h (ground (arith, q t h)))
earlier-IsFirst f g now none (some b) p q =
    (q.0, ground (arith, q.1), λ t h e. q.2 t h (ground (arith, p t h)))
earlier-IsFirst f g now (some a) (some b) p q = elim (Bool-cases (ltb b a)) [
  | inl less ↦ rw less (q.0, ground (arith, q.1), λ t h e. ground (arith, p.2 t h, q.2 t h))
  | inr more ↦ rw more (p.0, ground (arith, p.1), λ t h e. ground (arith, p.2 t h, q.2 t h))
]

IsFirst-cong :
    (f g : ℕ → Bool) (now : ℕ) (o : Option ℕ)
    → ((t : ℕ) → f t ≡ g t)
    → IsFirst f now o
    → IsFirst g now o
IsFirst-cong f g now none same p = λ t h. ground (arith, same t, p t h)
IsFirst-cong f g now (some a) same p =
    (p.0, ground (arith, same a, p.1), λ t h e. ground (arith, same t, p.2 t h))

best_fire-IsFirst :
    (r : Readers) (now : ℕ) (f : ℕ → Bool) (best : Option ℕ) (entries : Items)
    → IsFirst f now best
    → IsFirst (λ t. f t || at_some_time r entries t) now (best_fire r now best entries)
unfolding best_fire at_some_time
best_fire-IsFirst r now f best nil p =
    IsFirst-cong f (λ t. f t || false) now best (λ t. ground arith) p
best_fire-IsFirst r now f best (cons entry rest) p =
    let g : ℕ → Bool = λ t. f t || at_time (hhmm r entry) t in
    let o = earlier best (daily_fire now (hhmm r entry)) in
    let q =
      earlier-IsFirst f (at_time (hhmm r entry)) now best (daily_fire now (hhmm r entry)) p
        (daily_fire-IsFirst now (hhmm r entry) (below r entry)) in
    IsFirst-cong (λ t. g t || at_some_time r rest t)
      (λ t. f t || (at_time (hhmm r entry) t || at_some_time r rest t)) now (best_fire r now o rest)
      (λ t. ground arith) (best_fire-IsFirst r now g o rest q)

times_fire-IsFirst :
    (r : Readers) (now : ℕ) (v : Json) → IsFirst (at_one_of r v) now (times_fire r now v)
unfolding times_fire
times_fire-IsFirst r now (Json.array entries) =
    IsFirst-cong (λ t. false || at_some_time r entries t) (at_some_time r entries) now
      (best_fire r now none entries) (λ t. refl)
      (best_fire-IsFirst r now (λ t. false) none entries (λ t h. refl))
times_fire-IsFirst r now Json.null = λ t h. refl
times_fire-IsFirst r now (Json.bool b) = λ t h. refl
times_fire-IsFirst r now (Json.int n) = λ t h. refl
times_fire-IsFirst r now (Json.real x) = λ t h. refl
times_fire-IsFirst r now (Json.str s) = λ t h. refl
times_fire-IsFirst r now (Json.object d) = λ t h. refl

once_fire-IsFirst :
    (r : Readers) (now : ℕ) (v : Json) → IsFirst (at_moment r v) now (once_fire r now v)
unfolding once_fire
once_fire-IsFirst r now (Json.str s) = once_at-IsFirst now (r.from_iso s)
once_fire-IsFirst r now Json.null = λ t h. refl
once_fire-IsFirst r now (Json.bool b) = λ t h. refl
once_fire-IsFirst r now (Json.int n) = λ t h. refl
once_fire-IsFirst r now (Json.real x) = λ t h. refl
once_fire-IsFirst r now (Json.array xs) = λ t h. refl
once_fire-IsFirst r now (Json.object d) = λ t h. refl

choose-IsFirst :
    (b : Bool) (f g : ℕ → Bool) (now : ℕ) (o p : Option ℕ)
    → IsFirst f now o
    → IsFirst g now p
    → IsFirst (λ t. if b then f t else g t) now (if b then o else p)
choose-IsFirst true f g now o p q r = q
choose-IsFirst false f g now o p q r = r

neither : (a b : Bool) → (a || b) ≡ false → (a ≡ false) × (b ≡ false)
neither a b e = (ground arith, ground arith)

pub next_fire-IsFirst :
    (r : Readers) (s : Schedule) (now : ℕ)
    → is_frequent s ≡ false
    → IsFirst (fires r s) now (next_fire r s now)
unfolding next_fire fires is_frequent
next_fire-IsFirst r s now sparse =
    let (minutes, hourly) = neither (s.type == "minutes") (s.type == "hourly") sparse in
    rw (minutes, hourly)
      (choose-IsFirst (s.type == "daily") _ _ now _ _
        (daily_fire-IsFirst now (hhmm r s.at) (below r s.at))
        (choose-IsFirst (s.type == "daily_times") _ _ now _ _ (times_fire-IsFirst r now s.at) (
          choose-IsFirst (s.type == "weekly") _ _ now _ _
            (weekly_fire-IsFirst now (weekday_index s.day) (hhmm r s.at) (below r s.at)
              (weekday_index-below s.day))
            (choose-IsFirst (s.type == "once") (at_moment r s.at) (λ t. false) now
              (once_fire r now s.at) none (once_fire-IsFirst r now s.at) (λ t h. refl)))))

IsFirst-IsNext : (on : ℕ → Bool) (now t : ℕ) (o : Option ℕ) → IsFirst on now o → IsNext on now t o
IsFirst-IsNext on now t none p = ground (arith, p t)
IsFirst-IsNext on now t (some fire) p = (p.0, p.1, ground (arith, p.2 t))

-- For a schedule that is neither of minutes nor hourly: a computed next fire comes after the
-- clock, is an instant that the schedule names, and no other such instant lies between; and if
-- there is none, the schedule names no instant after the clock.
pub next_fire_lem :
    (r : Readers) (s : Schedule) (now t : ℕ)
    → is_frequent s ≡ false
    → IsNext (fires r s) now t (next_fire r s now)
next_fire_lem r s now t sparse =
    IsFirst-IsNext (fires r s) now t (next_fire r s now) (next_fire-IsFirst r s now sparse)
