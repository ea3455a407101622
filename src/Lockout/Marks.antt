-- ===== src/Lockout/Marks.antt =====
-- The marks of the streaks in src/login_lockout.py: a streak is marked as alerted exactly from the
-- threshold on.
use mathlib.Core.Option.{some-injective}
use app_launcher_lite.Prelude.{
  sym, Bool-cases, subst, ◌==◌, ℕ, ◌+◌, ◌≤◌, String, ◌≡◌, refl, ap, ◌∙◌, Bool, true, ◌&&◌, none,
  some, [], ◌∷◌, ◌++◌, arith, leb, eqb, is_some, Option-cases, inl, inr,
}
use app_launcher_lite.Prelude.Dict.{Dict, get, del}
use app_launcher_lite.Lockout.{
  Streak, Settings, LoginLockout, delay_for, drop_forgotten, pop_oldest, make_room, live,
  take_alert, count_failure, record_failure, retry_after, reset, new_streak,
}
use app_launcher_lite.Lockout.Invariant.{failures_of, alerted_of}
use app_launcher_lite.Lockout.Histories.{Call, fails, logs_in, asks, step}
use app_launcher_lite.Lockout.Counting.{crosses}

-- The failure that is the threshold's, counted from the first of the streak.
abbrev pub reaches : Settings → ℕ → Bool
reaches c n = c.has_alert && eqb n c.alert_after

abbrev pub IsMarked : Settings → Streak → Type 0
IsMarked c k = k.alerted ≡ (c.has_alert && leb c.alert_after k.failures)

abbrev pub AllMarked : Settings → Dict Streak → Type 0
AllMarked c [] = Unit
AllMarked c ((_, k) ∷ d) = IsMarked c k × AllMarked c d

del-AllMarked :
    (c : Settings) (key : String) (d : Dict Streak) → AllMarked c d → AllMarked c (del key d)
unfolding del
del-AllMarked c key [] m = tt
del-AllMarked c key ((j, k) ∷ d) m = ground (arith, m.0, m.1, del-AllMarked c key d m.1)

drop-AllMarked :
    (c : Settings) (forget now : ℕ) (d : Dict Streak)
    → AllMarked c d
    → AllMarked c (drop_forgotten forget now d)
unfolding drop_forgotten
drop-AllMarked c forget now [] m = tt
drop-AllMarked c forget now ((j, k) ∷ d) m = ground (arith, m, drop-AllMarked c forget now d m.1)

pop-AllMarked : (c : Settings) (d : Dict Streak) → AllMarked c d → AllMarked c (pop_oldest d)
unfolding pop_oldest
pop-AllMarked c [] m = tt
pop-AllMarked c ((j, k) ∷ d) m = m.1

snoc-AllMarked :
    (c : Settings) (d : Dict Streak) (key : String) (k : Streak)
    → AllMarked c d
    → IsMarked c k
    → AllMarked c (d ++ (key, k) ∷ [])
snoc-AllMarked c [] key k m h = (h, tt)
snoc-AllMarked c ((j, x) ∷ d) key k m h = (m.0, snoc-AllMarked c d key k m.1 h)

get-AllMarked :
    (c : Settings) (d : Dict Streak) (key : String) (k : Streak)
    → AllMarked c d
    → get key d ≡ some k
    → IsMarked c k
unfolding get
get-AllMarked c [] key k m e = cc
get-AllMarked c ((j, x) ∷ d) key k m e = elim (Bool-cases (j == key)) [
  | inl same ↦ subst (IsMarked c) (some-injective x k (rw same at e)) m.0
  | inr other ↦ get-AllMarked c d key k m.1 (rw other at e)
]

-- A failure whose wait overflows lies past the threshold.
late_mark :
    (c : Settings) (k : Streak)
    → is_some (delay_for c c.alert_after) ≡ true
    → delay_for c (k.failures + 1) ≡ none
    → IsMarked c k
    → k.alerted ≡ (c.has_alert && leb c.alert_after (k.failures + 1))
unfolding delay_for
late_mark c k d e h = ground (arith, d, e, h)

take_alert-IsMarked :
    (s : LoginLockout) (key : String) (k : Streak) (now : ℕ) (n : ℕ)
    → k.failures ≡ n + 1
    → k.alerted ≡ (s.has_alert && leb s.alert_after n)
    → let (marked, _, s') = take_alert s key k now in
      IsMarked s.settings marked × (s'.settings ≡ s.settings)
unfolding take_alert
take_alert-IsMarked s key k now n e h = (ground (arith, e, h), ground (arith, e, h))

-- The marks in a state are true of the counts.
abbrev pub Marked : LoginLockout → Type 0
Marked s = AllMarked s.settings s.streaks

overflown :
    (s : LoginLockout) (key : String) (k : Streak) (now : ℕ)
    → delay_for s.settings (k.failures + 1) ≡ none
    → (count_failure s key k now).1 ≡ record s {
      streaks =
          del key s.streaks
          ++ (key, record k { failures = k.failures + 1; last_failure = now }) ∷ [];
    }
unfolding count_failure
overflown s key k now e = rw (e, count_failure)

abbrev counted : Streak → ℕ → ℕ → Streak
counted k now w = record k { failures = k.failures + 1; last_failure = now; deadline = now + w }

waited :
    (s : LoginLockout) (key : String) (k : Streak) (now w : ℕ)
    → delay_for s.settings (k.failures + 1) ≡ some w
    → let (marked, _, s') = take_alert s key (counted k now w) now in
      (count_failure s key k now).1
      ≡ record s' { streaks = del key s.streaks ++ (key, marked) ∷ [] }
unfolding count_failure
waited s key k now w e = rw (e, count_failure)

-- A mark stays true of the count when the streak's next failure is counted.
count_failure-AllMarked :
    (s : LoginLockout) (key : String) (k : Streak) (now : ℕ)
    → is_some (delay_for s.settings s.alert_after) ≡ true
    → Marked s
    → IsMarked s.settings k
    → Marked (count_failure s key k now).1
count_failure-AllMarked s key k now d m h =
    let others = del-AllMarked s.settings key s.streaks m in
    elim (Option-cases (delay_for s.settings (k.failures + 1))) [
      | inl e ↦ subst Marked (sym (overflown s key k now e)) (
          snoc-AllMarked s.settings (del key s.streaks) key _ others (late_mark s.settings k d e h))
      | inr (w, e) ↦
          let (mark, same) = take_alert-IsMarked s key (counted k now w) now k.failures refl h in
          subst Marked (sym (waited s key k now w e)) (
            subst
              (λ c.
                AllMarked c
                  (del key s.streaks ++ (key, (take_alert s key (counted k now w) now).0) ∷ []))
              (sym same) (snoc-AllMarked s.settings (del key s.streaks) key _ others mark))
    ]

live-AllMarked : (s : LoginLockout) (key : String) (now : ℕ) → Marked s → Marked (live s key now).1
unfolding live
live-AllMarked s key now m = ground (arith, m, del-AllMarked s.settings key s.streaks m)

make_room-AllMarked : (s : LoginLockout) (now : ℕ) → Marked s → Marked (make_room s now)
unfolding make_room
make_room-AllMarked s now m =
    let kept = drop-AllMarked s.settings s.forget_after now s.streaks m in
    ground (arith, kept, pop-AllMarked s.settings _ kept)

live_streak :
    (s : LoginLockout) (key : String) (now : ℕ) (k : Streak)
    → (live s key now).0 ≡ some k
    → get key s.streaks ≡ some k
unfolding live
live_streak s key now k e = ground (arith, e)

settings-live :
    (s : LoginLockout) (key : String) (now : ℕ) → (live s key now).1.settings ≡ s.settings
unfolding live
settings-live s key now = ground arith

new_mark : (c : Settings) → 1 ≤ c.alert_after → IsMarked c new_streak
new_mark c h = ground (arith, h)

from_new :
    (s : LoginLockout) (key : String) (now : ℕ)
    → (live s key now).0 ≡ none
    → (record_failure s key now).1
      ≡ (count_failure (make_room (live s key now).1 now) key new_streak now).1
unfolding record_failure
from_new s key now e = rw (e, record_failure)

from_old :
    (s : LoginLockout) (key : String) (now : ℕ) (k : Streak)
    → (live s key now).0 ≡ some k
    → (record_failure s key now).1 ≡ (count_failure (live s key now).1 key k now).1
unfolding record_failure
from_old s key now k e = rw (e, record_failure)

settings-make_room : (s : LoginLockout) (now : ℕ) → (make_room s now).settings ≡ s.settings
unfolding make_room
settings-make_room s now = refl

record_failure-AllMarked :
    (s : LoginLockout) (key : String) (now : ℕ)
    → 1 ≤ s.alert_after
    → is_some (delay_for s.settings s.alert_after) ≡ true
    → Marked s
    → Marked (record_failure s key now).1
record_failure-AllMarked s key now one d m =
    let s1 : LoginLockout = (live s key now).1 in
    let m1 = live-AllMarked s key now m in
    let same = settings-live s key now in
    let roomy = settings-make_room s1 now ∙ same in
    let defined : (c : Settings) → c ≡ s.settings → is_some (delay_for c c.alert_after) ≡ true =
      λ c e. ap (λ (x : Settings). is_some (delay_for x x.alert_after)) e ∙ d in
    elim (Option-cases (live s key now).0) [
      | inl e ↦ subst Marked (sym (from_new s key now e)) (
          count_failure-AllMarked (make_room s1 now) key new_streak now (defined _ roomy)
            (make_room-AllMarked s1 now m1)
            (new_mark (make_room s1 now).settings
              (subst (λ (c : Settings). 1 ≤ c.alert_after) (sym roomy) one)))
      | inr (k, e) ↦ subst Marked (sym (from_old s key now k e)) (
          count_failure-AllMarked s1 key k now (defined _ same) m1 (
            subst (λ c. IsMarked c k) (sym same)
              (get-AllMarked s.settings s.streaks key k m (live_streak s key now k e))))
    ]

pub step-AllMarked :
    (s : LoginLockout) (c : ℕ × Call)
    → 1 ≤ s.alert_after
    → is_some (delay_for s.settings s.alert_after) ≡ true
    → Marked s
    → Marked (step s c)
unfolding step retry_after reset
step-AllMarked s (now, fails key) one d m = record_failure-AllMarked s key now one d m
step-AllMarked s (now, logs_in key) one d m = del-AllMarked s.settings key s.streaks m
step-AllMarked s (now, asks key) one d m = live-AllMarked s key now m

crossing_at :
    (c : Settings) (n : ℕ) (alerted : Bool)
    → 1 ≤ c.alert_after
    → is_some (delay_for c c.alert_after) ≡ true
    → alerted ≡ (c.has_alert && leb c.alert_after n)
    → crosses c alerted (n + 1) ≡ reaches c (n + 1)
unfolding delay_for
crossing_at c n alerted one d h = ground (arith, one, d, h)

-- With true marks, an unmarked streak crosses the threshold exactly at the failure that reaches it.
pub crosses-reaches :
    (s : LoginLockout) (key : String) (now : ℕ)
    → 1 ≤ s.alert_after
    → is_some (delay_for s.settings s.alert_after) ≡ true
    → Marked s
    → crosses s.settings (alerted_of s key now) (failures_of s key now + 1)
      ≡ reaches s.settings (failures_of s key now + 1)
crosses-reaches s key now one d m =
    crossing_at s.settings (failures_of s key now) (alerted_of s key now) one d
      (elim (Option-cases (live s key now).0) [
        | inl e ↦ rw (e, alerted_of, failures_of) (new_mark s.settings one)
        | inr (k, e) ↦
            rw (e, alerted_of, failures_of)
              (get-AllMarked s.settings s.streaks key k m (live_streak s key now k e))
      ])
