-- ===== src/Lockout/Streaks.antt =====
-- Failures in a row of src/login_lockout.py: the doubling wait, its bound, and where it stops working.
use app_launcher_lite.Prelude.{
  ℕ, zero, suc, ◌+◌, ◌-◌, ◌*◌, ◌^◌, ◌≤◌, ◌<◌, String, ◌≡◌, refl, ap, ◌∙◌, none, some, List, [], ◌∷◌,
  arith, length, subst,
}
use Prim.Native.Nat.{min}
use mathlib.Core.Path.{ap₂}
use native.Mathlib.Nat.{pow-suc}
use app_launcher_lite.Lockout.{
  Settings, LoginLockout, Outcome, waits, overflow_error, delay_for, record_failure,
}
use app_launcher_lite.Lockout.Soundness.{IsValid, IsSound}
use app_launcher_lite.Lockout.Invariant.{record_failure-IsSound, failures_of}
use app_launcher_lite.Lockout.Waits.{
  wait, delay_of, delay_of-record_failure, failures_of-record_failure, wait-record_failure_overflow,
  settings-record_failure,
}

-- The wait that the module promises, by the number of failures past the free ones: the base delay,
-- then twice the wait before, never above the maximum.
unfoldable pub doubling : Settings → ℕ → ℕ
doubling c zero = 0
doubling c (suc zero) = c.base_delay
doubling c (suc (suc n)) = min (2 * doubling c (suc n)) c.max_delay

doubling-eq :
    (c : Settings) (n : ℕ) → IsValid c → min (c.base_delay * 2 ^ n) c.max_delay ≡ doubling c (suc n)
unfolding doubling
doubling-eq c zero v = omega (arith, v.base_le_max)
doubling-eq c (suc n) v = omega (arith, doubling-eq c n v, ap (λ x. c.base_delay * x) (pow-suc 2 n))

doubling-at :
    (c : Settings) (m : ℕ)
    → IsValid c
    → (m ≡ 0 → doubling c m ≡ 0)
      × (0 < m → min (c.base_delay * 2 ^ (m - 1)) c.max_delay ≡ doubling c m)
unfolding doubling
doubling-at c zero v = (λ _. refl, λ h. elim h [ ])
doubling-at c (suc n) v = (
  λ e. absurd (omega arith),
  λ _.
      subst (λ k. min (c.base_delay * 2 ^ k) c.max_delay ≡ doubling c (suc n)) (omega arith)
        (doubling-eq c n v),
)

-- Up to 1024 failures past the free ones the computed wait is the promised one, and then it overflows.
delay_for-doubling :
    (c : Settings) (n : ℕ)
    → IsValid c
    → (n ≤ c.free_attempts + 1024 → delay_for c n ≡ some (doubling c (n - c.free_attempts)))
      × (c.free_attempts + 1024 < n → delay_for c n ≡ none)
unfolding delay_for
delay_for-doubling c n v =
    let at = doubling-at c (n - c.free_attempts) v in
    (λ h. ground (arith, at.0, at.1), λ h. ground arith)

-- The client fails at each of these instants.
unfoldable pub failing : LoginLockout → String → List ℕ → LoginLockout
failing s key [] = s
failing s key (now ∷ later) = failing (record_failure s key now).1 key later

-- Each instant comes within `forget` of the one before, the first within `forget` of `t`.
abbrev pub Close : ℕ → ℕ → List ℕ → Type 0
Close forget t [] = Unit
Close forget t (now ∷ later) = (t ≤ now) × (now < t + forget) × Close forget now later

abbrev pub last_of : ℕ → List ℕ → ℕ
last_of t [] = t
last_of t (now ∷ later) = last_of now later

record Row (s0 : LoginLockout) (n t : ℕ) (key : String) (s : LoginLockout) : Type 0 where
  sound : IsSound t s
  same : s.settings ≡ s0.settings
  count : (u : ℕ) → t ≤ u → u < t + s.forget_after → failures_of s key u ≡ n

counted :
    (s s' : LoginLockout) (key : String) {now n m : ℕ}
    → ((u : ℕ) → now ≤ u → u < now + s.forget_after → failures_of s' key u ≡ m + 1)
    → m ≡ n
    → s'.settings ≡ s.settings
    → (u : ℕ) → now ≤ u
    → u < now + s'.forget_after
    → failures_of s' key u ≡ suc n
counted s s' key f e same u h k =
    f u h (rw (← ap (λ (x : Settings). x.forget_after) same) k) ∙ omega arith

failing-Row :
    (s0 : LoginLockout) (n t : ℕ) (key : String) (s : LoginLockout) (later : List ℕ)
    → Close s0.forget_after t later
    → Row s0 n t key s
    → Row s0 (length later + n) (last_of t later) key (failing s key later)
unfolding failing
failing-Row s0 n t key s [] c r = subst (λ m. Row s0 m t key s) (omega arith) r
failing-Row s0 n t key s (now ∷ later) c r =
    subst (λ m. Row s0 m (last_of now later) key (failing (record_failure s key now).1 key later))
      (omega arith)
      (failing-Row s0 (suc n) now key (record_failure s key now).1 later c.2 (record {
        sound = record_failure-IsSound t s key now c.0 r.sound;
        same = settings-record_failure t s key now c.0 r.sound ∙ r.same;
        count =
            counted s (record_failure s key now).1 key
              (failures_of-record_failure t s key now c.0 r.sound)
              (r.count now c.0 (rw (ap (λ (x : Settings). x.forget_after) r.same) c.1))
              (settings-record_failure t s key now c.0 r.sound);
      }))

-- The streak of a client that starts anew at `now` and then fails at each of `later`.
row :
    (t : ℕ) (s : LoginLockout) (key : String) (now : ℕ) (later : List ℕ)
    → IsSound t s
    → t ≤ now
    → failures_of s key now ≡ 0
    → Close s.forget_after now later
    → Row s (length later + 1) (last_of now later) key (failing s key (now ∷ later))
unfolding failing
row t s key now later v le e c =
    failing-Row s 1 now key (record_failure s key now).1 later c (record {
      sound = record_failure-IsSound t s key now le v;
      same = settings-record_failure t s key now le v;
      count =
          counted s (record_failure s key now).1 key (failures_of-record_failure t s key now le v) e
            (settings-record_failure t s key now le v);
    })

raises : (o : Outcome) → delay_of o ≡ none → o ≡ overflow_error
raises (waits d a) e = cc
raises overflow_error e = refl

-- In a sound state, a client with no streak that fails n times in a row, each time before the last
-- failure is forgotten, earns with the n-th failure the wait that the module promises: nothing for
-- the free attempts, then the base delay doubled per failure up to the maximum; from the 1025-th
-- failure past the free ones on, the call raises instead.
pub nth_failure :
    (t : ℕ) (s : LoginLockout) (key : String) (now : ℕ) (later : List ℕ) (next : ℕ)
    → IsSound t s
    → t ≤ now
    → failures_of s key now ≡ 0
    → Close s.forget_after now later
    → last_of now later ≤ next
    → next < last_of now later + s.forget_after
    → let n = length later + 2 in
      let out = delay_of (record_failure (failing s key (now ∷ later)) key next).0 in
      (n ≤ s.free_attempts + 1024 → out ≡ some (doubling s.settings (n - s.free_attempts)))
      × (s.free_attempts + 1024 < n → out ≡ none)
nth_failure t s key now later next v le e c h k =
    let r = row t s key now later v le e c in
    let s' : LoginLockout = failing s key (now ∷ later) in
    let earned = delay_of-record_failure (last_of now later) s' key next h r.sound in
    let count : failures_of s' key next ≡ length later + 1 =
      r.count next h (rw (ap (λ (x : Settings). x.forget_after) r.same) k) in
    let n : failures_of s' key next + 1 ≡ length later + 2 = omega (arith, count) in
    let at : delay_of (record_failure s' key next).0 ≡ delay_for s.settings (length later + 2) =
      earned ∙ ap₂ delay_for r.same n in
    let spec = delay_for-doubling s.settings (length later + 2) v.valid in
    (λ b. at ∙ spec.0 b, λ b. at ∙ spec.1 b)

-- In a sound state, once a client that may try has failed 1024 times past its free attempts, every
-- further failure raises OverflowError and leaves the client free to try again at once, and its
-- count stays that high until the streak is forgotten.
pub unlimited_guesses :
    (t : ℕ) (s : LoginLockout) (key : String) (now : ℕ)
    → IsSound t s
    → t ≤ now
    → s.free_attempts + 1024 ≤ failures_of s key now
    → wait s key now ≡ 0
    → let s' = (record_failure s key now).1 in
      ((record_failure s key now).0 ≡ overflow_error)
      × ((e : ℕ) → wait s' key (now + e) ≡ 0)
      × ((u : ℕ)
          → now ≤ u
          → u < now + s.forget_after
          → s'.free_attempts + 1024 ≤ failures_of s' key u)
unlimited_guesses t s key now v le many free =
    let none_earned : delay_of (record_failure s key now).0 ≡ none =
      delay_of-record_failure t s key now le v
      ∙ (delay_for-doubling s.settings (failures_of s key now + 1) v.valid).1 (omega arith) in
    let raised : (record_failure s key now).0 ≡ overflow_error =
      raises (record_failure s key now).0 none_earned in
    (
      raised,
      λ e. wait-record_failure_overflow t s key now le v e raised ∙ omega arith,
      λ u h k.
          rw
            (
              settings-record_failure t s key now le v,
              failures_of-record_failure t s key now le v u h k,
            )
            (omega arith),
    )
