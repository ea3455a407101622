-- ===== src/Lockout/Counting.antt =====
-- What one counted failure does to the alerts of src/login_lockout.py.
use app_launcher_lite.Prelude.{
  ℕ, ◌+◌, ◌≤◌, String, ◌≡◌, refl, ap, Bool, true, not, ◌&&◌, Option, none, some, arith, leb,
  is_some, if◌then◌else◌, Option-cases, inl, inr,
}
use mathlib.Core.Path.{transport}
use app_launcher_lite.Lockout.{
  LockoutAlert, Streak, Settings, LoginLockout, Outcome, waits, overflow_error, delay_for,
  take_alert, count_failure, record_failure,
}
use app_launcher_lite.Lockout.Soundness.{IsSound}
use app_launcher_lite.Lockout.Invariant.{start, failures_of, alerted_of}

-- The alert that `on_alert` gets.
abbrev pub alert_of : Outcome → Option LockoutAlert
alert_of (waits _ a) = a
alert_of overflow_error = none

-- The failure that takes an unmarked streak to the threshold.
abbrev pub crosses : Settings → Bool → ℕ → Bool
crosses c alerted n = c.has_alert && not alerted && leb c.alert_after n && is_some (delay_for c n)

-- What counting one failure does to the alerts: `n` is the new count of the streak, and the last
-- alert was sent at `last`, with `held` held back since.
pub record Counted (c : Settings) (last : Option ℕ) (held : ℕ) (key : String) (alerted : Bool)
    (n now : ℕ) (out : Outcome) (s' : LoginLockout) : Type 0 where
  pub same : s'.settings ≡ c
  pub silent :
      alert_of out ≡ none
      → (s'.last_alert ≡ last) × (s'.suppressed ≡ held + (if crosses c alerted n then 1 else 0))
  pub sent :
      (a : LockoutAlert)
      → alert_of out ≡ some a
      → (crosses c alerted n ≡ true)
        × (a.key ≡ key)
        × (a.failures ≡ n)
        × (a.suppressed ≡ held)
        × (s'.last_alert ≡ some now)
        × (s'.suppressed ≡ 0)
        × ((t : ℕ) → last ≡ some t → t + c.alert_cooldown ≤ now)

count_failure-Counted :
    (s : LoginLockout) (key : String) (k : Streak) (now : ℕ)
    → Counted s.settings s.last_alert s.suppressed key k.alerted
        (k.failures + 1)
        now
        (count_failure s key k now).0
        (count_failure s key k now).1
unfolding count_failure take_alert
count_failure-Counted s key k now = elim (Option-cases (delay_for s.settings (k.failures + 1))) [
  | inl e ↦ record {
    same = rw (e, count_failure) refl;
    silent = λ h. ground (arith, e);
    sent = λ a h. ground (arith, e);
  }
  | inr (d, e) ↦ record {
    same = ground (arith, e);
    silent = λ h. ground (arith, e);
    sent = λ a h. (
      ground (arith, e),
      ground (arith, e),
      ground (arith, e),
      ground (arith, e),
      ground (arith, e),
      ground (arith, e),
      λ t l. ground (arith, e),
    );
  }
]

Counted-along :
    {c c' : Settings} {last last' : Option ℕ} {held held' : ℕ} {key : String} {m m' : Bool}
    {n n' now : ℕ} {out : Outcome} {s' : LoginLockout}
    → c ≡ c'
    → last ≡ last'
    → held ≡ held'
    → m ≡ m'
    → n ≡ n'
    → Counted c last held key m n now out s'
    → Counted c' last' held' key m' n' now out s'
Counted-along {key} {now} {out} {s'} p q r u w h =
    transport (λ i. Counted (p i) (q i) (r i) key (u i) (w i) now out s') h

pub record_failure-Counted :
    (t : ℕ) (s : LoginLockout) (key : String) (now : ℕ)
    → t ≤ now
    → IsSound t s
    → Counted s.settings s.last_alert s.suppressed key
        (alerted_of s key now)
        (failures_of s key now + 1)
        now
        (record_failure s key now).0
        (record_failure s key now).1
record_failure-Counted t s key now le v =
    let b = start t s key now le v in
    let done =
      Counted-along b.same b.last b.held b.marked (ap (λ (n : ℕ). n + 1) b.failures)
        (count_failure-Counted b.state key b.streak now) in
    rw b.counts done
