-- ===== src/Examples/LoginStreaks.antt =====
-- The theorems on src/login_lockout.py at concrete histories.
use app_launcher_lite.Prelude.{
  is_some, ℕ, ◌+◌, ◌-◌, ◌≤◌, ◌<◌, ◌≡◌, refl, true, some, none, List, [], ◌∷◌, arith,
}
use app_launcher_lite.Prelude.Dict.{get}
use app_launcher_lite.Lockout.{
  Settings, LoginLockout, init, live, delay_for, count_failure, record_failure, retry_after,
  overflow_error,
}
use app_launcher_lite.Lockout.Soundness.{IsSound, IsValid}
use app_launcher_lite.Lockout.Invariant.{failures_of}
use app_launcher_lite.Lockout.Histories.{Call, fails, logs_in, asks, run, InOrder, run-init-IsSound}
use app_launcher_lite.Lockout.Waits.{wait, delay_of}
use app_launcher_lite.Lockout.Streaks.{doubling, failing, nth_failure, unlimited_guesses}
use app_launcher_lite.Lockout.Alerts.{
  alerts, Spaced, crossings, covered, alerts-Spaced, covered-alerts,
}

abbrev limits : Settings
limits = record {
  free_attempts = 1;
  base_delay = 10;
  max_delay = 60;
  forget_after = 600;
  max_clients = 2;
  alert_after = 2;
  alert_cooldown = 100;
  has_alert = true;
}

abbrev empty_table : LoginLockout
empty_table = record { settings = limits; streaks = []; last_alert = none; suppressed = 0 }

accepted_settings : init limits ≡ some empty_table
unfolding init
accepted_settings = refl

abbrev calls : List (ℕ × Call)
calls =
    (1, fails "a")
    ∷ (2, fails "a")
    ∷ (3, asks "a")
    ∷ (20, fails "b")
    ∷ (21, fails "b")
    ∷ (30, logs_in "b")
    ∷ []

calls-InOrder : InOrder 0 calls
calls-InOrder =
    (omega arith, (omega arith, (omega arith, (omega arith, (omega arith, (omega arith, tt))))))

run-init-IsSound_example : IsSound 30 (run empty_table calls)
run-init-IsSound_example = run-init-IsSound limits empty_table calls accepted_settings calls-InOrder

empty_table-IsSound : IsSound 0 empty_table
unfolding run
empty_table-IsSound = run-init-IsSound limits empty_table [] accepted_settings tt

alerts-Spaced_example : Spaced 100 none (alerts empty_table calls)
alerts-Spaced_example = alerts-Spaced 0 empty_table calls calls-InOrder empty_table-IsSound

threshold_waits : is_some (delay_for limits 2) ≡ true
unfolding delay_for
threshold_waits = refl

covered-alerts_example :
    covered (alerts empty_table calls) + (run empty_table calls).suppressed
    ≡ 0 + crossings empty_table calls
covered-alerts_example =
    covered-alerts 0 empty_table calls calls-InOrder empty_table-IsSound tt threshold_waits

limits-IsValid : IsValid limits
limits-IsValid = record {
  some_client = omega arith;
  some_failure = omega arith;
  some_delay = omega arith;
  base_le_max = omega arith;
  max_le_forget = omega arith;
}

no_failures : failures_of empty_table "a" 1 ≡ 0
unfolding live get
no_failures = refl

nth_failure_example :
    let n : ℕ = 4 in
    let out = delay_of (record_failure (failing empty_table "a" (1 ∷ 2 ∷ 14 ∷ [])) "a" 40).0 in
    (n ≤ 1 + 1024 → out ≡ some (doubling limits (n - 1))) × (1 + 1024 < n → out ≡ none)
nth_failure_example =
    nth_failure 0 empty_table "a" 1 (2 ∷ 14 ∷ []) 40 empty_table-IsSound (omega arith) no_failures
      (omega arith, omega arith, (omega arith, omega arith, tt)) (omega arith) (omega arith)

abbrev exhausted : LoginLockout
exhausted = record {
  settings = limits;
  streaks =
      ("a", record { failures = 1_025; deadline = 65; last_failure = 5; alerted = true }) ∷ [];
  last_alert = some 5;
  suppressed = 0;
}

exhausted-IsSound : IsSound 5 exhausted
unfolding get
exhausted-IsSound = record {
  valid = limits-IsValid;
  distinct = (refl, tt);
  bounded = omega arith;
  ordered = (omega arith, omega arith, omega arith);
}

exhausted_failures : failures_of exhausted "a" 70 ≡ 1_025
unfolding live get
exhausted_failures = refl

exhausted_free : wait exhausted "a" 70 ≡ 0
unfolding retry_after live get
exhausted_free = refl

unlimited_guesses_example :
    let s' = (record_failure exhausted "a" 70).1 in
    ((record_failure exhausted "a" 70).0 ≡ overflow_error)
    × ((e : ℕ) → wait s' "a" (70 + e) ≡ 0)
    × ((u : ℕ) → 70 ≤ u → u < 70 + 600 → 1 + 1024 ≤ failures_of s' "a" u)
unfolding record_failure live get count_failure delay_for
unlimited_guesses_example =
    unlimited_guesses 5 exhausted "a" 70 exhausted-IsSound (omega arith)
      (omega (arith, exhausted_failures)) exhausted_free
