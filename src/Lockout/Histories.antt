-- ===== src/Lockout/Histories.antt =====
-- Histories of calls of src/login_lockout.py: the password route asks for the wait, counts a wrong
-- password, or resets the streak.
use app_launcher_lite.Prelude.{ℕ, ◌≤◌, String, ◌≡◌, some, List, [], ◌∷◌}
use app_launcher_lite.Lockout.{Settings, LoginLockout, init, record_failure, retry_after, reset}
use app_launcher_lite.Lockout.Soundness.{
  IsSound, IsSound-later, init-IsSound, reset-IsSound, live-IsSound,
}
use app_launcher_lite.Lockout.Invariant.{record_failure-IsSound}

pub data Call : Type 0 where
  fails : String → Call
  logs_in : String → Call
  asks : String → Call

unfoldable pub step : LoginLockout → ℕ × Call → LoginLockout
step s (now, fails key) = (record_failure s key now).1
step s (now, logs_in key) = reset s key
step s (now, asks key) = (retry_after s key now).1

unfoldable pub run : LoginLockout → List (ℕ × Call) → LoginLockout
run s [] = s
run s (c ∷ cs) = run (step s c) cs

-- The clock is monotonic: the calls come in the order of their instants, none before `t`.
abbrev pub InOrder : ℕ → List (ℕ × Call) → Type 0
InOrder t [] = Unit
InOrder t ((now, _) ∷ cs) = (t ≤ now) × InOrder now cs

abbrev pub last_instant : ℕ → List (ℕ × Call) → ℕ
last_instant t [] = t
last_instant t ((now, _) ∷ cs) = last_instant now cs

pub step-IsSound :
    (t now : ℕ) (s : LoginLockout) (c : Call)
    → t ≤ now
    → IsSound t s
    → IsSound now (step s (now, c))
unfolding step retry_after
step-IsSound t now s (fails key) h v = record_failure-IsSound t s key now h v
step-IsSound t now s (logs_in key) h v = IsSound-later h (reset-IsSound t s key v)
step-IsSound t now s (asks key) h v = IsSound-later h (live-IsSound t s key now v)

run-IsSound :
    (t : ℕ) (s : LoginLockout) (cs : List (ℕ × Call))
    → InOrder t cs
    → IsSound t s
    → IsSound (last_instant t cs) (run s cs)
unfolding run
run-IsSound t s [] o v = v
run-IsSound t s ((now, c) ∷ cs) o v =
    run-IsSound now (step s (now, c)) cs o.1 (step-IsSound t now s c o.0 v)

-- After any history of calls in the order of a monotonic clock, on accepted settings: no client
-- has two streaks, at most max_clients are tracked, the table is in the order of the last
-- failures, and no deadline lies more than max_delay after the last failure.
pub run-init-IsSound :
    (c : Settings) (s : LoginLockout) (cs : List (ℕ × Call))
    → init c ≡ some s
    → InOrder 0 cs
    → IsSound (last_instant 0 cs) (run s cs)
run-init-IsSound c s cs e o = run-IsSound 0 s cs o (init-IsSound c s e)
