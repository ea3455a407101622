-- ===== src/Lockout/Alerts.antt =====
-- The alerts of src/login_lockout.py over histories of calls.
use app_launcher_lite.Prelude.{
  sym, ℕ, suc, ◌+◌, ◌≤◌, String, ◌≡◌, refl, ap, ◌∙◌, true, Option, none, some, List, [], ◌∷◌, arith,
  is_some, if◌then◌else◌, Option-cases, inl, inr,
}
use mathlib.Core.Path.{transport}
use app_launcher_lite.Lockout.{
  LockoutAlert, Settings, LoginLockout, delay_for, record_failure, reset, retry_after, live,
}
use app_launcher_lite.Lockout.Soundness.{IsSound}
use app_launcher_lite.Lockout.Invariant.{record_failure-IsSound, failures_of}
use app_launcher_lite.Lockout.Histories.{
  step-IsSound, Call, fails, logs_in, asks, step, run, InOrder,
}
use app_launcher_lite.Lockout.Counting.{alert_of, record_failure-Counted}
use app_launcher_lite.Lockout.Marks.{Marked, reaches, crosses-reaches, step-AllMarked}

abbrev pub with_alert : ℕ → Option LockoutAlert → List (ℕ × LockoutAlert) → List (ℕ × LockoutAlert)
with_alert now none l = l
with_alert now (some a) l = (now, a) ∷ l

-- The alerts that a history sends, each with its instant.
unfoldable pub alerts : LoginLockout → List (ℕ × Call) → List (ℕ × LockoutAlert)
alerts s [] = []
alerts s ((now, fails key) ∷ cs) =
    let (out, s') = record_failure s key now in with_alert now (alert_of out) (alerts s' cs)
alerts s ((now, c) ∷ cs) = alerts (step s (now, c)) cs

-- Each alert comes at least `cooldown` after the one before; the first so after `last`.
abbrev pub Spaced : ℕ → Option ℕ → List (ℕ × LockoutAlert) → Type 0
Spaced cooldown last [] = Unit
Spaced cooldown none ((now, _) ∷ l) = Spaced cooldown (some now) l
Spaced cooldown (some t) ((now, _) ∷ l) = (t + cooldown ≤ now) × Spaced cooldown (some now) l

Spaced-with :
    (cooldown : ℕ) (last : Option ℕ) (now : ℕ) (o : Option LockoutAlert)
    (l : List (ℕ × LockoutAlert))
    → (o ≡ none → Spaced cooldown last l)
    → ((a : LockoutAlert)
        → o ≡ some a
        → ((t : ℕ) → last ≡ some t → t + cooldown ≤ now) × Spaced cooldown (some now) l)
    → Spaced cooldown last (with_alert now o l)
Spaced-with cooldown last now none l h k = h refl
Spaced-with cooldown none now (some a) l h k = (k a refl).1
Spaced-with cooldown (some t) now (some a) l h k = ((k a refl).0 t refl, (k a refl).1)

rest-Spaced :
    (s s' : LoginLockout) {last : Option ℕ} (l : List (ℕ × LockoutAlert))
    → s'.settings ≡ s.settings
    → s'.last_alert ≡ last
    → Spaced s'.alert_cooldown s'.last_alert l
    → Spaced s.alert_cooldown last l
rest-Spaced s s' l c e h = transport (λ i. Spaced ((c i).alert_cooldown) (e i) l) h

same-asks :
    (s : LoginLockout) (now : ℕ) (key : String)
    → let s' = (retry_after s key now).1 in
      (s'.settings ≡ s.settings) × (s'.last_alert ≡ s.last_alert) × (s'.suppressed ≡ s.suppressed)
unfolding retry_after live
same-asks s now key = ground arith

same-reset :
    (s : LoginLockout) (key : String)
    → let s' = reset s key in
      (s'.settings ≡ s.settings) × (s'.last_alert ≡ s.last_alert) × (s'.suppressed ≡ s.suppressed)
unfolding reset
same-reset s key = (refl, refl, refl)

-- In any history of calls in clock order from a sound state no two alerts are sent within the
-- cooldown, whatever the clients.
pub alerts-Spaced :
    (t : ℕ) (s : LoginLockout) (cs : List (ℕ × Call))
    → InOrder t cs
    → IsSound t s
    → Spaced s.alert_cooldown s.last_alert (alerts s cs)
unfolding alerts step
alerts-Spaced t s [] o v = tt
alerts-Spaced t s ((now, fails key) ∷ cs) o v =
    let c = record_failure-Counted t s key now o.0 v in
    let s' : LoginLockout = (record_failure s key now).1 in
    let rest = alerts-Spaced now s' cs o.1 (record_failure-IsSound t s key now o.0 v) in
    Spaced-with s.alert_cooldown s.last_alert now (alert_of (record_failure s key now).0)
      (alerts s' cs) (λ e. rest-Spaced s s' (alerts s' cs) c.same (c.silent e).0 rest)
      (λ a e.
        let (_, _, _, _, last, _, apart) = c.sent a e in
        (apart, rest-Spaced s s' (alerts s' cs) c.same last rest))
alerts-Spaced t s ((now, logs_in key) ∷ cs) o v =
    let s' : LoginLockout = step s (now, logs_in key) in
    rest-Spaced s s' (alerts s' cs) (same-reset s key).0 (same-reset s key).1
      (alerts-Spaced now s' cs o.1 (step-IsSound t now s (logs_in key) o.0 v))
alerts-Spaced t s ((now, asks key) ∷ cs) o v =
    let s' : LoginLockout = step s (now, asks key) in
    rest-Spaced s s' (alerts s' cs) (same-asks s now key).0 (same-asks s now key).1
      (alerts-Spaced now s' cs o.1 (step-IsSound t now s (asks key) o.0 v))

-- The failures of a history that take the count of a streak to the threshold.
unfoldable pub crossings : LoginLockout → List (ℕ × Call) → ℕ
crossings s [] = 0
crossings s ((now, fails key) ∷ cs) =
    (if reaches s.settings (failures_of s key now + 1) then 1 else 0)
    + crossings (record_failure s key now).1 cs
crossings s ((now, c) ∷ cs) = crossings (step s (now, c)) cs

-- What alerts report: each stands for itself and for those held back before it.
abbrev pub covered : List (ℕ × LockoutAlert) → ℕ
covered [] = 0
covered ((_, a) ∷ l) = suc a.suppressed + covered l

abbrev covers : Option LockoutAlert → ℕ
covers none = 0
covers (some a) = suc a.suppressed

covered-with :
    (now : ℕ) (o : Option LockoutAlert) (l : List (ℕ × LockoutAlert))
    → covered (with_alert now o l) ≡ covers o + covered l
covered-with now none l = omega arith
covered-with now (some a) l = refl

-- In any history of calls in clock order from a sound state whose marks are true, with a wait that
-- is defined at the threshold: every failure that brings the count of a streak to the threshold,
-- where alerts are taken at all, is sent as an alert, counted into a later one, or still counted
-- as held back, and nothing else is.
pub covered-alerts :
    (t : ℕ) (s : LoginLockout) (cs : List (ℕ × Call))
    → InOrder t cs
    → IsSound t s
    → Marked s
    → is_some (delay_for s.settings s.alert_after) ≡ true
    → covered (alerts s cs) + (run s cs).suppressed ≡ s.suppressed + crossings s cs
unfolding alerts step run crossings
covered-alerts t s [] o v m d = omega arith
covered-alerts t s ((now, fails key) ∷ cs) o v m d =
    let c = record_failure-Counted t s key now o.0 v in
    let s' : LoginLockout = (record_failure s key now).1 in
    let rest =
      covered-alerts now s' cs o.1 (record_failure-IsSound t s key now o.0 v)
        (step-AllMarked s (now, fails key) v.valid.some_failure d m)
        (ap (λ (k : Settings). is_some (delay_for k k.alert_after)) c.same ∙ d) in
    let split = covered-with now (alert_of (record_failure s key now).0) (alerts s' cs) in
    let reached = crosses-reaches s key now v.valid.some_failure d m in
    elim (Option-cases (alert_of (record_failure s key now).0)) [
      | inl e ↦ omega (arith, rest, (rw reached at (c.silent e).1), split, ap covers e)
      | inr (a, e) ↦
          let (crossed, _, _, held, _, clear, _) = c.sent a e in
          rw (sym reached ∙ crossed, crossings)
            (omega (arith, rest, held, clear, split, ap covers e))
    ]
covered-alerts t s ((now, logs_in key) ∷ cs) o v m d =
    covered-alerts now (step s (now, logs_in key)) cs o.1 (step-IsSound t now s (logs_in key) o.0 v)
      (step-AllMarked s (now, logs_in key) v.valid.some_failure d m)
      (ap (λ (k : Settings). is_some (delay_for k k.alert_after)) (same-reset s key).0 ∙ d)
    ∙ ap (λ n. n + crossings (step s (now, logs_in key)) cs) (same-reset s key).2
covered-alerts t s ((now, asks key) ∷ cs) o v m d =
    covered-alerts now (step s (now, asks key)) cs o.1 (step-IsSound t now s (asks key) o.0 v)
      (step-AllMarked s (now, asks key) v.valid.some_failure d m)
      (ap (λ (k : Settings). is_some (delay_for k k.alert_after)) (same-asks s now key).0 ∙ d)
    ∙ ap (λ n. n + crossings (step s (now, asks key)) cs) (same-asks s now key).2
