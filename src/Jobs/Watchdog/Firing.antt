-- ===== src/Jobs/Watchdog/Firing.antt =====
-- When the watchdog of src/run_supervision.py kills.
use mathlib.Core.List.{Memᴰ}
use app_launcher_lite.Prelude.{
  ℕ, ◌+◌, ◌<◌, ◌≡◌, refl, ◌∙◌, ap, subst, Bool, true, false, some, none, Option, List, [], ◌∷◌,
  is_some, arith,
}
use app_launcher_lite.Jobs.Watchdog.{
  Limits, Poll, Reason, ran_too_long, Step, ends, goes_on, listen, round, outcome_of, watch,
}

-- No poll of the list sees the child ended.
abbrev pub AllRunning : List Poll → Type 0
AllRunning [] = Unit
AllRunning (t ∷ ts) = (t.ended ≡ false) × AllRunning ts

quits : Step → Bool
quits (ends none) = true
quits (ends (some r)) = false
quits (goes_on g s) = false

listen-running :
    (limit : Option ℕ) (growth : ℕ) (size : Option ℕ) (t : Poll) (seen : Option ℕ)
    → t.ended ≡ false
    → quits (listen limit growth size t seen) ≡ false
unfolding listen quits
listen-running none growth size t seen e = refl
listen-running (some limit) growth size t none e = refl
listen-running (some limit) growth size t (some s) e = ground (arith, e)

round-running :
    (l : Limits) (started growth : ℕ) (size : Option ℕ) (t : Poll)
    → t.ended ≡ false
    → quits (round l started growth size t) ≡ false
unfolding round quits
round-running l started growth size t e =
    ground (arith, e, listen-running l.no_output growth size t t.size e)

carried :
    (st : Step) (rest : ℕ → Option ℕ → Option Reason)
    → quits st ≡ false
    → ((g : ℕ) (s : Option ℕ) → is_some (rest g s) ≡ true)
    → is_some (outcome_of st rest) ≡ true
unfolding quits
carried (ends none) rest q h = cc
carried (ends (some r)) rest q h = refl
carried (goes_on g s) rest q h = h g s

watch-cons :
    (l : Limits) (started growth : ℕ) (size : Option ℕ) (t : Poll) (ts : List Poll)
    → watch l started growth size (t ∷ ts)
      ≡ outcome_of (round l started growth size t) (λ g s. watch l started g s ts)
unfolding watch
watch-cons l started growth size t ts = refl

too_long :
    (l : Limits) (started growth m : ℕ) (size : Option ℕ) (t : Poll)
    → l.max_runtime ≡ some m
    → started + m < t.now
    → t.ended ≡ false
    → round l started growth size t ≡ ends (some ran_too_long)
unfolding round
too_long l started growth m size t e h a = ground (arith, e, a)

stopped :
    (st : Step) (rest : ℕ → Option ℕ → Option Reason)
    → st ≡ ends (some ran_too_long)
    → is_some (outcome_of st rest) ≡ true
stopped st rest e = rw e refl

-- With a runtime ceiling, a child that every poll sees running is killed once a poll comes past
-- the ceiling, at that poll or before, whatever the log does.
pub watch-kills :
    (l : Limits) (started growth m : ℕ) (size : Option ℕ) (t : Poll) (ts : List Poll)
    → l.max_runtime ≡ some m
    → Memᴰ t ts
    → started + m < t.now
    → AllRunning ts
    → is_some (watch l started growth size ts) ≡ true
watch-kills l started growth m size t [] e i h a = elim i [ ]
watch-kills l started growth m size t (u ∷ ts) e (Memᴰ.head same) h a =
    ap is_some (watch-cons l started growth size u ts)
    ∙ stopped (round l started growth size u) (λ g s. watch l started g s ts)
        (too_long l started growth m size u e (subst (λ (x : Poll). started + m < x.now) same h)
          a.0)
watch-kills l started growth m size t (u ∷ ts) e (Memᴰ.tail i) h a =
    ap is_some (watch-cons l started growth size u ts)
    ∙ carried (round l started growth size u) (λ g s. watch l started g s ts)
        (round-running l started growth size u a.0)
        (λ g s. watch-kills l started g m s t ts e i h a.1)
