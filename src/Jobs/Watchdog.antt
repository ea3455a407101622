-- ===== src/Jobs/Watchdog.antt =====
-- The watchdog of src/run_supervision.py: its ceilings and its loop, over what it sees at each poll.
-- Instants are ticks; a poll that comes after `stop` is not in the list.
pub mod Firing
use app_launcher_lite.Prelude.{
  ℕ, zero, suc, ◌+◌, ◌*◌, Bool, true, false, Option, none, some, List, [], ◌∷◌, if◌then◌else◌, ltb,
  eqb,
}
use app_launcher_lite.Jobs.Job.{Job}
use app_launcher_lite.Jobs.World.{World}
use app_launcher_lite.Jobs.History.{second}
use app_launcher_lite.Jobs.Stats.{derived_runtime_ceiling}

pub record Limits : Type 0 where
  pub max_runtime : Option ℕ
  pub no_output : Option ℕ

-- `_positive_or_none`, of a setting in seconds.
unfoldable pub positive_or_none : Option ℕ → Option ℕ
positive_or_none none = none
positive_or_none (some zero) = none
positive_or_none (some (suc s)) = some (suc s * second)

-- `WATCHDOG_DEFAULT_NO_OUTPUT_SECONDS`
abbrev pub default_no_output : ℕ
default_no_output = 3600 * second

-- `resolve_watchdog_limits`: `None` means the default, and 0 switches the signal off.
unfoldable pub resolve_watchdog_limits : World → Job → ℕ → Limits
unfolding derived_runtime_ceiling positive_or_none
resolve_watchdog_limits w job now = record {
  max_runtime = elim job.max_runtime_seconds [
    | none ↦ derived_runtime_ceiling w job.id now
    | some s ↦ positive_or_none (some s)
  ];
  no_output = elim job.no_output_seconds [
    | none ↦ some default_no_output
    | some s ↦ positive_or_none (some s)
  ];
}

-- What one poll sees: the instant, the size of the log if it can be read, and whether the child has
-- ended.
pub record Poll : Type 0 where
  pub now : ℕ
  pub size : Option ℕ
  pub ended : Bool

pub data Reason : Type 0 where
  ran_too_long : Reason
  said_nothing : Reason

-- `_fire`: a child that ended by itself is not reported as killed.
abbrev pub fire_at : Poll → Reason → Option Reason
fire_at t r = if t.ended then none else some r

-- What a poll leads to: the loop ends, or it goes on with the last growth and the last size.
pub data Step : Type 0 where
  ends : Option Reason → Step
  goes_on : ℕ → Option ℕ → Step

abbrev pub exceeded : Option ℕ → ℕ → ℕ → Bool
exceeded none since now = false
exceeded (some limit) since now = ltb (since + limit) now

abbrev pub same_size : Option ℕ → ℕ → Bool
same_size none s = false
same_size (some r) s = eqb r s

-- The second half of a round of `_loop`, on the size of the log.
unfoldable pub listen : Option ℕ → ℕ → Option ℕ → Poll → Option ℕ → Step
listen none growth size t seen = goes_on growth size
listen (some limit) growth size t none = goes_on growth size
listen (some limit) growth size t (some s) =
    if same_size size s
    then (if ltb (growth + limit) t.now then ends (fire_at t said_nothing) else goes_on growth size)
    else goes_on t.now (some s)

-- One round of `_loop`.
unfoldable pub round : Limits → ℕ → ℕ → Option ℕ → Poll → Step
unfolding listen
round l started growth size t =
    if exceeded l.max_runtime started t.now
    then ends (fire_at t ran_too_long)
    else listen l.no_output growth size t t.size

-- The answer of the loop from a round on.
abbrev pub outcome_of : Step → (ℕ → Option ℕ → Option Reason) → Option Reason
outcome_of (ends r) rest = r
outcome_of (goes_on g s) rest = rest g s

-- `_loop`: the reason for which it kills, if it does.
unfoldable pub watch : Limits → ℕ → ℕ → Option ℕ → List Poll → Option Reason
unfolding round
watch l started growth size [] = none
watch l started growth size (t ∷ ts) =
    outcome_of (round l started growth size t) (λ g s. watch l started g s ts)
