-- ===== src/Lockout.antt =====
-- src/login_lockout.py: the per-client lock-out in front of the password route. Instants and delays
-- are whole ticks of a clock that the caller reads (the source's floats are seconds); the lock makes
-- each method one step. A method returns what it returns or raises beside the new state.
mod Table
pub mod Soundness
pub mod Invariant
pub mod Histories
pub mod Waits
pub mod Streaks
pub mod Counting
pub mod Marks
pub mod Alerts
use app_launcher_lite.Prelude.{
  ℕ, ◌+◌, ◌-◌, ◌*◌, ◌/◌, ◌^◌, String, Bool, true, false, ◌&&◌, ◌||◌, not, Option, none, some, List,
  [], ◌∷◌, ◌++◌, ltb, leb, if◌then◌else◌, length,
}
use Prim.Native.Nat.{min, max}
use app_launcher_lite.Prelude.Dict.{Dict, get, del}

-- `LockoutAlert`
pub record LockoutAlert : Type 0 where
  pub key : String
  pub failures : ℕ
  pub suppressed : ℕ

-- `_Streak`
pub record Streak : Type 0 where
  pub failures : ℕ
  pub deadline : ℕ
  pub last_failure : ℕ
  pub alerted : Bool

-- The constructor's settings; `has_alert` says that `on_alert` is not `None`.
pub record Settings : Type 0 where
  pub free_attempts : ℕ
  pub base_delay : ℕ
  pub max_delay : ℕ
  pub forget_after : ℕ
  pub max_clients : ℕ
  pub alert_after : ℕ
  pub alert_cooldown : ℕ
  pub has_alert : Bool

-- `LoginLockout`; the streaks are an ordered dict, the oldest failure first.
pub record LoginLockout : Type 0 where
  pub settings : Settings
  pub open settings use *
  pub streaks : Dict Streak
  pub last_alert : Option ℕ
  pub suppressed : ℕ

-- `__init__`: `none` is its ValueError.
unfoldable pub init : Settings → Option LoginLockout
init c =
    if ltb c.alert_after 1 || ltb c.max_clients 1
    then none
    else if not
        (ltb 0 c.base_delay && leb c.base_delay c.max_delay && leb c.max_delay c.forget_after)
    then none
    else some (record { settings = c; streaks = []; last_alert = none; suppressed = 0 })

-- `_live`: the streak of a client, which is forgotten here once it is old.
unfoldable pub live : LoginLockout → String → ℕ → Option Streak × LoginLockout
live s key now = elim (get key s.streaks) [
  | none ↦ (none, s)
  | some streak ↦
      if leb (streak.last_failure + s.forget_after) now
      then (none, record s { streaks = del key s.streaks })
      else (some streak, s)
]

-- The loop of `_make_room`: forgotten streaks leave from the front.
unfoldable pub drop_forgotten : ℕ → ℕ → Dict Streak → Dict Streak
drop_forgotten forget now [] = []
drop_forgotten forget now ((k, oldest) ∷ rest) =
    if ltb now (oldest.last_failure + forget)
    then (k, oldest) ∷ rest
    else drop_forgotten forget now rest

-- `popitem(last=False)`
unfoldable pub pop_oldest : Dict Streak → Dict Streak
pop_oldest [] = []
pop_oldest (_ ∷ rest) = rest

-- `_make_room`
unfoldable pub make_room : LoginLockout → ℕ → LoginLockout
unfolding drop_forgotten pop_oldest
make_room s now =
    let kept = drop_forgotten s.forget_after now s.streaks in
    record s { streaks = if leb s.max_clients (length kept) then pop_oldest kept else kept }

-- The wait of a streak of `failures`, as `record_failure` computes it. Python turns `2 ** (over - 1)`
-- into a float to multiply it, which raises OverflowError from 2 ** 1024 on: that is `none`.
unfoldable pub delay_for : Settings → ℕ → Option ℕ
delay_for c failures =
    if leb failures c.free_attempts
    then some 0
    else let doublings = failures - c.free_attempts - 1 in
      if leb 1024 doublings then none else some (min (c.base_delay * 2 ^ doublings) c.max_delay)

-- `_take_alert`: the streak with its mark, the alert to send, and the new state.
unfoldable pub take_alert :
    LoginLockout → String → Streak → ℕ → Streak × Option LockoutAlert × LoginLockout
take_alert s key streak now =
    if not s.has_alert || streak.alerted || ltb streak.failures s.alert_after
    then (streak, none, s)
    else let marked = record streak { alerted = true } in
      let held : Bool = elim s.last_alert [
        | none ↦ false
        | some t ↦ ltb now (t + s.alert_cooldown)
      ] in
      if held then (marked, none, record s { suppressed = s.suppressed + 1 }) else (
        marked,
        some (record { key = key; failures = streak.failures; suppressed = s.suppressed }),
        record s { last_alert = some now; suppressed = 0 },
      )

-- What `record_failure` does: it returns the wait and may have called `on_alert`, or it raises.
pub data Outcome : Type 0 where
  waits : ℕ → Option LockoutAlert → Outcome
  overflow_error : Outcome

-- `record_failure` from the streak it works on (a new one if there was none). `self._streaks[key]`
-- is moved to the end of the table. What was written before a raise stays written.
unfoldable pub count_failure : LoginLockout → String → Streak → ℕ → Outcome × LoginLockout
count_failure s key streak now =
    let counted = record streak { failures = streak.failures + 1; last_failure = now } in
    let others = del key s.streaks in
    elim (delay_for s.settings (streak.failures + 1)) [
      | none ↦ (overflow_error, record s { streaks = others ++ (key, counted) ∷ [] })
      | some delay ↦
          let (marked, alert, s') =
            take_alert s key (record counted { deadline = now + delay }) now in
          (waits delay alert, record s' { streaks = others ++ (key, marked) ∷ [] })
    ]

abbrev pub new_streak : Streak
new_streak = record { failures = 0; deadline = 0; last_failure = 0; alerted = false }

-- `record_failure`
unfoldable pub record_failure : LoginLockout → String → ℕ → Outcome × LoginLockout
record_failure s key now =
    let (streak, s') = live s key now in
    elim streak [
      | none ↦ count_failure (make_room s' now) key new_streak now
      | some k ↦ count_failure s' key k now
    ]

-- `retry_after`: `max(0.0, deadline - now)`.
unfoldable pub retry_after : LoginLockout → String → ℕ → ℕ × LoginLockout
retry_after s key now =
    let (streak, s') = live s key now in (elim streak [ none ↦ 0 | some k ↦ k.deadline - now ], s')

-- `reset`
unfoldable pub reset : LoginLockout → String → LoginLockout
reset s key = record s { streaks = del key s.streaks }

-- `retry_after_header`: a wait in whole seconds, rounded up, at least 1.
pub retry_after_header : ℕ → ℕ → ℕ
retry_after_header ticks_per_second wait =
    max 1 ((wait + (ticks_per_second - 1)) / ticks_per_second)
