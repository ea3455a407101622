-- ===== src/Lockout/Invariant.antt =====
-- The well-formed states of the lock-out of src/login_lockout.py, from the constructor on and through
-- any history of calls.
use app_launcher_lite.Prelude.{
  Bool, ◌-◌, ◌==◌, false, ◌∙◌, ℕ, ◌+◌, ◌-◌, ◌≤◌, ◌<◌, String, ◌≡◌, refl, none, some, arith, length,
  Option-cases, inl, inr,
}
use app_launcher_lite.Prelude.Dict.{
  get-del_ne, get, del, NodupKeys, del-NodupKeys, get-del_self, length-del, del_absent,
}
use app_launcher_lite.Lockout.{
  retry_after, Streak, LoginLockout, live, make_room, new_streak, count_failure, record_failure,
}
use app_launcher_lite.Lockout.Table.{fresh, fresh-drop, Chronicle-get, length-drop-le}
use app_launcher_lite.Lockout.Soundness.{
  IsSound, length-del-le, live-IsSound, make_room-IsSound, absent-make_room, count_failure-IsSound,
}

forgotten-live :
    (s : LoginLockout) (key : String) (now : ℕ)
    → NodupKeys s.streaks
    → (live s key now).0 ≡ none
    → get key (live s key now).1.streaks ≡ none
unfolding live
forgotten-live s key now v h = ground (arith, get-del_self key s.streaks v)

kept-live :
    (s : LoginLockout) (key : String) (now : ℕ) (k : Streak)
    → (live s key now).0 ≡ some k
    → (get key s.streaks ≡ some k)
      × ((live s key now).1 ≡ s)
      × (now < k.last_failure + s.forget_after)
unfolding live
kept-live s key now k h = ground arith

settings-live :
    (s : LoginLockout) (key : String) (now : ℕ) → (live s key now).1.settings ≡ s.settings
unfolding live
settings-live s key now = ground arith

settings-make_room : (s : LoginLockout) (now : ℕ) → (make_room s now).settings ≡ s.settings
unfolding make_room
settings-make_room s now = refl

pub live-eq-fresh :
    (s : LoginLockout) (key : String) (now : ℕ)
    → (live s key now).0 ≡ fresh s.forget_after now (get key s.streaks)
unfolding live
live-eq-fresh s key now = ground arith

-- With room for one more client, nobody else is evicted.
make_room-others :
    (s : LoginLockout) (key j : String) (now u : ℕ)
    → (key == j) ≡ false
    → now ≤ u
    → NodupKeys s.streaks
    → length s.streaks < s.max_clients
    → fresh s.forget_after u (get j (make_room (live s key now).1 now).streaks)
      ≡ fresh s.forget_after u (get j s.streaks)
unfolding make_room live
make_room-others s key j now u h le v room = ground (
  arith,
  get-del_ne key j s.streaks h,
  length-del-le key s.streaks,
  length-drop-le s.forget_after now s.streaks,
  length-drop-le s.forget_after now (del key s.streaks),
  fresh-drop s.forget_after now u j s.streaks le v,
  fresh-drop s.forget_after now u j (del key s.streaks) le (del-NodupKeys key s.streaks v),
)

-- The consecutive failures of a client, as the lock-out remembers them at `now`.
abbrev pub failures_of : LoginLockout → String → ℕ → ℕ
failures_of s key now = elim (live s key now).0 [ none ↦ 0 | some k ↦ k.failures ]

retry_after-live :
    (s : LoginLockout) (key : String) (now : ℕ)
    → (retry_after s key now).0 ≡ elim (live s key now).0 [ none ↦ 0 | some k ↦ k.deadline - now ]
unfolding retry_after
retry_after-live s key now = refl

-- Whether the client's streak has had its alert, sent or held back.
abbrev pub alerted_of : LoginLockout → String → ℕ → Bool
alerted_of s key now = elim (live s key now).0 [ none ↦ false | some k ↦ k.alerted ]

alerts-live :
    (s : LoginLockout) (key : String) (now : ℕ)
    → ((live s key now).1.last_alert ≡ s.last_alert)
      × ((live s key now).1.suppressed ≡ s.suppressed)
unfolding live
alerts-live s key now = ground arith

alerts-make_room :
    (s : LoginLockout) (now : ℕ)
    → ((make_room s now).last_alert ≡ s.last_alert) × ((make_room s now).suppressed ≡ s.suppressed)
unfolding make_room
alerts-make_room s now = (refl, refl)

-- The state and the streak from which `record_failure` counts.
pub record Start (t : ℕ) (s : LoginLockout) (key : String) (now : ℕ) : Type 0 where
  pub state : LoginLockout
  pub streak : Streak
  pub counts : record_failure s key now ≡ count_failure state key streak now
  pub sound : IsSound t state
  pub same : state.settings ≡ s.settings
  pub room : length (del key state.streaks) < state.max_clients
  pub near : streak.deadline ≤ now + state.max_delay
  pub failures : streak.failures ≡ failures_of s key now
  pub marked : streak.alerted ≡ alerted_of s key now
  pub last : state.last_alert ≡ s.last_alert
  pub held : state.suppressed ≡ s.suppressed
  pub due : streak.deadline - now ≡ (retry_after s key now).0
  pub others :
      (j : String) (u : ℕ)
      → (key == j) ≡ false
      → now ≤ u
      → length s.streaks < s.max_clients
      → fresh s.forget_after u (get j state.streaks) ≡ fresh s.forget_after u (get j s.streaks)

pub start :
    (t : ℕ) (s : LoginLockout) (key : String) (now : ℕ) → t ≤ now → IsSound t s → Start t s key now
unfolding record_failure
start t s key now h v = elim (Option-cases (live s key now).0) [
  | inl e ↦
      let s1 : LoginLockout = (live s key now).1 in
      let v1 : IsSound t s1 = live-IsSound t s key now v in
      let (v2, room) = make_room-IsSound t s1 now v1 in
      let absent : get key (make_room s1 now).streaks ≡ none =
        absent-make_room s1 key now (forgotten-live s key now v.distinct e) in
      record {
        state = make_room s1 now;
        streak = new_streak;
        counts = rw (e, record_failure);
        sound = v2;
        same = settings-make_room s1 now ∙ settings-live s key now;
        room = rw (del_absent key (make_room s1 now).streaks absent, settings-make_room) room;
        near = omega arith;
        failures = rw (e, failures_of);
        marked = rw (e, alerted_of);
        last = (alerts-make_room s1 now).0 ∙ (alerts-live s key now).0;
        held = (alerts-make_room s1 now).1 ∙ (alerts-live s key now).1;
        due = ground (arith, e, retry_after-live s key now);
        others = λ j u ne le space. make_room-others s key j now u ne le v.distinct space;
      }
  | inr (k, e) ↦
      let (found, same, fresh) = kept-live s key now k e in
      let (old, cap, _) = Chronicle-get s.max_delay key 0 t k s.streaks v.ordered found in
      record {
        state = s;
        streak = k;
        counts = rw (e, same, record_failure);
        sound = v;
        same = refl;
        room = omega (arith, length-del key k s.streaks found, v.bounded);
        near = omega arith;
        failures = rw (e, failures_of);
        marked = rw (e, alerted_of);
        last = refl;
        held = refl;
        due = ground (arith, e, retry_after-live s key now);
        others = λ j u ne le space. refl;
      }
]

-- Counting a failure no earlier than the last one keeps the invariant, also when it raises.
pub record_failure-IsSound :
    (t : ℕ) (s : LoginLockout) (key : String) (now : ℕ)
    → t ≤ now
    → IsSound t s
    → IsSound now (record_failure s key now).1
record_failure-IsSound t s key now h v =
    let b = start t s key now h v in
    rw b.counts (count_failure-IsSound t b.state key b.streak now h b.sound b.room b.near)
