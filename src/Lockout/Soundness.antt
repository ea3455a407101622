-- ===== src/Lockout/Soundness.antt =====
-- The well-formed states of the lock-out of src/login_lockout.py, and the operations that keep them.
use app_launcher_lite.Prelude.{
  Option, ◌-◌, subst, ℕ, ◌+◌, ◌-◌, ◌≤◌, ◌<◌, String, ◌≡◌, refl, none, some, [], ◌∷◌, ◌++◌, arith,
  length, Option-cases, inl, inr, length-append,
}
use app_launcher_lite.Prelude.Dict.{
  Dict, get, del, NodupKeys, del-NodupKeys, get-del_self, snoc-NodupKeys,
}
use app_launcher_lite.Lockout.{
  take_alert, delay_for, drop_forgotten, Streak, Settings, LoginLockout, init, live, make_room,
  count_failure, reset,
}
use app_launcher_lite.Lockout.Table.{
  Chronicle, Chronicle-del, Chronicle-drop, Chronicle-pop, Chronicle-snoc, length-drop-le,
  absent-drop, drop-NodupKeys, length-pop, get-pop_none, pop-NodupKeys,
}

-- What the constructor asks of the settings.
pub record IsValid (c : Settings) : Type 0 where
  pub some_client : 1 ≤ c.max_clients
  pub some_failure : 1 ≤ c.alert_after
  pub some_delay : 0 < c.base_delay
  pub base_le_max : c.base_delay ≤ c.max_delay
  pub max_le_forget : c.max_delay ≤ c.forget_after

-- The invariant, where `t` is the latest instant at which a failure was counted.
pub record IsSound (t : ℕ) (s : LoginLockout) : Type 0 where
  pub valid : IsValid s.settings
  pub distinct : NodupKeys s.streaks
  pub bounded : length s.streaks ≤ s.max_clients
  pub ordered : Chronicle s.max_delay 0 t s.streaks

Chronicle-later :
    (cap lo t now : ℕ) (d : Dict Streak) → t ≤ now → Chronicle cap lo t d → Chronicle cap lo now d
Chronicle-later cap lo t now [] h c = omega arith
Chronicle-later cap lo t now ((_, k) ∷ d) h c =
    (c.0, c.1, Chronicle-later cap k.last_failure t now d h c.2)

pub IsSound-later : {t now : ℕ} {s : LoginLockout} → t ≤ now → IsSound t s → IsSound now s
IsSound-later {t} {now} {s} h v = record {
  valid = v.valid;
  distinct = v.distinct;
  bounded = v.bounded;
  ordered = Chronicle-later s.max_delay 0 t now s.streaks h v.ordered;
}

-- The constructor accepts exactly the settings that it documents, and starts with an empty table.
pub init-IsSound : (c : Settings) (s : LoginLockout) → init c ≡ some s → IsSound 0 s
unfolding init
init-IsSound c s h = record {
  valid = ground arith;
  distinct = ground arith;
  bounded = ground arith;
  ordered = ground arith;
}

pub length-del-le : (key : String) (d : Dict Streak) → length (del key d) ≤ length d
unfolding del
length-del-le key [] = omega arith
length-del-le key ((j, k) ∷ d) = ground (arith, length-del-le key d)

pub reset-IsSound :
    (t : ℕ) (s : LoginLockout) (key : String) → IsSound t s → IsSound t (reset s key)
unfolding reset
reset-IsSound t s key v = record {
  valid = v.valid;
  distinct = del-NodupKeys key s.streaks v.distinct;
  bounded = omega (arith, length-del-le key s.streaks, v.bounded);
  ordered = Chronicle-del s.max_delay key 0 t s.streaks v.ordered;
}

pub live-IsSound :
    (t : ℕ) (s : LoginLockout) (key : String) (now : ℕ) → IsSound t s → IsSound t (live s key now).1
unfolding live reset
live-IsSound t s key now v = ground (arith, reset-IsSound t s key v)

pub make_room-IsSound :
    (t : ℕ) (s : LoginLockout) (now : ℕ)
    → IsSound t s
    → IsSound t (make_room s now) × (length (make_room s now).streaks < s.max_clients)
unfolding make_room
make_room-IsSound t s now v = ground (
  arith,
  Chronicle-drop s.max_delay s.forget_after now 0 t s.streaks v.ordered,
  Chronicle-pop s.max_delay 0 t (drop_forgotten s.forget_after now s.streaks),
  drop-NodupKeys s.forget_after now s.streaks v.distinct,
  pop-NodupKeys (drop_forgotten s.forget_after now s.streaks),
  length-drop-le s.forget_after now s.streaks,
  length-pop (drop_forgotten s.forget_after now s.streaks) {n = s.max_clients - 1},
)

pub absent-make_room :
    (s : LoginLockout) (key : String) (now : ℕ)
    → get key s.streaks ≡ none
    → get key (make_room s now).streaks ≡ none
unfolding make_room
absent-make_room s key now h = ground (
  arith,
  absent-drop s.forget_after now key s.streaks h,
  get-pop_none key (drop_forgotten s.forget_after now s.streaks),
)

take_alert_keeps :
    (s : LoginLockout) (key : String) (k : Streak) (now : ℕ)
    → let (k', _, s') = take_alert s key k now in
      (s'.settings ≡ s.settings)
      × (s'.streaks ≡ s.streaks)
      × (k'.last_failure ≡ k.last_failure)
      × (k'.deadline ≡ k.deadline)
      × (k'.failures ≡ k.failures)
unfolding take_alert
take_alert_keeps s key k now = ground arith

-- The deadline that a failure leaves: a raise comes before it is set.
abbrev pub deadline_after : ℕ → ℕ → Option ℕ → ℕ
deadline_after old now none = old
deadline_after old now (some delay) = now + delay

-- A counted failure leaves the streak at the end of the table.
pub count_failure_entry :
    (s : LoginLockout) (key : String) (k : Streak) (now : ℕ)
    → (k' : Streak) × ((count_failure s key k now).1.streaks ≡ del key s.streaks ++ (key, k') ∷ [])
      × ((count_failure s key k now).1.settings ≡ s.settings)
      × (k'.last_failure ≡ now)
      × (k'.failures ≡ k.failures + 1)
      × (k'.deadline ≡ deadline_after k.deadline now (delay_for s.settings (k.failures + 1)))
unfolding count_failure
count_failure_entry s key k now = elim (Option-cases (delay_for s.settings (k.failures + 1))) [
  | inl e ↦
      rw (e, count_failure)
        (record k { failures = k.failures + 1; last_failure = now }, refl, refl, refl, refl, refl)
  | inr (d, e) ↦
      let counted : Streak = record k {
        failures = k.failures + 1;
        deadline = now + d;
        last_failure = now;
      } in
      let (es, et, el, ed, ef) = take_alert_keeps s key counted now in
      rw (e, count_failure) ((take_alert s key counted now).0, refl, es, el, ef, ed)
]

deadline_after-le :
    (c : Settings) (old now n : ℕ)
    → old ≤ now + c.max_delay
    → deadline_after old now (delay_for c n) ≤ now + c.max_delay
unfolding delay_for
deadline_after-le c old now n h = ground arith

pub count_failure-IsSound :
    (t : ℕ) (s : LoginLockout) (key : String) (k : Streak) (now : ℕ)
    → t ≤ now
    → IsSound t s
    → length (del key s.streaks) < s.max_clients
    → k.deadline ≤ now + s.max_delay
    → IsSound now (count_failure s key k now).1
count_failure-IsSound t s key k now h v room b =
    let (k', e, c, l, f, d) = count_failure_entry s key k now in
    let near : k'.deadline ≤ now + s.max_delay =
      rw d (deadline_after-le s.settings k.deadline now (k.failures + 1) b) in
    record {
      valid = rw c v.valid;
      distinct = rw e (
          snoc-NodupKeys key k' (del key s.streaks) (del-NodupKeys key s.streaks v.distinct)
            (get-del_self key s.streaks v.distinct));
      bounded = rw (e, c) (omega (arith, length-append (del key s.streaks) ((key, k') ∷ [])));
      ordered =
          let placed : Chronicle s.max_delay 0 k'.last_failure
              (del key s.streaks ++ (key, k') ∷ []) =
            Chronicle-snoc s.max_delay key 0 t k' (del key s.streaks)
              (Chronicle-del s.max_delay key 0 t s.streaks v.ordered) (omega arith) (omega arith) in
          rw (e, c)
            (subst (λ n. Chronicle s.max_delay 0 n (del key s.streaks ++ (key, k') ∷ [])) l placed);
    }
