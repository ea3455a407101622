-- ===== src/Lockout/Waits.antt =====
-- The waits of src/login_lockout.py: how long a client is locked, and what another client's failures
-- do to it.
use app_launcher_lite.Prelude.{
  ℕ, ◌+◌, ◌-◌, ◌≤◌, ◌<◌, String, ◌≡◌, refl, sym, ap, ◌∙◌, false, Option, none, some, [], ◌∷◌, ◌++◌,
  ◌==◌, arith, eq_refl, length,
}
use app_launcher_lite.Prelude.Dict.{Dict, get, del, get-del_self, get-del_ne, get-append}
use app_launcher_lite.Lockout.{
  Streak, Settings, LoginLockout, Outcome, waits, overflow_error, delay_for, live, count_failure,
  record_failure, retry_after,
}
use app_launcher_lite.Lockout.Table.{fresh}
use app_launcher_lite.Lockout.Soundness.{IsSound, count_failure_entry, deadline_after}
use app_launcher_lite.Lockout.Invariant.{start, failures_of, live-eq-fresh}

-- The wait that `retry_after` reports.
abbrev pub wait : LoginLockout → String → ℕ → ℕ
wait s key now = (retry_after s key now).0

-- What the outcome says of the wait: `none` is the OverflowError.
abbrev pub delay_of : Outcome → Option ℕ
delay_of (waits d _) = some d
delay_of overflow_error = none

remaining : Option Streak → ℕ → ℕ
remaining none u = 0
remaining (some k) u = k.deadline - u

wait-eq :
    (s : LoginLockout) (key : String) (u : ℕ)
    → wait s key u ≡ remaining (fresh s.forget_after u (get key s.streaks)) u
unfolding retry_after remaining live
wait-eq s key u = ground arith

get-snoc_self :
    (key : String) (k : Streak) (d : Dict Streak)
    → get key d ≡ none
    → get key (d ++ (key, k) ∷ []) ≡ some k
unfolding get
get-snoc_self key k d h = rw (get-append key d ((key, k) ∷ []), h, eq_refl) refl

get-snoc_ne :
    (key j : String) (k : Streak) (d : Dict Streak)
    → (key == j) ≡ false
    → get j (del key d ++ (key, k) ∷ []) ≡ get j d
unfolding get
get-snoc_ne key j k d h =
    get-append j (del key d) ((key, k) ∷ []) ∙ ground (arith, h, get-del_ne key j d h)

delay_of-count_failure :
    (s : LoginLockout) (key : String) (k : Streak) (now : ℕ)
    → delay_of (count_failure s key k now).0 ≡ delay_for s.settings (k.failures + 1)
unfolding count_failure
delay_of-count_failure s key k now = ground arith

-- No wait outlives the streak that holds it.
wait-entry :
    (s : LoginLockout) (key : String) (k : Streak) (now e : ℕ)
    → get key s.streaks ≡ some k
    → k.last_failure ≡ now
    → k.deadline ≤ now + s.forget_after
    → wait s key (now + e) ≡ k.deadline - (now + e)
unfolding remaining
wait-entry s key k now e g l d = ground (arith, wait-eq s key (now + e), g)

delay_for-le : (c : Settings) (n d : ℕ) → delay_for c n ≡ some d → d ≤ c.max_delay
unfolding delay_for
delay_for-le c n d h = ground arith

module _ (t : ℕ) (s : LoginLockout) (key : String) (now : ℕ) (le : t ≤ now) (v : IsSound t s) where
  -- The wait that a failure earns depends only on how many the client has had in a row.
  pub delay_of-record_failure :
      delay_of (record_failure s key now).0 ≡ delay_for s.settings (failures_of s key now + 1)
  delay_of-record_failure =
      let b = start t s key now le v in
      rw (b.counts, delay_of-count_failure, b.same, b.failures) refl

  -- The client's own entry after the failure.
  entry :
      (k' : Streak) × (get key (record_failure s key now).1.streaks ≡ some k')
      × ((record_failure s key now).1.settings ≡ s.settings)
      × (k'.last_failure ≡ now)
      × (k'.failures ≡ failures_of s key now + 1)
      × (k'.deadline
          ≡ deadline_after
              (start t s key now le v).streak.deadline
              now
              (delay_for s.settings (failures_of s key now + 1)))
  entry =
      let b = start t s key now le v in
      let (k', e, c, l, f, d) = count_failure_entry b.state key b.streak now in
      (
        k',
        rw (b.counts, e)
            (get-snoc_self key k' (del key b.state.streaks)
              (get-del_self key b.state.streaks b.sound.distinct)),
        rw b.counts c ∙ b.same,
        l,
        f ∙ ap (λ (n : ℕ). n + 1) b.failures,
        rw (d, b.same, b.failures) refl,
      )

  -- A failure within `forget_after` of the last one adds to the streak.
  pub failures_of-record_failure :
      (u : ℕ)
      → now ≤ u
      → u < now + s.forget_after
      → failures_of (record_failure s key now).1 key u ≡ failures_of s key now + 1
  failures_of-record_failure u h k =
      let (k', g, c, l, f, d) = entry in
      ground (
        arith,
        live-eq-fresh (record_failure s key now).1 key u,
        g,
        ap (λ (x : Settings). x.forget_after) c,
        l,
        f,
      )

  -- In a sound state, after a failure that is counted no earlier than the last one and returns a
  -- wait, the client is locked for exactly that wait.
  pub wait-record_failure :
      (d e : ℕ)
      → delay_of (record_failure s key now).0 ≡ some d
      → wait (record_failure s key now).1 key (now + e) ≡ d - e
  wait-record_failure d e h =
      let (k', g, c, l, f, dl) = entry in
      let earned : delay_for s.settings (failures_of s key now + 1) ≡ some d =
        sym delay_of-record_failure ∙ h in
      let at : k'.deadline ≡ now + d = dl ∙ rw earned refl in
      let short : d ≤ s.max_delay = delay_for-le s.settings (failures_of s key now + 1) d earned in
      let near : k'.deadline ≤ now + (record_failure s key now).1.forget_after =
        rw c (omega (arith, v.valid.max_le_forget)) in
      wait-entry (record_failure s key now).1 key k' now e g l near ∙ omega arith

  -- A failure whose wait overflows raises, and leaves the deadline where it was.
  pub wait-record_failure_overflow :
      (e : ℕ)
      → (record_failure s key now).0 ≡ overflow_error
      → wait (record_failure s key now).1 key (now + e) ≡ wait s key now - e
  wait-record_failure_overflow e h =
      let b = start t s key now le v in
      let (k', g, c, l, f, dl) = entry in
      let raised : delay_for s.settings (failures_of s key now + 1) ≡ none =
        sym delay_of-record_failure ∙ ap delay_of h in
      let at : k'.deadline ≡ b.streak.deadline = dl ∙ rw raised refl in
      let near : k'.deadline ≤ now + (record_failure s key now).1.forget_after =
        rw c (
          omega
            (arith, v.valid.max_le_forget, b.near, ap (λ (x : Settings). x.max_delay) b.same)) in
      wait-entry (record_failure s key now).1 key k' now e g l near ∙ omega (arith, b.due)

  -- In a sound state with room in the table, a failure that is counted no earlier than the last
  -- one changes no other client's wait from then on.
  pub wait-record_failure_ne :
      (j : String) (u : ℕ)
      → (key == j) ≡ false
      → now ≤ u
      → length s.streaks < s.max_clients
      → wait (record_failure s key now).1 j u ≡ wait s j u
  wait-record_failure_ne j u ne h room =
      let b = start t s key now le v in
      let (k', e, c, l, f, d) = count_failure_entry b.state key b.streak now in
      let apart : get j (record_failure s key now).1.streaks ≡ get j b.state.streaks =
        rw (b.counts, e) (get-snoc_ne key j k' b.state.streaks ne) in
      let same : (record_failure s key now).1.settings ≡ s.settings = rw b.counts c ∙ b.same in
      wait-eq (record_failure s key now).1 j u
      ∙ rw (same, apart) (ap (λ o. remaining o u) (b.others j u ne h room))
      ∙ sym (wait-eq s j u)

  pub settings-record_failure : (record_failure s key now).1.settings ≡ s.settings
  settings-record_failure = entry.2
