-- ===== src/Lockout/Table.antt =====
-- The table of streaks of src/login_lockout.py: what its operations do to the order of the entries,
-- to their keys and to their bounds.
use app_launcher_lite.Prelude.{
  ℕ, suc, ◌+◌, ◌≤◌, String, ◌≡◌, refl, Option, none, some, [], ◌∷◌, ◌++◌, arith, leb, eq_iff,
  if◌then◌else◌, length,
}
use app_launcher_lite.Prelude.Dict.{Dict, get, del, NodupKeys}
use app_launcher_lite.Lockout.{Streak, drop_forgotten, pop_oldest}

-- The last failures rise along the table from `lo` up to `t`, and no deadline is further off than
-- `cap` from the last failure.
abbrev pub Chronicle : ℕ → ℕ → ℕ → Dict Streak → Type 0
Chronicle cap lo t [] = lo ≤ t
Chronicle cap lo t ((_, k) ∷ d) =
    (lo ≤ k.last_failure) × (k.deadline ≤ k.last_failure + cap) × Chronicle cap k.last_failure t d

module _ (cap : ℕ) where
  pub Chronicle-mono :
      (lo lo' t : ℕ) (d : Dict Streak) → lo ≤ lo' → Chronicle cap lo' t d → Chronicle cap lo t d
  Chronicle-mono lo lo' t [] h c = omega arith
  Chronicle-mono lo lo' t ((j, k) ∷ d) h c = (omega arith, c.1, c.2)

  pub Chronicle-del :
      (key : String) (lo t : ℕ) (d : Dict Streak)
      → Chronicle cap lo t d
      → Chronicle cap lo t (del key d)
  unfolding del
  Chronicle-del key lo t [] c = c
  Chronicle-del key lo t ((j, k) ∷ d) c =
      ground (arith, Chronicle-mono lo k.last_failure t d, Chronicle-del key k.last_failure t d c.2)

  pub Chronicle-drop :
      (forget now lo t : ℕ) (d : Dict Streak)
      → Chronicle cap lo t d
      → Chronicle cap lo t (drop_forgotten forget now d)
  unfolding drop_forgotten
  Chronicle-drop forget now lo t [] c = c
  Chronicle-drop forget now lo t ((j, k) ∷ d) c = ground (
    arith,
    Chronicle-mono lo k.last_failure t (drop_forgotten forget now d),
    Chronicle-drop forget now k.last_failure t d c.2,
  )

  pub Chronicle-pop :
      (lo t : ℕ) (d : Dict Streak) → Chronicle cap lo t d → Chronicle cap lo t (pop_oldest d)
  unfolding pop_oldest
  Chronicle-pop lo t [] c = c
  Chronicle-pop lo t ((j, k) ∷ d) c = Chronicle-mono lo k.last_failure t d c.0 c.2

  -- A failure at `now`, no earlier than all others, goes to the end.
  pub Chronicle-snoc :
      (key : String) (lo t : ℕ) (k : Streak) (d : Dict Streak)
      → Chronicle cap lo t d
      → t ≤ k.last_failure
      → k.deadline ≤ k.last_failure + cap
      → Chronicle cap lo k.last_failure (d ++ (key, k) ∷ [])
  Chronicle-snoc key lo t k [] c h b = (omega arith, b, omega arith)
  Chronicle-snoc key lo t k ((j, i) ∷ d) c h b =
      (c.0, c.1, Chronicle-snoc key i.last_failure t k d c.2 h b)

  -- What the table says of one of its streaks.
  pub Chronicle-get :
      (key : String) (lo t : ℕ) (k : Streak) (d : Dict Streak)
      → Chronicle cap lo t d
      → get key d ≡ some k
      → (k.last_failure ≤ t) × (k.deadline ≤ k.last_failure + cap) × (lo ≤ t)
  unfolding get
  Chronicle-get key lo t k [] c e = cc
  Chronicle-get key lo t k ((j, i) ∷ d) c e =
      ground
        (arith, Chronicle-get key i.last_failure t k d c.2, Chronicle-le i.last_failure t d c.2)
    where
      Chronicle-le : (lo' t' : ℕ) (d' : Dict Streak) → Chronicle cap lo' t' d' → lo' ≤ t'
      Chronicle-le lo' t' [] c' = c'
      Chronicle-le lo' t' ((_, m) ∷ d') c' = omega (arith, Chronicle-le m.last_failure t' d' c'.2)

module _ (forget now : ℕ) where
  pub length-drop-le : (d : Dict Streak) → length (drop_forgotten forget now d) ≤ length d
  unfolding drop_forgotten
  length-drop-le [] = omega arith
  length-drop-le ((j, k) ∷ d) = ground (arith, length-drop-le d)

  pub absent-drop :
      (key : String) (d : Dict Streak)
      → get key d ≡ none
      → get key (drop_forgotten forget now d) ≡ none
  unfolding get drop_forgotten
  absent-drop key [] h = refl
  absent-drop key ((j, k) ∷ d) h = ground (arith, absent-drop key d)

  pub drop-NodupKeys : (d : Dict Streak) → NodupKeys d → NodupKeys (drop_forgotten forget now d)
  unfolding drop_forgotten
  drop-NodupKeys [] h = tt
  drop-NodupKeys ((j, k) ∷ d) h = ground (arith, drop-NodupKeys d h.1)

pub length-pop : (d : Dict Streak) {n : ℕ} → length d ≤ suc n → length (pop_oldest d) ≤ n
unfolding pop_oldest
length-pop [] h = omega arith
length-pop (_ ∷ d) h = omega arith

pub get-pop_none :
    (key : String) (d : Dict Streak) → get key d ≡ none → get key (pop_oldest d) ≡ none
unfolding get pop_oldest
get-pop_none key [] h = refl
get-pop_none key ((j, k) ∷ d) h = ground arith

pub pop-NodupKeys : (d : Dict Streak) → NodupKeys d → NodupKeys (pop_oldest d)
unfolding pop_oldest
pop-NodupKeys [] h = tt
pop-NodupKeys (_ ∷ d) h = h.1

-- A streak as a caller sees it at `u`: a forgotten one is gone.
abbrev pub fresh : ℕ → ℕ → Option Streak → Option Streak
fresh forget u none = none
fresh forget u (some k) = if leb (k.last_failure + forget) u then none else some k

-- What `_make_room` forgets at `now` is forgotten at any later instant too.
pub fresh-drop :
    (forget now u : ℕ) (key : String) (d : Dict Streak)
    → now ≤ u
    → NodupKeys d
    → fresh forget u (get key (drop_forgotten forget now d)) ≡ fresh forget u (get key d)
unfolding get drop_forgotten
fresh-drop forget now u key [] h v = refl
fresh-drop forget now u key ((j, k) ∷ d) h v =
    ground (arith, fresh-drop forget now u key d h v.1, absent-drop forget now key d, eq_iff j key)
