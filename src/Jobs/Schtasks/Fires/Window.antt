-- ===== src/Jobs/Schtasks/Fires/Window.antt =====
-- What `upcoming_fires` of src/jobs/schtasks.py lists, against the instants that a schedule names.
use app_launcher_lite.Prelude.{
  ℕ, zero, suc, ◌<◌, eqb, ltb, leb, length, ◌≡◌, refl, ap, Bool, true, false, ◌&&◌, ◌||◌, inl, inr,
  Bool-cases, Option, none, some, List, [], ◌∷◌, arith,
}
use app_launcher_lite.Jobs.Job.{Schedule}
use app_launcher_lite.Jobs.Schtasks.Fires.{
  Readers, next_fire, is_frequent, walk_fires, upcoming_fires,
}
use app_launcher_lite.Jobs.Schtasks.Fires.Named.{fires, IsFirst}
use app_launcher_lite.Jobs.Schtasks.Fires.Least.{next_fire-IsFirst}

-- t in l
unfoldable pub has : ℕ → List ℕ → Bool
has t [] = false
has t (x ∷ l) = eqb x t || has t l

-- Each instant comes later than the one before, and the first one later than `start`.
abbrev pub Ascending : ℕ → List ℕ → Type 0
Ascending start [] = Unit {0}
Ascending start (x ∷ l) = (start < x) × Ascending x l

module _ (r : Readers) (s : Schedule) (end : ℕ) (sparse : is_frequent s ≡ false) where
  -- The instant is one that the schedule names, between the cursor and the end.
  abbrev named : ℕ → ℕ → Bool
  named cursor t = fires r s t && ltb cursor t && ltb t end

  abbrev Walked : ℕ → ℕ → ℕ → Type 0
  Walked room cursor t =
      length (walk_fires r s end room cursor) < room
      → has t (walk_fires r s end room cursor) ≡ named cursor t

  same_fires : (fire t : ℕ) → eqb fire t ≡ true → fires r s fire ≡ fires r s t
  same_fires fire t e = ap (fires r s) (ground arith)

  walk_fires-has : (room cursor t : ℕ) → Walked room cursor t
  unfolding walk_fires has
  walk_fires-has zero cursor t = λ h. elim h [ ]
  walk_fires-has (suc room) cursor t =
      go (next_fire r s cursor) refl (next_fire-IsFirst r s cursor sparse)
        (λ fire. walk_fires-has room fire t)
    where
      go :
          (o : Option ℕ)
          → next_fire r s cursor ≡ o
          → IsFirst (fires r s) cursor o
          → ((fire : ℕ) → Walked room fire t)
          → Walked (suc room) cursor t
      go none e first later = rw (e, walk_fires) (λ h. ground (arith, first t))
      go (some fire) e first later = elim (Bool-cases (leb end fire)) [
        | inl over ↦ rw (e, walk_fires, over) (λ h. ground (arith, first.2 t))
        | inr within ↦
            rw (e, walk_fires, within)
              (λ h. ground (arith, later fire, first.2 t, first.1, same_fires fire t))
      ]

  -- Also when the cap cuts the list.
  walk_fires-named :
      (room cursor t : ℕ) → has t (walk_fires r s end room cursor) ≡ true → named cursor t ≡ true
  unfolding walk_fires has
  walk_fires-named zero cursor t = λ h. cc
  walk_fires-named (suc room) cursor t =
      go (next_fire r s cursor) refl (next_fire-IsFirst r s cursor sparse)
        (λ fire. walk_fires-named room fire t)
    where
      go :
          (o : Option ℕ)
          → next_fire r s cursor ≡ o
          → IsFirst (fires r s) cursor o
          → ((fire : ℕ) → has t (walk_fires r s end room fire) ≡ true → named fire t ≡ true)
          → has t (walk_fires r s end (suc room) cursor) ≡ true
          → named cursor t ≡ true
      go none e first later = rw (e, walk_fires) (λ h. cc)
      go (some fire) e first later = elim (Bool-cases (leb end fire)) [
        | inl over ↦ rw (e, walk_fires, over) (λ h. cc)
        | inr within ↦
            rw (e, walk_fires, within)
              (λ h. ground (arith, later fire, first.0, first.1, same_fires fire t))
      ]

  walk_fires-Ascending : (room cursor : ℕ) → Ascending cursor (walk_fires r s end room cursor)
  unfolding walk_fires
  walk_fires-Ascending zero cursor = tt
  walk_fires-Ascending (suc room) cursor =
      go (next_fire r s cursor) refl (next_fire-IsFirst r s cursor sparse)
        (λ fire. walk_fires-Ascending room fire)
    where
      go :
          (o : Option ℕ)
          → next_fire r s cursor ≡ o
          → IsFirst (fires r s) cursor o
          → ((fire : ℕ) → Ascending fire (walk_fires r s end room fire))
          → Ascending cursor (walk_fires r s end (suc room) cursor)
      go none e first later = rw (e, Ascending) tt
      go (some fire) e first later = elim (Bool-cases (leb end fire)) [
        | inl over ↦ rw (e, over, Ascending) tt
        | inr within ↦ rw (e, within, Ascending) (first.0, later fire)
      ]

-- For a schedule that is neither of minutes nor hourly, a list of upcoming fires that is shorter
-- than its cap has exactly the instants that the schedule names after the start and before the
-- end, in ascending order.
pub upcoming_fires_lem :
    (r : Readers) (s : Schedule) (start end cap t : ℕ)
    → is_frequent s ≡ false
    → length (upcoming_fires r s start end cap) < cap
    → (has t (upcoming_fires r s start end cap) ≡ (fires r s t && ltb start t && ltb t end))
      × Ascending start (upcoming_fires r s start end cap)
unfolding upcoming_fires
upcoming_fires_lem r s start end cap t sparse short =
    let open_walk : length (walk_fires r s end cap start) < cap = rw sparse at short in
    rw sparse (
      walk_fires-has r s end sparse cap start t open_walk,
      walk_fires-Ascending r s end sparse cap start,
    )

pub upcoming_fires-named :
    (r : Readers) (s : Schedule) (start end cap t : ℕ)
    → is_frequent s ≡ false
    → has t (upcoming_fires r s start end cap) ≡ true
    → (fires r s t && ltb start t && ltb t end) ≡ true
unfolding upcoming_fires
upcoming_fires-named r s start end cap t sparse h =
    walk_fires-named r s end sparse cap start t (rw sparse at h)
