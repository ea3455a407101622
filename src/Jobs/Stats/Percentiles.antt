-- ===== src/Jobs/Stats/Percentiles.antt =====
-- `_percentile` of src/jobs/stats.py: the sorted list and the index into it.
use Prim.Native.Nat.{max, min, ◌*◌, ◌-◌}
use mathlib.Core.List.{Memᴰ}
use app_launcher_lite.Prelude.{
  ℕ, zero, suc, ◌<◌, ◌≡◌, refl, ◌∙◌, ap, some, List, [], ◌∷◌, arith, length, leb, Bool-cases, inl,
  inr,
}
use app_launcher_lite.Jobs.Stats.{insert, sort, get_elem?, round_hundredths, percentile}

length-insert : (x : ℕ) (ys : List ℕ) → length (insert x ys) ≡ suc (length ys)
unfolding insert
length-insert x [] = refl
length-insert x (y ∷ ys) = ground (arith, length-insert x ys)

length-sort : (xs : List ℕ) → length (sort xs) ≡ length xs
unfolding sort
length-sort [] = refl
length-sort (x ∷ xs) = length-insert x (sort xs) ∙ ap suc (length-sort xs)

moved_back :
    (z x y : ℕ) (ys : List ℕ)
    → (Memᴰ z (insert x ys) → Memᴰ z (x ∷ ys))
    → Memᴰ z (y ∷ insert x ys)
    → Memᴰ z (x ∷ y ∷ ys)
moved_back z x y ys back (Memᴰ.head e) = Memᴰ.tail (Memᴰ.head e)
moved_back z x y ys back (Memᴰ.tail n) = elim (back n) [
  | Memᴰ.head e ↦ Memᴰ.head e
  | Memᴰ.tail k ↦ Memᴰ.tail (Memᴰ.tail k)
]

member-insert : (z x : ℕ) (ys : List ℕ) → Memᴰ z (insert x ys) → Memᴰ z (x ∷ ys)
unfolding insert
member-insert z x [] m = m
member-insert z x (y ∷ ys) m = elim (Bool-cases (leb x y)) [
  | inl le ↦ rw le at m
  | inr gt ↦ moved_back z x y ys (member-insert z x ys) (rw gt at m)
]

member-sort : (z : ℕ) (xs : List ℕ) → Memᴰ z (sort xs) → Memᴰ z xs
unfolding sort
member-sort z [] m = m
member-sort z (x ∷ xs) m = elim (member-insert z x (sort xs) m) [
  | Memᴰ.head e ↦ Memᴰ.head e
  | Memᴰ.tail k ↦ Memᴰ.tail (member-sort z xs k)
]

found : (xs : List ℕ) (i : ℕ) → i < length xs → (x : ℕ) × (get_elem? xs i ≡ some x) × Memᴰ x xs
found [] i h = absurd (omega arith)
found (x ∷ xs) zero h = (x, refl, Memᴰ.head refl)
found (x ∷ xs) (suc i) h = let (y, e, m) = found xs i (omega arith) in (y, e, Memᴰ.tail m)

-- A percentile of durations is one of them, whatever the percentage: the index never leaves the
-- sorted list.
pub percentile_lem :
    (v : ℕ) (vs : List ℕ) (pct : ℕ) → (x : ℕ) × (percentile (v ∷ vs) pct ≡ some x) × Memᴰ x (v ∷ vs)
unfolding percentile
percentile_lem v vs pct =
    let s = sort (v ∷ vs) in
    let size : length s ≡ suc (length vs) = length-sort (v ∷ vs) in
    let i = max 0 (min (length s - 1) (round_hundredths (pct * (length s - 1)))) in
    let (x, e, m) = found s i (omega (arith, size)) in (x, e, member-sort x (v ∷ vs) m)
