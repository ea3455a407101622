-- ===== src/Prelude/Member.antt =====
-- Python's `in` on a list or a set of texts.
use Prim.Native.String.{String}
use mathlib.Core.Path.{◌≡◌, refl}
use mathlib.Core.Bool.{Bool, true, false, ◌||◌}
use mathlib.Core.List.{List, [], ◌∷◌, ◌++◌}
use native.Mathlib.Omega.{arith}
use text.Mathlib.Text.{◌==◌}
use text.Mathlib.TextEquality.{eq_iff}
use app_launcher_lite.Prelude.Tests.{if◌then◌else◌}

-- k in xs
unfoldable pub member : String → List String → Bool
member k [] = false
member k (x ∷ xs) = if x == k then true else member k xs

pub member-append :
    (k : String) (xs ys : List String) → member k (xs ++ ys) ≡ (member k xs || member k ys)
unfolding member
member-append k [] ys = refl
member-append k (x ∷ xs) ys = ground (arith, member-append k xs ys)

-- list(dict.fromkeys(xs)): the first occurrence of each text, in order.
unfoldable pub dedup_after : List String → List String → List String
unfolding member
dedup_after seen [] = []
dedup_after seen (x ∷ xs) =
    let rest = dedup_after (x ∷ seen) xs in if member x seen then rest else x ∷ rest

pub member-dedup_after :
    (k : String) (seen xs : List String)
    → member k (dedup_after seen xs) ≡ (if member k seen then false else member k xs)
unfolding member dedup_after
member-dedup_after k seen [] = ground arith
member-dedup_after k seen (x ∷ xs) = ground (arith, member-dedup_after k (x ∷ seen) xs, eq_iff x k)

abbrev pub dedup : List String → List String
dedup xs = dedup_after [] xs
