-- ===== src/Prelude/Texts.antt =====
-- Python's `partition`, `split`, `splitlines`, and `lstrip` and `rstrip` of given characters.
use Prim.Native.Char.{Char, code}
use Prim.Native.String.{String, compare as compare_text, ◌++◌ as append}
use Prim.Native.Nat.{ℕ, Ordering}
use mathlib.Core.Bool.{Bool, true, false, ◌&&◌, ◌||◌}
use mathlib.Core.Option.{Option, none, some}
use mathlib.Core.List.{List, [], ◌∷◌}
use app_launcher_lite.Prelude.Tests.{eqb, leb, if◌then◌else◌}

-- `c` at the head of both parts' first text.
abbrev pub before_first : Char → Option (String × String) → Option (String × String)
before_first c none = none
before_first c (some (head, tail)) = some (String.◌∷◌ c head, tail)

-- The texts before and after the first `sep`, as `s.partition(sep)` and `s.split(sep, 1)` have them.
unfoldable pub partition : Char → String → Option (String × String)
partition sep String.[] = none
partition sep (String.◌∷◌ c s) =
    let later = partition sep s in
    if eqb (code c) (code sep) then some (String.[], s) else before_first c later

-- `c` at the head of the first text.
abbrev pub onto_first : Char → List String → List String
onto_first c [] = String.◌∷◌ c String.[] ∷ []
onto_first c (s ∷ rest) = String.◌∷◌ c s ∷ rest

-- `s.split(sep)`
unfoldable pub split : Char → String → List String
split sep String.[] = String.[] ∷ []
split sep (String.◌∷◌ c s) =
    let rest = split sep s in
    if eqb (code c) (code sep) then String.[] ∷ rest else onto_first c rest

-- The line boundaries of `str.splitlines`.
abbrev pub is_break : ℕ → Bool
is_break n =
    (leb 10 n && leb n 13) || (leb 28 n && leb n 30) || eqb n 133 || eqb n 8232 || eqb n 8233

abbrev pub starts_line_feed : String → Bool
starts_line_feed String.[] = false
starts_line_feed (String.◌∷◌ c s) = eqb (code c) 10

-- `s.splitlines()`; a carriage return before a line feed is one boundary with it.
unfoldable pub splitlines : String → List String
splitlines String.[] = []
splitlines (String.◌∷◌ c s) =
    let rest = splitlines s in
    if eqb (code c) 13 && starts_line_feed s
    then rest
    else if is_break (code c)
    then String.[] ∷ rest
    else onto_first c rest

-- s.lstrip(chars)
unfoldable pub drop_left : (Char → Bool) → String → String
drop_left p String.[] = String.[]
drop_left p (String.◌∷◌ c s) = let rest = drop_left p s in if p c then rest else String.◌∷◌ c s

abbrev pub before_kept : (Char → Bool) → Char → String → String
before_kept p c String.[] = if p c then String.[] else String.◌∷◌ c String.[]
before_kept p c (String.◌∷◌ d s) = String.◌∷◌ c (String.◌∷◌ d s)

-- s.rstrip(chars)
unfoldable pub drop_right : (Char → Bool) → String → String
drop_right p String.[] = String.[]
drop_right p (String.◌∷◌ c s) = before_kept p c (drop_right p s)

-- Texts in ascending order of their code points, as `sorted` leaves them.
abbrev pub text_le : String → String → Bool
text_le a b = elim (compare_text a b) [ Ordering.gt ↦ false | _ ↦ true ]

unfoldable pub insert_text : String → List String → List String
insert_text s [] = s ∷ []
insert_text s (t ∷ rest) = if text_le s t then s ∷ t ∷ rest else t ∷ insert_text s rest

unfoldable pub sort_texts : List String → List String
unfolding insert_text
sort_texts [] = []
sort_texts (s ∷ rest) = insert_text s (sort_texts rest)

-- sep.join(xs)
unfoldable pub join : String → List String → String
join sep [] = ""
join sep (x ∷ []) = x
join sep (x ∷ y ∷ xs) = append x (append sep (join sep (y ∷ xs)))
