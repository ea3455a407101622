-- ===== src/Jobs/Webhook/Mapping.antt =====
-- src/jobs/webhook.py: the parameters that the payload of a webhook gives, `resolve_mapping`.
use Prim.Native.Char.{Char, code}
use Prim.Native.String.{◌++◌ as append}
use app_launcher_lite.Prelude.{
  ℕ, zero, suc, eqb, String, ◌==◌, Bool, ◌&&◌, ◌||◌, Option, none, some, List, [], ◌∷◌,
  if◌then◌else◌,
}
use app_launcher_lite.Prelude.Int.{ℤ, pos}
use app_launcher_lite.Prelude.Dict
use app_launcher_lite.Prelude.Dict.{Dict}
use app_launcher_lite.Prelude.Json.{Json, Items, nil, cons, lookup}
use app_launcher_lite.Prelude.Texts.{split}
use app_launcher_lite.Jobs.Trigger.{after_prefix}
use app_launcher_lite.Jobs.Registry.Python.{Python, str_of, is_char, is_letter, is_ascii_digit}
use app_launcher_lite.Jobs.Schtasks.Fires.{Readers}

abbrev pub onto_list : String → Option (List String) → Option (List String)
onto_list x none = none
onto_list x (some xs) = some (x ∷ xs)

-- `(?:\[\d+\])*$`: the digits of each index; inside a bracket, with the digits so far.
unfoldable pub indices : (Char → Bool) → Option String → String → Option (List String)
indices digit none String.[] = some []
indices digit (some ds) String.[] = none
indices digit none (String.◌∷◌ c s) =
    let inside = indices digit (some "") s in
    if is_char "[" c then inside else if eqb (code c) 10 && (s == "") then some [] else none
indices digit (some ds) (String.◌∷◌ c s) =
    let closed = indices digit none s in
    let next = indices digit (some (append ds (String.◌∷◌ c String.[]))) s in
    if is_char "]" c
    then (if ds == "" then none else onto_list ds closed)
    else if digit c
    then next
    else none

abbrev pub onto_name : Char → Option (String × List String) → Option (String × List String)
onto_name c none = none
onto_name c (some (name, ds)) = some (String.◌∷◌ c name, ds)

abbrev pub unnamed : Option (List String) → Option (String × List String)
unnamed none = none
unnamed (some ds) = some ("", ds)

-- `[A-Za-z0-9_]*` and the indices behind it
unfoldable pub name_then : (Char → Bool) → String → Option (String × List String)
unfolding indices
name_then digit String.[] = some ("", [])
name_then digit (String.◌∷◌ c s) =
    let rest = name_then digit s in
    if is_letter c || is_ascii_digit c || is_char "_" c
    then onto_name c rest
    else unnamed (indices digit none (String.◌∷◌ c s))

-- _PATH_SEGMENT_RE.match(segment): the name, and the digits of the indices.
unfoldable pub segment_of : (Char → Bool) → String → Option (String × List String)
unfolding name_then
segment_of digit String.[] = none
segment_of digit (String.◌∷◌ c s) =
    if is_letter c || is_char "_" c then onto_name c (name_then digit s) else none

-- node[name]; a missing key is `null`, which the walk leaves out too.
unfoldable pub at_name : String → Json → Option Json
unfolding lookup
at_name name (Json.object d) = some (lookup name d)
at_name name _ = none

unfoldable pub item_at : ℕ → Items → Option Json
item_at n nil = none
item_at zero (cons x xs) = some x
item_at (suc n) (cons x xs) = item_at n xs

unfoldable pub char_at : ℕ → String → Option Json
char_at n String.[] = none
char_at zero (String.◌∷◌ c s) = some (Json.str (String.◌∷◌ c String.[]))
char_at (suc n) (String.◌∷◌ c s) = char_at n s

-- node[int(idx)], of a list or of a text
unfoldable pub at_index : Option ℤ → Json → Option Json
unfolding item_at char_at
at_index (some (pos n)) (Json.array xs) = item_at n xs
at_index (some (pos n)) (Json.str s) = char_at n s
at_index _ _ = none

unfoldable pub at_indices : Readers → List String → Json → Option Json
unfolding at_index
at_indices r [] node = some node
at_indices r (ds ∷ rest) node = elim (at_index (r.int_of ds) node) [
  | none ↦ none
  | some x ↦ at_indices r rest x
]

abbrev pub walk_segment : Readers → Option (String × List String) → Json → Option Json
walk_segment r none node = none
walk_segment r (some (name, ds)) node = elim (at_name name node) [
  | none ↦ none
  | some x ↦ at_indices r ds x
]

unfoldable pub walk_segments : Readers → (Char → Bool) → List String → Json → Option Json
unfolding segment_of at_name at_indices
walk_segments r digit [] node = some node
walk_segments r digit (s ∷ rest) node = elim (walk_segment r (segment_of digit s) node) [
  | none ↦ none
  | some x ↦ walk_segments r digit rest x
]

-- `_walk_path`; `none` is any of the errors that its caller catches.
unfoldable pub walk_path : Readers → (Char → Bool) → Json → String → Option Json
unfolding after_prefix split walk_segments
walk_path r digit payload path = elim (after_prefix "$." path) [
  | none ↦ none
  | some rest ↦ walk_segments r digit (split "." rest) payload
]

-- What is kept of the value at a path: nothing of `null`, else its text.
unfoldable pub kept_text : Python → Option Json → Option String
unfolding str_of
kept_text py none = none
kept_text py (some Json.null) = none
kept_text py (some v) = some (str_of py v)

abbrev pub keep : String → Option String → Dict String → Dict String
keep name none out = out
keep name (some v) out = Dict.put name v out

-- The loop of `resolve_mapping`.
unfoldable pub map_entries : Readers → Python → Json → Dict String → Dict String → Dict String
unfolding walk_path kept_text Dict.put
map_entries r py payload [] out = out
map_entries r py payload ((name, path) ∷ mapping) out =
    map_entries r py payload mapping
      (keep name (kept_text py (walk_path r py.is_digit payload path)) out)

-- `resolve_mapping`
unfoldable pub resolve_mapping : Readers → Python → Json → Dict String → Dict String
unfolding map_entries
resolve_mapping r py (Json.object d) mapping = map_entries r py (Json.object d) mapping []
resolve_mapping r py (Json.array xs) mapping = map_entries r py (Json.array xs) mapping []
resolve_mapping r py payload mapping = []
