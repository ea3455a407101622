-- ===== src/Environment/Entries.antt =====
-- The entries that `_merge` of src/env_path.py keeps, and their order.
use app_launcher_lite.Prelude.{
  String, ◌==◌, ◌≡◌, refl, ap, ◌∙◌, Bool, true, false, not, ◌&&◌, List, [], ◌∷◌, ◌++◌, map, eq_iff,
  eq_refl, if◌then◌else◌, arith,
}
use app_launcher_lite.Prelude.Member.{member}
use app_launcher_lite.Jobs.Registry.Python.{Python}
use app_launcher_lite.Prelude.Texts.{split}
use app_launcher_lite.Environment.{tidy_entry, merge_entries, chunk_entries}

-- The keys of the entries that are not blank.
unfoldable pub keys_of : Python → List String → List String
keys_of py [] = []
keys_of py (raw ∷ rest) =
    let later = keys_of py rest in
    if tidy_entry raw == "" then later else py.lower (tidy_entry raw) ∷ later

-- No text stands twice.
abbrev pub Distinct : List String → Type 0
Distinct [] = Unit {0}
Distinct (x ∷ xs) = (member x xs ≡ false) × Distinct xs

member-merge_entries :
    (py : Python) (k : String) (seen entries : List String)
    → member k (map py.lower (merge_entries py seen entries))
      ≡ (not (member k seen) && member k (keys_of py entries))
unfolding merge_entries member keys_of
member-merge_entries py k seen [] = ground arith
member-merge_entries py k seen (raw ∷ rest) =
    let key = py.lower (tidy_entry raw) in
    ground (
      arith,
      member-merge_entries py k seen rest,
      member-merge_entries py k (key ∷ seen) rest,
      eq_iff key k,
      same_member key k seen,
    )
  where
    same_member : (a b : String) (l : List String) → (a == b) ≡ true → member a l ≡ member b l
    same_member a b l e = ap (λ x. member x l) ((eq_iff a b).0 e)

no_more : (k : String) (l m : List String) → (not (member k (k ∷ l)) && member k m) ≡ false
unfolding member
no_more k l m = rw (eq_refl k) refl

taken_or_not :
    (py : Python) (blank known : Bool) (e : String) (skipped taken : List String)
    → Distinct (map py.lower skipped)
    → Distinct (map py.lower (e ∷ taken))
    → Distinct (map py.lower (if blank then skipped else if known then skipped else e ∷ taken))
taken_or_not py true known e skipped taken d f = d
taken_or_not py false true e skipped taken d f = d
taken_or_not py false false e skipped taken d f = f

merge_entries-Distinct :
    (py : Python) (seen entries : List String)
    → Distinct (map py.lower (merge_entries py seen entries))
unfolding merge_entries
merge_entries-Distinct py seen [] = tt
merge_entries-Distinct py seen (raw ∷ rest) =
    let key = py.lower (tidy_entry raw) in
    taken_or_not py (tidy_entry raw == "") (member key seen) (tidy_entry raw)
      (merge_entries py seen rest) (merge_entries py (key ∷ seen) rest)
      (merge_entries-Distinct py seen rest)
      (
        member-merge_entries py key (key ∷ seen) rest ∙ no_more key seen (keys_of py rest),
        merge_entries-Distinct py (key ∷ seen) rest,
      )

-- The keys after some entries.
unfoldable pub seen_after : Python → List String → List String → List String
seen_after py seen [] = seen
seen_after py seen (raw ∷ rest) =
    let key = py.lower (tidy_entry raw) in
    let same = seen_after py seen rest in
    let more = seen_after py (key ∷ seen) rest in
    if tidy_entry raw == "" then same else if member key seen then same else more

merge_entries-append :
    (py : Python) (seen xs ys : List String)
    → merge_entries py seen (xs ++ ys)
      ≡ merge_entries py seen xs ++ merge_entries py (seen_after py seen xs) ys
unfolding merge_entries seen_after
merge_entries-append py seen [] ys = refl
merge_entries-append py seen (raw ∷ rest) ys = ground (
  arith,
  merge_entries-append py seen rest ys,
  merge_entries-append py (py.lower (tidy_entry raw) ∷ seen) rest ys,
)

-- The merged search path begins with what the inherited path alone gives; its entries have
-- distinct keys, the keys being the entries in lower case, and the keys are exactly those of the
-- tidied entries that are not blank.
pub merge_entries_lem :
    (py : Python) (inherited : String) (others : List String) (k : String)
    → let merged = merge_entries py [] (chunk_entries (inherited ∷ others)) in
      (added : List String) × (merged ≡ merge_entries py [] (split ";" inherited) ++ added)
      × Distinct (map py.lower merged)
      × (member k (map py.lower merged)
          ≡ member k (keys_of py (chunk_entries (inherited ∷ others))))
unfolding chunk_entries member
merge_entries_lem py inherited others k =
    let first = split ";" inherited in
    let rest = chunk_entries others in
    (
      merge_entries py (seen_after py [] first) rest,
      merge_entries-append py [] first rest,
      merge_entries-Distinct py [] (first ++ rest),
      member-merge_entries py k [] (first ++ rest),
    )
