-- ===== src/Environment.antt =====
-- src/env_path.py: the search path that the agents are resolved against.
pub mod Entries
use Prim.Native.Char.{Char}
use app_launcher_lite.Prelude.{
  ℕ, ◌-◌, ◌*◌, ltb, String, ◌==◌, Bool, true, false, not, ◌&&◌, ◌||◌, Option, none, some, List, [],
  ◌∷◌, ◌++◌, if◌then◌else◌,
}
use app_launcher_lite.Prelude.Member.{member}
use app_launcher_lite.Prelude.Texts.{split, drop_right, join}
use app_launcher_lite.Jobs.History.{second}
use app_launcher_lite.Jobs.Registry.Python.{Python, strip, is_char}

abbrev pub is_separator : Char → Bool
is_separator c = is_char "\\" c || is_char "/" c

unfoldable pub ends_in_colon : String → Bool
ends_in_colon String.[] = false
ends_in_colon (String.◌∷◌ c String.[]) = is_char ":" c
ends_in_colon (String.◌∷◌ c (String.◌∷◌ d s)) = ends_in_colon (String.◌∷◌ d s)

-- One entry without outer spaces, and without its last separators but on a drive's root.
unfoldable pub tidy_entry : String → String
unfolding strip drop_right ends_in_colon
tidy_entry raw =
    let entry = strip raw in
    let bare = drop_right is_separator entry in if ends_in_colon bare then entry else bare

-- The loop of `_merge` over the entries of all chunks; `seen` are the keys so far.
unfoldable pub merge_entries : Python → List String → List String → List String
unfolding tidy_entry member
merge_entries py seen [] = []
merge_entries py seen (raw ∷ rest) =
    let entry = tidy_entry raw in
    let key = py.lower entry in
    let skipped = merge_entries py seen rest in
    let taken = merge_entries py (key ∷ seen) rest in
    if entry == "" then skipped else if member key seen then skipped else entry ∷ taken

unfoldable pub chunk_entries : List String → List String
unfolding split
chunk_entries [] = []
chunk_entries (chunk ∷ chunks) = split ";" chunk ++ chunk_entries chunks

-- `_merge`
unfoldable pub merge_paths : Python → List String → String
unfolding merge_entries chunk_entries join
merge_paths py chunks = join ";" (merge_entries py [] (chunk_entries chunks))

-- `_cached` and `_cached_at`
pub record PathCache : Type 0 where
  pub cached : Option String
  pub cached_at : ℕ

-- `_CACHE_TTL_S`
abbrev pub cache_ttl : ℕ
cache_ttl = 10 * second

abbrev pub merged_registry : Python → Option (String × String) → String
merged_registry py none = ""
merged_registry py (some (machine, user)) = merge_paths py (machine ∷ user ∷ [])

-- The registry is read: `registry` are the values of the machine and the user, unless the read fails.
unfoldable pub reread : Python → Option (String × String) → ℕ → String × PathCache
unfolding merge_paths
reread py registry now =
    let value = merged_registry py registry in
    (value, record { cached = some value; cached_at = now })

abbrev pub cached_path :
    Python → Option (String × String) → ℕ → PathCache → Option String → String × PathCache
cached_path py registry now c none = reread py registry now
cached_path py registry now c (some value) =
    if ltb (now - c.cached_at) cache_ttl then (value, c) else reread py registry now

-- `_registry_path`
unfoldable pub registry_path :
    Python → Option (String × String) → Bool → ℕ → PathCache → String × PathCache
unfolding reread
registry_path py registry refresh now c =
    if refresh then reread py registry now else cached_path py registry now c c.cached

-- `effective_path`
unfoldable pub effective_path :
    Python → Bool → String → Option (String × String) → Bool → ℕ → PathCache → String × PathCache
unfolding registry_path merge_paths
effective_path py on_windows inherited registry refresh now c =
    if on_windows
    then (let (value, c') = registry_path py registry refresh now c in
        (merge_paths py (inherited ∷ value ∷ []), c'))
    else (inherited, c)
