-- ===== src/Jobs/Secrets.antt =====
-- src/jobs/secrets.py: the `$secret:` references of a job's environment and of its webhook.
pub mod Overlay
use Prim.Native.Char.{Char, code}
use app_launcher_lite.Prelude.{
  String, ◌==◌, Bool, Option, none, some, List, [], ◌∷◌, eqb, if◌then◌else◌,
}
use app_launcher_lite.Prelude.Dict
use app_launcher_lite.Prelude.Dict.{Dict}
use app_launcher_lite.Jobs.Trigger.{after_prefix}
use app_launcher_lite.Jobs.Registry.{malformed}
use app_launcher_lite.Jobs.Registry.Checked.{Checked, ok, err, ◌>>=◌}

abbrev pub onto : Char → Option String → Option String
onto c none = none
onto c (some s) = some (String.◌∷◌ c s)

-- `(.*)$`: a text of one line, whose final line feed is left out.
unfoldable pub one_line : String → Option String
one_line String.[] = some ""
one_line (String.◌∷◌ c s) =
    let rest = one_line s in
    if eqb (code c) 10 then (if s == "" then some "" else none) else onto c rest

-- The text is not empty.
abbrev pub not_blank : Option String → Option String
not_blank none = none
not_blank (some s) = if s == "" then none else some s

-- SECRET_REF_RE.match(value): the key.
unfoldable pub secret_key : String → Option String
unfolding after_prefix one_line
secret_key value = elim (after_prefix "$secret:" value) [
  | none ↦ none
  | some rest ↦ not_blank (one_line rest)
]

unfoldable pub stored_secret : Dict String → String → Checked String
unfolding Dict.get
stored_secret secrets key = elim (Dict.get key secrets) [
  | none ↦ err (malformed "secret not found")
  | some v ↦ ok v
]

-- `resolve_secret_value`
unfoldable pub resolve_secret_value : Dict String → String → Checked String
unfolding secret_key stored_secret
resolve_secret_value secrets value = elim (secret_key value) [
  | none ↦ ok value
  | some key ↦ stored_secret secrets key
]

-- `resolve_env_overlay`, whose values are texts.
unfoldable pub resolve_env_overlay : Dict String → Dict String → Checked (Dict String)
unfolding resolve_secret_value
resolve_env_overlay secrets [] = ok []
resolve_env_overlay secrets ((name, value) ∷ env) = do
  v ← resolve_secret_value secrets value
  rest ← resolve_env_overlay secrets env
  ok ((name, v) ∷ rest)
