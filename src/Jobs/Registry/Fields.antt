-- ===== src/Jobs/Registry/Fields.antt =====
-- src/jobs/config_models.py: the checks of the single fields of a job's row.
use app_launcher_lite.Prelude.{
  ℕ, leb, String, ◌==◌, Bool, false, not, ◌&&◌, Option, none, some, List, [], ◌∷◌, ◌++◌,
  if◌then◌else◌,
}
use app_launcher_lite.Prelude.Int.{pos, negsuc}
use app_launcher_lite.Prelude.Dict.{Dict, put}
use app_launcher_lite.Prelude.Member.{member}
use app_launcher_lite.Prelude.Json.{
  Json, Items, Members, nil, cons, end, field, lookup, equals_zero,
}
use app_launcher_lite.Jobs.Registry.{malformed}
use app_launcher_lite.Jobs.Registry.Checked.{Checked, ok, err, ◌>>=◌, ◌>>◌, need}
use app_launcher_lite.Jobs.Registry.Python.{Python, strip, text_of, is_mutex_group, is_env_name}

-- `MAX_COOLDOWN_SECONDS`
abbrev pub max_cooldown_seconds : ℕ
max_cooldown_seconds = 86400

-- `MAX_WATCHDOG_SECONDS`
abbrev pub max_watchdog_seconds : ℕ
max_watchdog_seconds = 604800

-- The checks that the two kinds of limit share: an integer, not a `bool`, from 0 up to `most`.
unfoldable pub seconds_up_to : ℕ → Json → Checked (Option ℕ)
seconds_up_to most (Json.int (pos n)) =
    if leb n most then ok (some n) else err (malformed "seconds above the limit")
seconds_up_to most (Json.int (negsuc n)) = err (malformed "seconds must be >= 0")
seconds_up_to most raw = err (malformed "seconds must be a non-negative int")

-- `_validate_cooldown`
unfoldable pub validate_cooldown : Json → Checked (Option ℕ)
unfolding seconds_up_to equals_zero
validate_cooldown Json.null = ok none
validate_cooldown raw = if equals_zero raw then ok none else seconds_up_to max_cooldown_seconds raw

-- `_validate_watchdog_seconds`
unfoldable pub validate_watchdog_seconds : Json → Checked (Option ℕ)
unfolding seconds_up_to
validate_watchdog_seconds Json.null = ok none
validate_watchdog_seconds raw = seconds_up_to max_watchdog_seconds raw

-- The entry of a chain list: the stripped id.
unfoldable pub chain_entry : Json → Checked String
unfolding strip
chain_entry (Json.str s) =
    if strip s == "" then err (malformed "every entry must be a non-empty job id") else ok (strip s)
chain_entry _ = err (malformed "every entry must be a non-empty job id")

-- The loop of `_validate_chain_list`; `out` is also the set of the ids seen.
unfoldable pub chain_entries : List String → Items → Checked (List String)
unfolding chain_entry
chain_entries out nil = ok out
chain_entries out (cons entry rest) = do
  ident ← chain_entry entry
  need (not (member ident out)) "duplicate entry"
  chain_entries (out ++ ident ∷ []) rest

-- `_validate_chain_list`
unfoldable pub validate_chain_list : Json → Checked (List String)
unfolding chain_entries
validate_chain_list Json.null = ok []
validate_chain_list (Json.array entries) = chain_entries [] entries
validate_chain_list _ = err (malformed "the chain must be a list")

-- `_validate_mutex_group`
unfoldable pub validate_mutex_group : Json → Checked (Option String)
unfolding strip is_mutex_group
validate_mutex_group Json.null = ok none
validate_mutex_group (Json.str s) =
    if strip s == ""
    then ok none
    else if is_mutex_group (strip s)
    then ok (some (strip s))
    else err (malformed "mutex_group must be lowercase alnum + _/-")
validate_mutex_group _ = err (malformed "mutex_group must be a string")

-- The value of one variable of the overlay.
unfoldable pub env_value : String → Json → Checked String
unfolding is_env_name
env_value name (Json.str s) =
    if is_env_name name then ok s else err (malformed "env name must be UPPER_SNAKE_CASE")
env_value name _ = err (
    malformed (
      if is_env_name name
      then "env value must be a string"
      else "env name must be UPPER_SNAKE_CASE"))

unfoldable pub env_entries : Dict String → Members → Checked (Dict String)
unfolding env_value
env_entries env end = ok env
env_entries env (field name value rest) = do
  v ← env_value name value
  env_entries (put name v env) rest

-- `env_from_dict`
unfoldable pub env_from_dict : Json → Checked (Dict String)
unfolding env_entries
env_from_dict Json.null = ok []
env_from_dict (Json.object d) = env_entries [] d
env_from_dict _ = err (malformed "env must be an object")

-- `kind_config_from_dict`
unfoldable pub kind_config_from_dict : Json → Checked Members
kind_config_from_dict Json.null = ok end
kind_config_from_dict (Json.object d) = ok d
kind_config_from_dict _ = err (malformed "kind_config must be an object")

-- The names of `KINDS` in src/jobs_kinds/__init__.py.
abbrev pub kinds : List String
kinds = "python" ∷ "batch" ∷ "powershell" ∷ "shell-wsl" ∷ "inline-shell" ∷ "http-check" ∷ []

unfoldable pub is_ext : Json → Bool
is_ext (Json.str s) = member s (".ps1" ∷ ".bat" ∷ ".sh" ∷ [])
is_ext _ = false

-- `str(kind_config.get(key) or "").strip()` is not empty.
unfoldable pub has_text : Python → String → Members → Bool
unfolding strip text_of lookup
has_text py key d = not (strip (text_of py (lookup key d)) == "")

-- `validate_kind_shape`
unfoldable pub validate_kind_shape : Python → String → String → Members → Checked (Unit {0})
unfolding has_text is_ext
validate_kind_shape py kind script_path config =
    if not (kind == "") && not (member kind kinds)
    then err (malformed "unknown kind")
    else if kind == ""
    then (do
      need (not (script_path == "")) "script_path is required"
      need (member (py.lower (py.suffix script_path)) (".py" ∷ ".bat" ∷ []))
          "script_path must end .py or .bat")
    else if kind == "inline-shell"
    then (do
      need (script_path == "") "inline-shell jobs must not set script_path"
      need (has_text py "script_body" config) "inline-shell requires kind_config.script_body"
      need (is_ext (lookup "ext" config)) "inline-shell requires kind_config.ext")
    else if kind == "http-check"
    then (do
      need (script_path == "") "http-check jobs must not set script_path"
      need (has_text py "url" config) "http-check requires kind_config.url")
    else need (not (script_path == "")) "the kind requires script_path"
