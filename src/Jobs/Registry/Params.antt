-- ===== src/Jobs/Registry/Params.antt =====
-- src/jobs/config_models.py: the declared parameters of a job; and the webhook block of
-- src/jobs/webhook.py.
use app_launcher_lite.Prelude.{
  String, ◌==◌, Bool, true, false, not, ◌&&◌, Option, none, some, List, [], ◌∷◌, ◌++◌,
  if◌then◌else◌, is_some,
}
use app_launcher_lite.Prelude.Dict.{Dict, put}
use app_launcher_lite.Prelude.Member.{member}
use app_launcher_lite.Prelude.Json.{
  Json, Items, Members, nil, cons, end, field, lookup, has_key, truth,
}
use app_launcher_lite.Jobs.Job.{Param, WebhookConfig}
use app_launcher_lite.Jobs.Registry.{malformed}
use app_launcher_lite.Jobs.Registry.Checked.{Checked, ok, err, ◌>>=◌, ◌>>◌, need}
use app_launcher_lite.Jobs.Registry.Python.{
  Python, strip, text_of, is_param_name, is_param_flag, is_env_name, is_date,
}

-- `PARAM_KINDS`
abbrev pub param_kinds : List String
param_kinds = "string" ∷ "int" ∷ "enum" ∷ "bool" ∷ "date" ∷ []

-- `default in (options or [])`, of a text
unfoldable pub is_option : Option (List String) → String → Bool
is_option none s = false
is_option (some options) s = member s options

-- Whether `_validate_default` accepts a value of a kind.
unfoldable pub default_fits : Python → String → Option (List String) → Json → Bool
unfolding is_option is_date
default_fits py kind options (Json.str s) =
    if kind == "string"
    then true
    else if kind == "enum"
    then is_option options s
    else (kind == "date") && is_date py s
default_fits py kind options (Json.int n) = kind == "int"
default_fits py kind options (Json.bool b) = kind == "bool"
default_fits py kind options _ = false

-- `_validate_default`, for a default that is there.
unfoldable pub validate_default : Python → String → Option (List String) → Json → Checked Json
unfolding default_fits
validate_default py kind options Json.null = ok Json.null
validate_default py kind options v = do
  need (default_fits py kind options v) "the default does not fit the kind"
  ok v

-- `all(isinstance(o, str) and o for o in raw_options)`
unfoldable pub full_texts : Items → Bool
full_texts nil = true
full_texts (cons (Json.str s) rest) = let later = full_texts rest in not (s == "") && later
full_texts (cons _ rest) = false

-- The loop that refuses a duplicate; `out` is also the set of the options seen.
unfoldable pub distinct_texts : List String → Items → Checked (List String)
distinct_texts out nil = ok out
distinct_texts out (cons (Json.str s) rest) = do
  need (not (member s out)) "duplicate option"
  distinct_texts (out ++ s ∷ []) rest
distinct_texts out (cons _ rest) = err (malformed "options must be non-empty strings")

unfoldable pub enum_options : Json → Checked (Option (List String))
unfolding full_texts distinct_texts
enum_options (Json.array (cons o rest)) = do
  need (full_texts (cons o rest)) "options must be non-empty strings"
  out ← distinct_texts [] (cons o rest)
  ok (some out)
enum_options _ = err (malformed "kind=enum requires a non-empty options list")

unfoldable pub no_options : Json → Checked (Option (List String))
no_options Json.null = ok none
no_options (Json.array nil) = ok none
no_options _ = err (malformed "options only valid for kind=enum")

unfoldable pub options_of : String → Json → Checked (Option (List String))
unfolding enum_options no_options
options_of kind raw = if kind == "enum" then enum_options raw else no_options raw

-- A text that must match, or nothing.
unfoldable pub matched : (String → Bool) → String → Json → Checked (Option String)
matched test message Json.null = ok none
matched test message (Json.str s) = do need (test s) message; ok (some s)
matched test message _ = err (malformed message)

-- `bool(raw["required"])`, or whether there is no default.
unfoldable pub required_of : Members → Json → Bool
unfolding has_key lookup truth
required_of d default =
    if has_key "required" d
    then truth (lookup "required" d)
    else elim default [ Json.null ↦ true | _ ↦ false ]

unfoldable pub param_of : Python → Members → Checked Param
unfolding strip text_of is_param_name is_param_flag is_env_name lookup options_of matched
    validate_default required_of
param_of py d = do
  let name = strip (text_of py (lookup "name" d))
  need (is_param_name name) "param name must be snake_case"
  let kind = strip (text_of py (lookup "kind" d))
  need (member kind param_kinds) "the kind must be one of the kinds"
  options ← options_of kind (lookup "options" d)
  flag ← matched is_param_flag "the flag must look like --foo" (lookup "flag" d)
  env ← matched is_env_name "env must be UPPER_SNAKE_CASE" (lookup "env" d)
  need (not (is_some flag && is_some env)) "flag and env are mutually exclusive"
  need (not ((kind == "bool") && not (is_some flag) && not (is_some env)))
      "kind=bool requires either a flag or an env mapping"
  default ← validate_default py kind options (lookup "default" d)
  ok (record {
    name = name;
    kind = kind;
    default = default;
    required = required_of d default;
    options = options;
    flag = flag;
    env = env;
  })

-- `param_from_dict`
unfoldable pub param_from_dict : Python → Json → Checked Param
unfolding param_of
param_from_dict py (Json.object d) = param_of py d
param_from_dict py _ = err (malformed "param row must be an object")

unfoldable pub names_of : List Param → List String
names_of [] = []
names_of (p ∷ ps) = p.name ∷ names_of ps

-- The loop of `params_from_dict`; the names seen are those of the result so far.
unfoldable pub param_rows : Python → List Param → Items → Checked (List Param)
unfolding param_from_dict names_of
param_rows py result nil = ok result
param_rows py result (cons row rest) = do
  param ← param_from_dict py row
  need (not (member param.name (names_of result))) "duplicate param name"
  param_rows py (result ++ param ∷ []) rest

-- `params_from_dict`
unfoldable pub params_from_dict : Python → Json → Checked (List Param)
unfolding param_rows
params_from_dict py Json.null = ok []
params_from_dict py (Json.array rows) = param_rows py [] rows
params_from_dict py _ = err (malformed "params must be a list")

-- `PROVIDERS`
abbrev pub providers : List String
providers = "github" ∷ "stripe" ∷ "generic" ∷ []

unfoldable pub mapping_rows : Dict String → Members → Checked (Dict String)
mapping_rows mapping end = ok mapping
mapping_rows mapping (field key (Json.str path) rest) = do
  need (not (key == "")) "webhook.mapping keys must be non-empty strings"
  need (not (path == "")) "webhook.mapping must have non-empty JSONPath strings"
  mapping_rows (put key path mapping) rest
mapping_rows mapping (field key _ rest) = err (
    malformed (
      if key == ""
      then "webhook.mapping keys must be non-empty strings"
      else "webhook.mapping must have non-empty JSONPath strings"))

unfoldable pub mapping_of : Json → Checked (Dict String)
unfolding mapping_rows
mapping_of Json.null = ok []
mapping_of (Json.object d) = mapping_rows [] d
mapping_of _ = err (malformed "webhook.mapping must be an object")

unfoldable pub event_rows : List String → Items → Checked (List String)
event_rows events nil = ok events
event_rows events (cons (Json.str e) rest) = do
  need (not (e == "")) "webhook.events entries must be non-empty strings"
  event_rows (events ++ e ∷ []) rest
event_rows events (cons _ rest) = err (malformed "webhook.events entries must be non-empty strings")

unfoldable pub events_of : Json → Checked (List String)
unfolding event_rows
events_of Json.null = ok []
events_of (Json.array xs) = event_rows [] xs
events_of _ = err (malformed "webhook.events must be a list")

-- `webhook_from_dict`
unfoldable pub webhook_from_dict : Python → Json → Checked (Option WebhookConfig)
unfolding strip text_of lookup mapping_of events_of
webhook_from_dict py Json.null = ok none
webhook_from_dict py (Json.object d) = do
  let provider = strip (text_of py (lookup "provider" d))
  need (member provider providers) "webhook.provider must be one of the providers"
  let secret = strip (text_of py (lookup "secret" d))
  need (not (secret == "")) "webhook.secret is required"
  mapping ← mapping_of (lookup "mapping" d)
  events ← events_of (lookup "events" d)
  ok (some (record { provider = provider; secret = secret; mapping = mapping; events = events }))
webhook_from_dict py _ = err (malformed "webhook must be an object")
