-- ===== src/Jobs/Registry/Argv.antt =====
-- src/jobs/argv.py: the values of a job's parameters as arguments and environment variables.
pub mod Values
pub mod Resolved
pub mod Composed
use app_launcher_lite.Prelude.{
  ℕ, ◌+◌, ◌-◌, ◌*◌, String, ◌==◌, Bool, true, false, not, ◌&&◌, ◌||◌, Option, none, some, List, [],
  ◌∷◌, ◌++◌, if◌then◌else◌,
}
use Prim.Native.Char.{Char}
use app_launcher_lite.Prelude.Int.{ℤ, pos, negsuc}
use app_launcher_lite.Prelude.Dict.{Dict, put}
use app_launcher_lite.Prelude.Member.{member}
use app_launcher_lite.Prelude.Json.{Json, Members, end, field, lookup, has_key, truth}
use app_launcher_lite.Jobs.Job.{Param}
use app_launcher_lite.Jobs.Registry.{malformed}
use app_launcher_lite.Jobs.Registry.Checked.{Checked, ok, err, ◌>>=◌, ◌>>◌, need}
use app_launcher_lite.Jobs.Registry.Python.{Python, strip, str_of, at_end, is_date}
use app_launcher_lite.Jobs.Registry.Params.{is_option, names_of}

-- `\d+$`
unfoldable pub all_digits : (Char → Bool) → String → Bool
unfolding at_end
all_digits digit String.[] = false
all_digits digit (String.◌∷◌ c s) = let rest = all_digits digit s in digit c && (at_end s || rest)

-- `_INT_RE`
unfoldable pub is_int_text : (Char → Bool) → String → Bool
unfolding all_digits
is_int_text digit String.[] = false
is_int_text digit (String.◌∷◌ c s) =
    if String.◌∷◌ c String.[] == "-" then all_digits digit s else all_digits digit (String.◌∷◌ c s)

-- What `_coerce` makes of a value of the kind `int`; `to_int` is Python's `int` of a text.
unfoldable pub coerce_int : Python → (String → ℤ) → Json → Checked Json
unfolding strip is_int_text
coerce_int py to_int (Json.int n) = ok (Json.int n)
coerce_int py to_int (Json.str s) =
    if is_int_text py.is_digit (strip s)
    then ok (Json.int (to_int (strip s)))
    else err (malformed "expected int")
coerce_int py to_int _ = err (malformed "expected int")

unfoldable pub coerce_bool : Python → Json → Checked Json
coerce_bool py (Json.bool b) = ok (Json.bool b)
coerce_bool py (Json.str s) =
    if member (py.lower s) ("true" ∷ "false" ∷ [])
    then ok (Json.bool (py.lower s == "true"))
    else err (malformed "expected bool")
coerce_bool py _ = err (malformed "expected bool")

unfoldable pub coerce_text : (String → Bool) → String → Json → Checked Json
coerce_text test message (Json.str s) = do need (test s) message; ok (Json.str s)
coerce_text test message _ = err (malformed message)

-- `_coerce`
unfoldable pub coerce : Python → (String → ℤ) → Param → Json → Checked Json
unfolding coerce_int coerce_bool coerce_text is_option is_date
coerce py to_int p v =
    if p.kind == "string"
    then coerce_text (λ s. true) "expected string" v
    else if p.kind == "int"
    then coerce_int py to_int v
    else if p.kind == "bool"
    then coerce_bool py v
    else if p.kind == "enum"
    then coerce_text (is_option p.options) "the value is not in the options" v
    else if p.kind == "date"
    then coerce_text (is_date py) "expected YYYY-MM-DD" v
    else err (malformed "unsupported kind")

-- `if value is not None`
unfoldable pub is_there : Json → Bool
is_there Json.null = false
is_there _ = true

-- `_resolve_value`; `null` is the `None` of a parameter that is left out.
unfoldable pub resolve_value : Python → (String → ℤ) → Members → Param → Checked Json
unfolding coerce has_key lookup is_there
resolve_value py to_int values p =
    if has_key p.name values
    then coerce py to_int p (lookup p.name values)
    else if is_there p.default
    then ok p.default
    else if p.required
    then err (malformed "the param is required")
    else ok Json.null

-- `_stringify`; `int(value)` of a value of the kind `int` is that integer.
unfoldable pub stringify : Python → Param → Json → String
unfolding str_of truth
stringify py p v = if p.kind == "bool" then (if truth v then "true" else "false") else str_of py v

-- An absent and an empty text are falsy.
abbrev pub text_or_blank : Option String → String
text_or_blank none = ""
text_or_blank (some s) = s

-- argv and the environment overlay
abbrev pub Composition : Type 0
Composition = List String × Dict String

-- What the loop of `compose_argv` adds for a parameter with a value.
unfoldable pub place : Python → Param → Json → Composition → Composition
unfolding stringify truth
place py p v (argv, env) =
    if not (text_or_blank p.env == "")
    then (argv, put (text_or_blank p.env) (stringify py p v) env)
    else if p.kind == "bool"
    then ((if truth v then argv ++ text_or_blank p.flag ∷ [] else argv), env)
    else if not (text_or_blank p.flag == "")
    then (argv ++ text_or_blank p.flag ∷ stringify py p v ∷ [], env)
    else (argv ++ stringify py p v ∷ [], env)

-- `if resolved is None: continue`
unfoldable pub place_resolved : Python → Param → Json → Composition → Composition
unfolding place is_there
place_resolved py p v out = if is_there v then place py p v out else out

unfoldable pub compose :
    Python → (String → ℤ) → Members → List Param → Composition → Checked Composition
unfolding resolve_value place_resolved
compose py to_int values [] out = ok out
compose py to_int values (p ∷ ps) out = do
  v ← resolve_value py to_int values p
  compose py to_int values ps (place_resolved py p v out)

-- `for key in values: if key not in declared`
unfoldable pub all_declared : List String → Members → Bool
all_declared declared end = true
all_declared declared (field k v rest) =
    let later = all_declared declared rest in member k declared && later

-- `compose_argv`
unfoldable pub compose_argv : Python → (String → ℤ) → List Param → Json → Checked Composition
unfolding all_declared names_of compose
compose_argv py to_int params (Json.object values) = do
  need (all_declared (names_of params) values) "unknown param"
  compose py to_int values params ([], [])
compose_argv py to_int params _ = err (malformed "params must be an object")
