-- ===== src/Jobs/Registry/Written/Parameters.antt =====
-- `Param.to_dict` and `param_from_dict` of src/jobs/config_models.py, one after the other.
use app_launcher_lite.Prelude.{
  String, ◌==◌, ◌≡◌, refl, sym, ◌∙◌, ap, Bool, true, false, not, ◌&&◌, ◌||◌, Option, none, some,
  List, [], ◌∷◌, ◌++◌, arith, eq_iff, eq_refl, Bool-cases, inl, inr, is_some,
}
use app_launcher_lite.Prelude.Lists.{append_nil, append_assoc}
use app_launcher_lite.Prelude.Dict.{Dict, get, NodupKeys}
use app_launcher_lite.Prelude.Member.{member, member-append}
use app_launcher_lite.Prelude.Json.{Json, Members, lookup, has_key, truth}
use app_launcher_lite.Jobs.Job.{Param}
use app_launcher_lite.Jobs.Registry.Checked.{ok}
use app_launcher_lite.Jobs.Registry.Python.{
  Python, strip, is_param_name, is_param_flag, is_env_name,
}
use app_launcher_lite.Jobs.Registry.Params.{
  param_kinds, validate_default, full_texts, distinct_texts, enum_options, no_options, options_of,
  matched, required_of, param_of, param_from_dict, names_of, param_rows, params_from_dict,
}
use app_launcher_lite.Jobs.Registry.Schedules.{add_field}
use app_launcher_lite.Jobs.Registry.Argv.{is_there}
use app_launcher_lite.Jobs.Registry.Rows.Ranges.{Distinct}
use app_launcher_lite.Jobs.Registry.Written.{
  row_of, text_items, text_json, option_json, options_json, param_fields, param_to_dict,
  param_items, params_json,
}
use app_launcher_lite.Jobs.Registry.Written.Parts.{value_or_null, lookup-row_of, text_back}

-- The options of an enum are there, distinct and not empty; another kind has none.
abbrev pub OptionsFit : String → Option (List String) → Type 0
OptionsFit kind none = (kind == "enum") ≡ false
OptionsFit kind (some []) = ⊥
OptionsFit kind (some (x ∷ xs)) = ((kind == "enum") ≡ true) × Distinct (x ∷ xs)

full_texts_back : (xs : List String) → Distinct xs → full_texts (text_items xs) ≡ true
unfolding full_texts text_items
full_texts_back [] h = refl
full_texts_back (x ∷ xs) (new, full, later) = rw (full, full_texts_back xs later) refl

distinct_texts_back :
    (out xs : List String)
    → Distinct xs
    → ((k : String) → member k xs ≡ true → member k out ≡ false)
    → distinct_texts out (text_items xs) ≡ ok (out ++ xs)
unfolding distinct_texts text_items member
distinct_texts_back out [] h apart = ap (λ l. ok l) (sym (append_nil out))
distinct_texts_back out (x ∷ xs) (new, full, later) apart = rw (apart x (rw (eq_refl x) refl)) (
    distinct_texts_back (out ++ x ∷ []) xs later
      (λ k m. ground (arith, apart k, member-append k out (x ∷ []), eq_iff x k, new))
    ∙ ap (λ l. ok l) (append_assoc out (x ∷ []) xs))

enum_back :
    (x : String) (xs : List String)
    → Distinct (x ∷ xs)
    → enum_options (options_json (some (x ∷ xs))) ≡ ok (some (x ∷ xs))
unfolding enum_options options_json text_items member
enum_back x xs h =
    rw (full_texts_back (x ∷ xs) h, distinct_texts_back [] (x ∷ xs) h (λ k m. refl)) refl

no_options_back : no_options (options_json none) ≡ ok none
unfolding no_options options_json
no_options_back = refl

options_back :
    (kind : String) (o : Option (List String))
    → OptionsFit kind o
    → options_of kind (options_json o) ≡ ok o
unfolding options_of
options_back kind none h = rw h no_options_back
options_back kind (some []) h = absurd h
options_back kind (some (x ∷ xs)) (e, h) = rw e (enum_back x xs h)

-- A text that is there is not empty and passes its pattern.
abbrev pub Matches : (String → Bool) → Option String → Type 0
Matches test none = Unit
Matches test (some s) = ((s == "") ≡ false) × (test s ≡ true)

matched_back :
    (test : String → Bool) (message : String) (o : Option String)
    → Matches test o
    → matched test message (option_json o) ≡ ok o
unfolding matched option_json text_json
matched_back test message none h = refl
matched_back test message (some s) (full, passes) = rw full (rw passes refl)

-- What a parameter must have to be read back; a required one has no default.
pub record IsParam (py : Python) (p : Param) : Type 0 where
  pub named : is_param_name p.name ≡ true
  pub name_stripped : strip p.name ≡ p.name
  pub known : member p.kind param_kinds ≡ true
  pub kind_stripped : strip p.kind ≡ p.kind
  pub options_fit : OptionsFit p.kind p.options
  pub flagged : Matches is_param_flag p.flag
  pub variable : Matches is_env_name p.env
  pub exclusive : (is_some p.flag && is_some p.env) ≡ false
  pub mapped : ((p.kind == "bool") && not (is_some p.flag) && not (is_some p.env)) ≡ false
  pub default_read : validate_default py p.kind p.options p.default ≡ ok p.default
  pub required_plain : p.required ≡ true → p.default ≡ Json.null

param_fields-NodupKeys : (p : Param) → NodupKeys (param_fields p)
unfolding param_fields get
param_fields-NodupKeys p = (refl, (refl, (refl, (refl, (refl, (refl, (refl, tt)))))))

param_found :
    (p : Param) (k : String) → lookup k (param_to_dict p) ≡ value_or_null (get k (param_fields p))
unfolding param_to_dict
param_found p k = lookup-row_of k (param_fields p) (param_fields-NodupKeys p)

step_present :
    (k j : String) (v : Json) (rest : Members)
    → has_key k rest ≡ is_there (lookup k rest)
    → has_key k (add_field j v rest) ≡ is_there (lookup k (add_field j v rest))
unfolding has_key lookup add_field is_there
step_present k j Json.null rest h = h
step_present k j (Json.bool b) rest h = ground (arith, h)
step_present k j (Json.int n) rest h = ground (arith, h)
step_present k j (Json.real r) rest h = ground (arith, h)
step_present k j (Json.str t) rest h = ground (arith, h)
step_present k j (Json.array xs) rest h = ground (arith, h)
step_present k j (Json.object d) rest h = ground (arith, h)

-- A key of a written row is there exactly when its value is not `null`.
key_present : (k : String) (d : Dict Json) → has_key k (row_of d) ≡ is_there (lookup k (row_of d))
unfolding row_of has_key lookup is_there
key_present k [] = refl
key_present k ((j, v) ∷ d) = step_present k j v (row_of d) (key_present k d)

required_present : (p : Param) → has_key "required" (param_to_dict p) ≡ not p.required
unfolding param_to_dict is_there value_or_null param_fields get
required_present p =
    key_present "required" (param_fields p)
    ∙ ap is_there (param_found p "required")
    ∙ elim (Bool-cases p.required) [ inl e ↦ rw e refl | inr e ↦ rw e refl ]

required_back :
    (p : Param)
    → (p.required ≡ true → p.default ≡ Json.null)
    → required_of (param_to_dict p) p.default ≡ p.required
unfolding required_of value_or_null param_fields get truth
required_back p plain =
    rw (required_present p, param_found p "required")
      (elim (Bool-cases p.required) [ inl e ↦ rw (e, plain e) refl | inr e ↦ rw e refl ])

param_back : (py : Python) (p : Param) → IsParam py p → param_of py (param_to_dict p) ≡ ok p
unfolding param_of param_fields value_or_null get
param_back py p h =
    rw
      (
        param_found p "name",
        param_found p "kind",
        param_found p "options",
        param_found p "flag",
        param_found p "env",
        param_found p "default",
        text_back py p.name,
        text_back py p.kind,
        h.name_stripped,
        h.kind_stripped,
        h.named,
        h.known,
        options_back p.kind p.options h.options_fit,
        matched_back is_param_flag "the flag must look like --foo" p.flag h.flagged,
        matched_back is_env_name "env must be UPPER_SNAKE_CASE" p.env h.variable,
        h.exclusive,
        h.mapped,
        h.default_read,
        required_back p h.required_plain,
      )
      refl

-- Parameters with different names, each of which is read back.
abbrev pub AllParams : Python → List Param → Type 0
AllParams py [] = Unit
AllParams py (p ∷ ps) = IsParam py p × (member p.name (names_of ps) ≡ false) × AllParams py ps

names_of-append :
    (k : String) (ps : List Param) (p : Param)
    → member k (names_of (ps ++ p ∷ [])) ≡ (member k (names_of ps) || (p.name == k))
unfolding names_of member
names_of-append k [] p = ground arith
names_of-append k (q ∷ ps) p = ground (arith, names_of-append k ps p)

row_back :
    (py : Python) (p : Param)
    → IsParam py p
    → param_from_dict py (Json.object (param_to_dict p)) ≡ ok p
unfolding param_from_dict
row_back py p h = param_back py p h

param_rows_back :
    (py : Python) (out ps : List Param)
    → AllParams py ps
    → ((k : String) → member k (names_of ps) ≡ true → member k (names_of out) ≡ false)
    → param_rows py out (param_items ps) ≡ ok (out ++ ps)
unfolding param_rows param_items names_of member
param_rows_back py out [] h apart = ap (λ l. ok l) (sym (append_nil out))
param_rows_back py out (p ∷ ps) (back, new, later) apart =
    rw (row_back py p back, apart p.name (rw (eq_refl p.name) refl))
      (param_rows_back py (out ++ p ∷ []) ps later
          (λ k m. ground (arith, apart k, names_of-append k out p, eq_iff p.name k, new))
        ∙ ap (λ l. ok l) (append_assoc out (p ∷ []) ps))

pub params_back :
    (py : Python) (ps : List Param) → AllParams py ps → params_from_dict py (params_json ps) ≡ ok ps
unfolding params_from_dict params_json names_of member
params_back py [] h = refl
params_back py (p ∷ ps) h = param_rows_back py [] (p ∷ ps) h (λ k m. refl)
