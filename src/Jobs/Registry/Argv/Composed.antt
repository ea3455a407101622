-- ===== src/Jobs/Registry/Argv/Composed.antt =====
-- What `compose_argv` of src/jobs/argv.py answers.
use app_launcher_lite.Prelude.{
  String, ◌==◌, ◌≡◌, ◌↔◌, ◌&&◌, some, Option, subst, Bool-cases, inl, inr, eq_iff, eq_refl, refl,
  sym, ◌∙◌, ap, Bool, true, false, not, ◌||◌, none, List, [], ◌∷◌, ◌++◌, if◌then◌else◌, arith,
}
use app_launcher_lite.Prelude.Int.{ℤ}
use app_launcher_lite.Prelude.Lists.{append_nil, append_assoc}
use app_launcher_lite.Prelude.Dict.{Dict, get, get-put}
use app_launcher_lite.Prelude.Json.{Json, Members, end, field, has_key, truth}
use app_launcher_lite.Prelude.Member.{member}
use app_launcher_lite.Jobs.Job.{Param}
use app_launcher_lite.Jobs.Registry.Checked.{ok, need, >>=-ok, need-true, ok-injective}
use app_launcher_lite.Jobs.Registry.Python.{Python, str_of}
use app_launcher_lite.Jobs.Registry.Params.{names_of}
use app_launcher_lite.Jobs.Registry.Argv.Resolved.{
  Resolves, resolve_value-Resolves, Resolves-resolve_value,
}
use app_launcher_lite.Jobs.Registry.Argv.{
  is_there, resolve_value, stringify, text_or_blank, Composition, place, place_resolved, compose,
  all_declared, compose_argv,
}

-- The parameter goes to the environment.
abbrev pub is_env_mapped : Param → Bool
is_env_mapped p = not (text_or_blank p.env == "")

-- The text of a value: `true` or `false` for a `bool`, and else Python's.
unfoldable pub shown : Python → Param → Json → String
shown py p v = if p.kind == "bool" then (if truth v then "true" else "false") else str_of py v

-- The arguments of one parameter: none when it is left out or goes to the environment, the flag
-- alone for a `bool`, and else the value after the flag if there is one.
unfoldable pub arguments : Python → Param → Json → List String
unfolding shown
arguments py p v =
    if not (is_there v) || is_env_mapped p
    then []
    else if p.kind == "bool"
    then (if truth v then text_or_blank p.flag ∷ [] else [])
    else if text_or_blank p.flag == ""
    then shown py p v ∷ []
    else text_or_blank p.flag ∷ shown py p v ∷ []

-- The arguments of all parameters, in the order of their declaration, for their values.
unfoldable pub all_arguments : Python → List Param → List Json → List String
unfolding arguments
all_arguments py (p ∷ ps) (v ∷ vs) = arguments py p v ++ all_arguments py ps vs
all_arguments py _ _ = []

abbrev pub or_if : Option String → Bool → String → Option String → Option String
or_if (some t) here text before = some t
or_if none here text before = if here then some text else before

-- The variable `k` of the overlay: the text of the last parameter with a value that is mapped to it.
unfoldable pub overlaid : Python → String → List Param → List Json → Option String
unfolding shown
overlaid py k (p ∷ ps) (v ∷ vs) =
    or_if (overlaid py k ps vs) (is_there v && is_env_mapped p && text_or_blank p.env == k)
      (shown py p v) none
overlaid py k _ _ = none

-- Each given name is declared.
abbrev pub Declared : List String → Members → Type 0
Declared names values = (k : String) → has_key k values ≡ true → member k names ≡ true

-- The parameters resolve to the values, one by one.
abbrev pub AllResolve : Python → (String → ℤ) → Members → List Param → List Json → Type 0
AllResolve py to_int values [] [] = Unit
AllResolve py to_int values (p ∷ ps) (v ∷ vs) =
    Resolves py to_int values p v × AllResolve py to_int values ps vs
AllResolve py to_int values _ _ = ⊥

all_declared-Declared :
    (names : List String) (values : Members)
    → all_declared names values ≡ true
    → Declared names values
unfolding all_declared has_key
all_declared-Declared names end e k h = cc
all_declared-Declared names (field j v rest) e k h = elim (Bool-cases (j == k)) [
  | inl same ↦ subst (λ x. member x names ≡ true) ((eq_iff j k).0 same) (ground (arith, e))
  | inr other ↦ all_declared-Declared names rest (ground (arith, e)) k (rw other at h)
]

Declared-all_declared :
    (names : List String) (values : Members)
    → Declared names values
    → all_declared names values ≡ true
unfolding all_declared has_key
Declared-all_declared names end d = refl
Declared-all_declared names (field j v rest) d =
    let first = d j (rw (eq_refl j) refl) in
    let later = Declared-all_declared names rest (λ k h. d k (ground (arith, h))) in
    rw (first, later) refl

place_resolved-arguments :
    (py : Python) (p : Param) (v : Json) (argv : List String) (env : Dict String)
    → (place_resolved py p v (argv, env)).0 ≡ argv ++ arguments py p v
unfolding place_resolved place arguments stringify shown
place_resolved-arguments py p v argv env = ground (arith, append_nil argv)

place_resolved-env :
    (py : Python) (p : Param) (v : Json) (argv : List String) (env : Dict String) (k : String)
    → get k (place_resolved py p v (argv, env)).1 ≡ (
        if is_there v && is_env_mapped p && text_or_blank p.env == k
        then some (shown py p v)
        else get k env)
unfolding place_resolved place stringify shown
place_resolved-env py p v argv env k =
    ground (arith, get-put (text_or_blank p.env) k (stringify py p v) env)

or_if-or_if :
    (o : Option String) (here : Bool) (text : String) (before : Option String)
    → or_if o false "" (if here then some text else before)
      ≡ or_if (or_if o here text none) false "" before
or_if-or_if (some t) here text before = refl
or_if-or_if none true text before = refl
or_if-or_if none false text before = refl

module _ (py : Python) (to_int : String → ℤ) (values : Members) where
  -- What the loop adds to the arguments and the overlay so far.
  abbrev Added : List Param → Composition → Composition → Type 0
  Added ps before after =
      (vs : List Json) × AllResolve py to_int values ps vs
      × (after.0 ≡ before.0 ++ all_arguments py ps vs)
      × ((k : String) → get k after.1 ≡ or_if (overlaid py k ps vs) false "" (get k before.1))

  cons-Added :
      (p : Param) (ps : List Param) (v : Json) (before after : Composition)
      → Resolves py to_int values p v
      → Added ps (place_resolved py p v before) after
      → Added (p ∷ ps) before after
  unfolding all_arguments overlaid
  cons-Added p ps v (argv, env) after e (vs, resolve, args, others) = (
    v ∷ vs,
    (e, resolve),
    args
        ∙ ap (λ l. l ++ all_arguments py ps vs) (place_resolved-arguments py p v argv env)
        ∙ append_assoc argv (arguments py p v) (all_arguments py ps vs),
    λ k.
        others k
        ∙ ap (or_if (overlaid py k ps vs) false "") (place_resolved-env py p v argv env k)
        ∙ or_if-or_if (overlaid py k ps vs)
            (is_there v && is_env_mapped p && text_or_blank p.env == k) (shown py p v) (get k env),
  )

  compose-Added :
      (ps : List Param) (before after : Composition)
      → compose py to_int values ps before ≡ ok after
      → Added ps before after
  unfolding compose all_arguments overlaid
  compose-Added [] before after e =
      let same = ok-injective before after e in
      (
        [],
        tt,
        ap (λ (o : Composition). o.0) (sym same) ∙ sym (append_nil before.0),
        λ k. ap (λ (o : Composition). get k o.1) (sym same),
      )
  compose-Added (p ∷ ps) before after e =
      let (v, resolved, rest) = >>=-ok (resolve_value py to_int values p) _ e in
      cons-Added p ps v before after (resolve_value-Resolves py to_int values p v resolved)
        (compose-Added ps (place_resolved py p v before) after rest)

  compose-answers :
      (ps : List Param) (vs : List Json) (before : Composition)
      → AllResolve py to_int values ps vs
      → (after : Composition) × (compose py to_int values ps before ≡ ok after)
  unfolding compose
  compose-answers [] [] before all = (before, refl)
  compose-answers [] (v ∷ vs) before all = absurd all
  compose-answers (p ∷ ps) [] before all = absurd all
  compose-answers (p ∷ ps) (v ∷ vs) before all =
      let (after, rest) = compose-answers ps vs (place_resolved py p v before) all.1 in
      (after, rw (Resolves-resolve_value py to_int values p v all.0) rest)

  -- What an answer has: the arguments and the variables of the values that the parameters resolve to.
  abbrev pub Composes : List Param → Composition → Type 0
  Composes params out =
      (vs : List Json) × AllResolve py to_int values params vs
      × (out.0 ≡ all_arguments py params vs)
      × ((k : String) → get k out.1 ≡ overlaid py k params vs)

  no_default : (o : Option String) → or_if o false "" none ≡ o
  no_default none = refl
  no_default (some t) = refl

  -- compose_argv answers exactly when every given name is declared and every declared parameter
  -- resolves to a value: the given one as its kind takes it, whatever the default; else the
  -- default; else none, if the parameter is not required. Then, for the values that they resolve
  -- to, the arguments are those of the parameters in the order of their declaration, and a
  -- variable of the overlay is the text of the last parameter with a value that is mapped to it,
  -- or absent if there is none.
  pub compose_argv_lem :
      (params : List Param)
      → let run = compose_argv py to_int params (Json.object values) in
        (((out : Composition) × (run ≡ ok out))
          ↔ Declared (names_of params) values
            × ((vs : List Json) × AllResolve py to_int values params vs))
        × ((out : Composition) → run ≡ ok out → Composes params out)
  unfolding compose_argv get
  compose_argv_lem params =
      let declared = all_declared (names_of params) values in
      (
        (
          λ (out, e).
              (let (u, d, rest) = >>=-ok (need declared "unknown param") _ e in
                let (vs, all, _, _) = compose-Added params ([], []) out rest in
                (
                  all_declared-Declared (names_of params) values
                      (need-true declared "unknown param" d),
                  (vs, all),
                )),
          λ (d, (vs, all)).
              rw (Declared-all_declared (names_of params) values d)
                (compose-answers params vs ([], []) all),
        ),
        λ out e.
            (let (u, d, rest) = >>=-ok (need declared "unknown param") _ e in
              let (vs, all, args, vars) = compose-Added params ([], []) out rest in
              (vs, all, args, λ k. vars k ∙ no_default (overlaid py k params vs))),
      )
