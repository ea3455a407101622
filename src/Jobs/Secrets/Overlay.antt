-- ===== src/Jobs/Secrets/Overlay.antt =====
-- What `resolve_env_overlay` of src/jobs/secrets.py answers, variable by variable.
use app_launcher_lite.Prelude.{
  String, ◌==◌, ◌≡◌, subst, Bool, true, false, Option, none, some, [], ◌∷◌, if◌then◌else◌,
}
use app_launcher_lite.Prelude.Dict
use app_launcher_lite.Prelude.Dict.{Dict}
use app_launcher_lite.Jobs.Registry.Checked.{ok, >>=-ok, ok-injective}
use app_launcher_lite.Jobs.Secrets.{resolve_secret_value, resolve_env_overlay}

-- What the child sees of a variable, from what the job has.
abbrev pub Resolved : Dict String → Option String → Option String → Type 0
Resolved secrets none none = Unit {0}
Resolved secrets none (some v) = ⊥
Resolved secrets (some value) none = ⊥
Resolved secrets (some value) (some v) = resolve_secret_value secrets value ≡ ok v

head_or_rest :
    (secrets : Dict String) (value v : String) (here : Bool) (before after : Option String)
    → resolve_secret_value secrets value ≡ ok v
    → Resolved secrets before after
    → Resolved secrets (if here then some value else before) (if here then some v else after)
head_or_rest secrets value v true before after e h = e
head_or_rest secrets value v false before after e h = h

-- Each variable of the child is the resolved value of the variable of the same name among the
-- job's, and no other is set.
pub resolve_env_overlay-Resolved :
    (secrets env out : Dict String) (name : String)
    → resolve_env_overlay secrets env ≡ ok out
    → Resolved secrets (Dict.get name env) (Dict.get name out)
unfolding resolve_env_overlay Dict.get
resolve_env_overlay-Resolved secrets [] out name e =
    subst (λ o. Resolved secrets none (Dict.get name o)) (ok-injective [] out e) tt
resolve_env_overlay-Resolved secrets ((k, value) ∷ env) out name e =
    let (v, e1, e2) = >>=-ok (resolve_secret_value secrets value) _ e in
    let (rest, e3, e4) = >>=-ok (resolve_env_overlay secrets env) _ e2 in
    subst (λ o. Resolved secrets (Dict.get name ((k, value) ∷ env)) (Dict.get name o))
      (ok-injective ((k, v) ∷ rest) out e4)
      (head_or_rest secrets value v (k == name) (Dict.get name env) (Dict.get name rest) e1
        (resolve_env_overlay-Resolved secrets env rest name e3))
