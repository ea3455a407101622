-- ===== src/Jobs/Registry/Argv/Resolved.antt =====
-- What `_resolve_value` of src/jobs/argv.py answers: a given value, the default, or none.
use app_launcher_lite.Prelude.{String, ◌≡◌, ◌≢◌, refl, sym, true, false, Bool-cases, inl, inr}
use app_launcher_lite.Prelude.Int.{ℤ}
use app_launcher_lite.Prelude.Json.{Json, Members, lookup, has_key}
use app_launcher_lite.Jobs.Job.{Param}
use app_launcher_lite.Jobs.Registry.Checked.{ok, ok-injective}
use app_launcher_lite.Jobs.Registry.Python.{Python}
use app_launcher_lite.Jobs.Registry.Argv.{is_there, resolve_value}
use app_launcher_lite.Jobs.Registry.Argv.Values.{Takes, coerce-Takes, Takes-coerce}

-- The value of a parameter for the given values: the given one as it is taken, whatever the default;
-- else the default; else none, if the parameter may be left out.
pub data Resolves (py : Python) (to_int : String → ℤ) (values : Members) (p : Param) (w : Json)
    : Type 0 where
  given :
      has_key p.name values ≡ true
      → Takes py to_int p (lookup p.name values) w
      → Resolves py to_int values p w
  by_default :
      has_key p.name values ≡ false
      → p.default ≢ Json.null
      → w ≡ p.default
      → Resolves py to_int values p w
  left_out :
      has_key p.name values ≡ false
      → p.default ≡ Json.null
      → p.required ≡ false
      → w ≡ Json.null
      → Resolves py to_int values p w

there_or_null :
    (v : Json) → (is_there v ≡ true → v ≢ Json.null) × (is_there v ≡ false → v ≡ Json.null)
unfolding is_there
there_or_null Json.null = (λ h e. cc, λ h. refl)
there_or_null (Json.bool b) = (λ h e. cc, λ h. absurd (cc h))
there_or_null (Json.int n) = (λ h e. cc, λ h. absurd (cc h))
there_or_null (Json.real x) = (λ h e. cc, λ h. absurd (cc h))
there_or_null (Json.str s) = (λ h e. cc, λ h. absurd (cc h))
there_or_null (Json.array xs) = (λ h e. cc, λ h. absurd (cc h))
there_or_null (Json.object d) = (λ h e. cc, λ h. absurd (cc h))

pub resolve_value-Resolves :
    (py : Python) (to_int : String → ℤ) (values : Members) (p : Param) (w : Json)
    → resolve_value py to_int values p ≡ ok w
    → Resolves py to_int values p w
unfolding resolve_value
resolve_value-Resolves py to_int values p w e = elim (Bool-cases (has_key p.name values)) [
  | inl here ↦ given here (coerce-Takes py to_int p (lookup p.name values) w (rw here at e))
  | inr away ↦ elim (Bool-cases (is_there p.default)) [
    | inl default ↦
        by_default away ((there_or_null p.default).0 default)
          (sym (ok-injective p.default w (rw (away, default) at e)))
    | inr bare ↦ elim (Bool-cases p.required) [
      | inl required ↦ absurd (cc (rw (away, bare, required) at e))
      | inr free ↦
          left_out away ((there_or_null p.default).1 bare) free
            (sym (ok-injective Json.null w (rw (away, bare, free) at e)))
    ]
  ]
]

there : (v : Json) → v ≢ Json.null → is_there v ≡ true
there v ne = elim (Bool-cases (is_there v)) [
  | inl e ↦ e
  | inr e ↦ absurd (ne ((there_or_null v).1 e))
]

pub Resolves-resolve_value :
    (py : Python) (to_int : String → ℤ) (values : Members) (p : Param) (w : Json)
    → Resolves py to_int values p w
    → resolve_value py to_int values p ≡ ok w
unfolding resolve_value is_there
Resolves-resolve_value py to_int values p w (given here taken) =
    rw here (Takes-coerce py to_int p (lookup p.name values) w taken)
Resolves-resolve_value py to_int values p w (by_default away ne same) =
    rw (away, there p.default ne, same) refl
Resolves-resolve_value py to_int values p w (left_out away null free same) =
    rw (away, null, free, same) refl
