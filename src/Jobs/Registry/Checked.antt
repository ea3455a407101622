-- ===== src/Jobs/Registry/Checked.antt =====
-- The checks of src/jobs/config_models.py: a value, or the `ValueError`.
use app_launcher_lite.Prelude.{Bool, true, false, String, ◌≡◌, refl, ap}
use app_launcher_lite.Jobs.Registry.{Fault, malformed}

pub data Checked {ℓ} (A : Type ℓ) : Type ℓ where
  ok : A → Checked A
  err : Fault → Checked A

infixl 5 ◌>>=◌ ◌>>◌
abbrev pub ◌>>=◌ {ℓ κ} : {A : Type ℓ} {B : Type κ} → Checked A → (A → Checked B) → Checked B
ok a >>= f = f a
err e >>= f = err e

abbrev pub ◌>>◌ {ℓ} : {B : Type ℓ} → Checked (Unit {0}) → Checked B → Checked B
m >> k = m >>= λ _. k

-- `if not test: raise ValueError(message)`
abbrev pub need : Bool → String → Checked (Unit {0})
need true message = ok tt
need false message = err (malformed message)

-- A chain of checks that answers a value passed the first one.
pub >>=-ok {ℓ κ} :
    {A : Type ℓ} {B : Type κ} (m : Checked A) (f : A → Checked B) {b : B}
    → (m >>= f) ≡ ok b
    → (a : A) × (m ≡ ok a) × (f a ≡ ok b)
>>=-ok (ok a) f h = (a, refl, h)
>>=-ok (err e) f h = cc

pub need-true : (b : Bool) (message : String) {u : Unit {0}} → need b message ≡ ok u → b ≡ true
need-true true message h = refl
need-true false message h = cc

pub ok-injective {ℓ} : {A : Type ℓ} (a b : A) → ok a ≡ ok b → a ≡ b
ok-injective a b h = ap (λ m. elim m [ ok v ↦ v | err e ↦ a ]) h
