-- ===== src/Jobs/Trigger/Laws.antt =====
-- The round trip of src/jobs/trigger.py.
use Prim.Native.String.{◌++◌ as append}
use text.Mathlib.TextLemmas.{nil-append, cons-append}
use app_launcher_lite.Prelude.{
  String, ◌==◌, ◌≡◌, refl, ◌∙◌, ap, Bool, true, false, ◌||◌, some, none, Option, ◌≢◌, eq_refl,
  eq_iff, if◌then◌else◌, Bool-cases, inl, inr, is_some,
}
use app_launcher_lite.Jobs.Trigger.{
  after_prefix, chain_trigger_prefix, chain_trigger, chain_upstream_id, is_simple, is_valid_trigger,
}

pub after_prefix-append : (p s : String) → after_prefix p (append p s) ≡ some s
unfolding after_prefix
after_prefix-append String.[] s = ap (after_prefix String.[]) (nil-append s)
after_prefix-append (String.◌∷◌ c p) s =
    ap (after_prefix (String.◌∷◌ c p)) (cons-append c p s)
    ∙ rw (eq_refl (String.◌∷◌ c String.[])) (after_prefix-append p s)

not_empty : (s : String) → s ≢ "" → (s == "") ≡ false
not_empty s ne = elim (Bool-cases (s == "")) [ inl e ↦ absurd (ne ((eq_iff s "").0 e)) | inr e ↦ e ]

or_true : (a b : Bool) → b ≡ true → (a || b) ≡ true
or_true true b e = refl
or_true false b e = e

read_back : (i : String) → i ≢ "" → chain_upstream_id (chain_trigger i) ≡ some i
unfolding chain_upstream_id chain_trigger
read_back i ne =
    ap
      (λ o. elim o as (λ _. Option String) [
        | none ↦ none
        | some rest ↦ if rest == "" then none else some rest
      ])
      (after_prefix-append chain_trigger_prefix i)
    ∙ rw (not_empty i ne) refl

-- The upstream id of a chain trigger is read back, whatever text but the empty one it is, and the
-- trigger is a valid one.
pub chain_upstream_id-chain_trigger :
    (i : String)
    → i ≢ ""
    → (chain_upstream_id (chain_trigger i) ≡ some i) × (is_valid_trigger (chain_trigger i) ≡ true)
unfolding is_valid_trigger
chain_upstream_id-chain_trigger i ne =
    (read_back i ne, or_true (is_simple (chain_trigger i)) _ (ap is_some (read_back i ne)))
