-- ===== src/Jobs/Registry/Rows/Ranges.antt =====
-- The numbers and the chain lists that the checks of src/jobs/config_models.py let through.
use app_launcher_lite.Prelude.{
  ℕ, zero, suc, leb, ◌≤◌, String, ◌==◌, ◌≡◌, refl, sym, ◌∙◌, ap, subst, false, not, Option, none,
  some, List, [], ◌∷◌, ◌++◌, if◌then◌else◌, arith, eq_iff, Bool-cases, inl, inr,
}
use app_launcher_lite.Prelude.Int.{pos, negsuc}
use app_launcher_lite.Prelude.Member.{member, member-append}
use app_launcher_lite.Prelude.Json.{Json, Items, nil, cons, equals_zero}
use app_launcher_lite.Jobs.Registry.{malformed}
use app_launcher_lite.Jobs.Registry.Checked.{ok, err, need, >>=-ok, need-true, ok-injective}
use app_launcher_lite.Jobs.Registry.Python.{strip}
use app_launcher_lite.Jobs.Registry.Fields.{
  seconds_up_to, validate_cooldown, validate_watchdog_seconds, chain_entry, chain_entries,
  validate_chain_list, max_cooldown_seconds, max_watchdog_seconds,
}

-- The number, if there is one, is in the range.
abbrev pub InRange : ℕ → ℕ → Option ℕ → Type 0
InRange lo hi none = Unit
InRange lo hi (some n) = (lo ≤ n) × (n ≤ hi)

-- No text stands twice, and none is empty.
abbrev pub Distinct : List String → Type 0
Distinct [] = Unit
Distinct (x ∷ xs) = (member x xs ≡ false) × ((x == "") ≡ false) × Distinct xs

within :
    (lo n most : ℕ) (o : Option ℕ)
    → lo ≤ n
    → (if leb n most then ok (some n) else err (malformed "seconds above the limit")) ≡ ok o
    → InRange lo most o
within lo n most none low e = absurd (ground arith)
within lo n most (some m) low e = ground arith

seconds_up_to-InRange :
    (lo most : ℕ) (raw : Json) (o : Option ℕ)
    → ((n : ℕ) → raw ≡ Json.int (pos n) → lo ≤ n)
    → seconds_up_to most raw ≡ ok o
    → InRange lo most o
unfolding seconds_up_to
seconds_up_to-InRange lo most (Json.int (pos n)) o low e = within lo n most o (low n refl) e
seconds_up_to-InRange lo most (Json.int (negsuc n)) o low e = absurd (cc e)
seconds_up_to-InRange lo most Json.null o low e = absurd (cc e)
seconds_up_to-InRange lo most (Json.bool b) o low e = absurd (cc e)
seconds_up_to-InRange lo most (Json.real r) o low e = absurd (cc e)
seconds_up_to-InRange lo most (Json.str t) o low e = absurd (cc e)
seconds_up_to-InRange lo most (Json.array xs) o low e = absurd (cc e)
seconds_up_to-InRange lo most (Json.object d) o low e = absurd (cc e)

positive : (raw : Json) (n : ℕ) → equals_zero raw ≡ false → raw ≡ Json.int (pos n) → 1 ≤ n
unfolding equals_zero
positive raw zero z e = absurd (cc (subst (λ v. equals_zero v ≡ false) e z))
positive raw (suc n) z e = omega arith

zero_or_range :
    (raw : Json) (o : Option ℕ)
    → (if equals_zero raw then ok none else seconds_up_to max_cooldown_seconds raw) ≡ ok o
    → InRange 1 max_cooldown_seconds o
zero_or_range raw o = elim (Bool-cases (equals_zero raw)) [
  | inl z ↦ rw z (λ e. subst (InRange 1 max_cooldown_seconds) (ok-injective none o e) tt)
  | inr z ↦ rw z (seconds_up_to-InRange 1 max_cooldown_seconds raw o (λ n. positive raw n z))
]

pub validate_cooldown-InRange :
    (raw : Json) (o : Option ℕ) → validate_cooldown raw ≡ ok o → InRange 1 max_cooldown_seconds o
unfolding validate_cooldown
validate_cooldown-InRange Json.null o e =
    subst (InRange 1 max_cooldown_seconds) (ok-injective none o e) tt
validate_cooldown-InRange (Json.int n) o e = zero_or_range (Json.int n) o e
validate_cooldown-InRange (Json.bool b) o e = zero_or_range (Json.bool b) o e
validate_cooldown-InRange (Json.real r) o e = zero_or_range (Json.real r) o e
validate_cooldown-InRange (Json.str t) o e = zero_or_range (Json.str t) o e
validate_cooldown-InRange (Json.array xs) o e = zero_or_range (Json.array xs) o e
validate_cooldown-InRange (Json.object d) o e = zero_or_range (Json.object d) o e

any_seconds :
    (raw : Json) (o : Option ℕ)
    → seconds_up_to max_watchdog_seconds raw ≡ ok o
    → InRange 0 max_watchdog_seconds o
any_seconds raw o e = seconds_up_to-InRange 0 max_watchdog_seconds raw o (λ n same. omega arith) e

pub validate_watchdog_seconds-InRange :
    (raw : Json) (o : Option ℕ)
    → validate_watchdog_seconds raw ≡ ok o
    → InRange 0 max_watchdog_seconds o
unfolding validate_watchdog_seconds
validate_watchdog_seconds-InRange Json.null o e =
    subst (InRange 0 max_watchdog_seconds) (ok-injective none o e) tt
validate_watchdog_seconds-InRange (Json.int n) o e = any_seconds (Json.int n) o e
validate_watchdog_seconds-InRange (Json.bool b) o e = any_seconds (Json.bool b) o e
validate_watchdog_seconds-InRange (Json.real r) o e = any_seconds (Json.real r) o e
validate_watchdog_seconds-InRange (Json.str t) o e = any_seconds (Json.str t) o e
validate_watchdog_seconds-InRange (Json.array xs) o e = any_seconds (Json.array xs) o e
validate_watchdog_seconds-InRange (Json.object d) o e = any_seconds (Json.object d) o e

snoc-Distinct :
    (xs : List String) (x : String)
    → Distinct xs
    → member x xs ≡ false
    → (x == "") ≡ false
    → Distinct (xs ++ x ∷ [])
unfolding member
snoc-Distinct [] x h new full = (refl, full, tt)
snoc-Distinct (y ∷ xs) x h new full =
    ground (arith, snoc-Distinct xs x h.2, member-append y xs (x ∷ []), eq_iff y x, eq_iff x y)

full_entry :
    (s x : String)
    → (if s == "" then err (malformed "every entry must be a non-empty job id") else ok s) ≡ ok x
    → (x == "") ≡ false
full_entry s x = elim (Bool-cases (s == "")) [
  | inl e ↦ rw e (λ h. absurd (cc h))
  | inr e ↦ rw e (λ h. ap (λ y. y == "") (sym (ok-injective s x h)) ∙ e)
]

chain_entry-nonempty : (raw : Json) (x : String) → chain_entry raw ≡ ok x → (x == "") ≡ false
unfolding chain_entry
chain_entry-nonempty (Json.str s) x e = full_entry (strip s) x e
chain_entry-nonempty Json.null x e = absurd (cc e)
chain_entry-nonempty (Json.int n) x e = absurd (cc e)
chain_entry-nonempty (Json.bool b) x e = absurd (cc e)
chain_entry-nonempty (Json.real r) x e = absurd (cc e)
chain_entry-nonempty (Json.array xs) x e = absurd (cc e)
chain_entry-nonempty (Json.object d) x e = absurd (cc e)

chain_entries-Distinct :
    (out : List String) (entries : Items) (xs : List String)
    → Distinct out
    → chain_entries out entries ≡ ok xs
    → Distinct xs
unfolding chain_entries
chain_entries-Distinct out nil xs h e = subst Distinct (ok-injective out xs e) h
chain_entries-Distinct out (cons raw rest) xs h e =
    let (x, entry, later) = >>=-ok (chain_entry raw) _ e in
    let (u, new, last) = >>=-ok (need (not (member x out)) "duplicate entry") _ later in
    let fresh = need-true (not (member x out)) "duplicate entry" new in
    chain_entries-Distinct (out ++ x ∷ []) rest xs
      (snoc-Distinct out x h (ground (arith, fresh)) (chain_entry-nonempty raw x entry)) last

pub validate_chain_list-Distinct :
    (raw : Json) (xs : List String) → validate_chain_list raw ≡ ok xs → Distinct xs
unfolding validate_chain_list
validate_chain_list-Distinct Json.null xs e = subst Distinct (ok-injective [] xs e) tt
validate_chain_list-Distinct (Json.array entries) xs e = chain_entries-Distinct [] entries xs tt e
validate_chain_list-Distinct (Json.int n) xs e = absurd (cc e)
validate_chain_list-Distinct (Json.bool b) xs e = absurd (cc e)
validate_chain_list-Distinct (Json.real r) xs e = absurd (cc e)
validate_chain_list-Distinct (Json.str t) xs e = absurd (cc e)
validate_chain_list-Distinct (Json.object d) xs e = absurd (cc e)
