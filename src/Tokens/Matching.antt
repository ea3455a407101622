-- ===== src/Tokens/Matching.antt =====
-- Which token of src/api_tokens.py a presented text matches.
use Prim.Native.String.{◌++◌ as append}
use text.Mathlib.TextLemmas.{cons-append, cons-ne-nil}
use mathlib.Core.List.{Memᴰ}
use mathlib.Core.Option.{some-injective}
use mathlib.Core.Bool.{true≢false}
use app_launcher_lite.Prelude.{
  ◌≢◌, ap, String, ◌==◌, ◌≡◌, refl, ◌∙◌, sym, subst, true, false, some, none, Option, List, [], ◌∷◌,
  ◌++◌, Bool-cases, inl, inr, arith, eq_refl, eq_iff,
}
use app_launcher_lite.Tokens.{
  Library, Fields, Row, dict, not_a_dict, Scope, everything, jobs, malformed, mint_token,
  well_scoped, is_token, parse_tokens, matches, first_match, find_match, touch_last_used,
}

first_match-some :
    (lib : Library) (p : String) (ts : List Fields) (t : Fields)
    → first_match lib p ts ≡ some t
    → Memᴰ t ts × (matches lib p t ≡ true)
unfolding first_match
first_match-some lib p [] t e = cc
first_match-some lib p (u ∷ ts) t e = elim (Bool-cases (matches lib p u)) [
  | inl on ↦
      let same : u ≡ t = some-injective u t (sym (taken on) ∙ e) in
      (Memᴰ.head (sym same), subst (λ x. matches lib p x ≡ true) same on)
  | inr off ↦
      let found = first_match-some lib p ts t (sym (passed off) ∙ e) in (Memᴰ.tail found.0, found.1)
]
  where
    taken : matches lib p u ≡ true → first_match lib p (u ∷ ts) ≡ some u
    taken on = rw on refl

    passed : matches lib p u ≡ false → first_match lib p (u ∷ ts) ≡ first_match lib p ts
    passed off = rw off refl

first_match-none :
    (lib : Library) (p : String) (ts : List Fields) (t : Fields)
    → first_match lib p ts ≡ none
    → Memᴰ t ts
    → matches lib p t ≡ false
unfolding first_match
first_match-none lib p [] t e m = elim m [ ]
first_match-none lib p (u ∷ ts) t e (Memᴰ.head same) =
    subst (λ x. matches lib p x ≡ false) (sym same) (ground (arith, e))
first_match-none lib p (u ∷ ts) t e (Memᴰ.tail m) =
    first_match-none lib p ts t (ground (arith, e)) m

-- What `parse_tokens` asks of a row: its id, salt and hash are texts, the scope is `"*"` or names
-- jobs, and the salt is hexadecimal.
pub record IsUsable (lib : Library) (t : Fields) : Type 0 where
  pub named : (t.id == "") ≡ false
  pub salted : (t.salt == "") ≡ false
  pub hashed : (t.hash == "") ≡ false
  pub scoped : (t.scope ≡ malformed) → ⊥
  pub hexadecimal : lib.is_hex t.salt ≡ true

scoped_or_malformed :
    (o : Scope)
    → (well_scoped o ≡ true → (o ≡ malformed) → ⊥) × ((o ≡ malformed → ⊥) → well_scoped o ≡ true)
scoped_or_malformed everything = (λ e h. cc, λ h. refl)
scoped_or_malformed (jobs ids) = (λ e h. cc, λ h. refl)
scoped_or_malformed malformed = (λ e h. cc, λ h. absurd (h refl))

is_token-IsUsable : (lib : Library) (t : Fields) → is_token lib t ≡ true → IsUsable lib t
unfolding is_token
is_token-IsUsable lib t e = record {
  named = ground (arith, e);
  salted = ground (arith, e);
  hashed = ground (arith, e);
  scoped = (scoped_or_malformed t.scope).0 (ground (arith, e));
  hexadecimal = ground (arith, e);
}

IsUsable-is_token : (lib : Library) (t : Fields) → IsUsable lib t → is_token lib t ≡ true
unfolding is_token
IsUsable-is_token lib t u =
    rw (u.named, u.salted, u.hashed, (scoped_or_malformed t.scope).1 u.scoped, u.hexadecimal) refl

first_or_later :
    (lib : Library) (f t : Fields) (rows : List Row)
    → is_token lib f ≡ true
    → (Memᴰ t (parse_tokens lib rows) → Memᴰ (dict t) rows × IsUsable lib t)
    → Memᴰ t (f ∷ parse_tokens lib rows)
    → Memᴰ (dict t) (dict f ∷ rows) × IsUsable lib t
first_or_later lib f t rows on rest (Memᴰ.head e) =
    (Memᴰ.head (ap dict e), subst (IsUsable lib) (sym e) (is_token-IsUsable lib f on))
first_or_later lib f t rows on rest (Memᴰ.tail later) =
    let (there, good) = rest later in (Memᴰ.tail there, good)

parse_tokens-IsUsable :
    (lib : Library) (rows : List Row) (t : Fields)
    → Memᴰ t (parse_tokens lib rows)
    → Memᴰ (dict t) rows × IsUsable lib t
unfolding parse_tokens
parse_tokens-IsUsable lib [] t m = elim m [ ]
parse_tokens-IsUsable lib (not_a_dict ∷ rows) t m =
    let (there, good) = parse_tokens-IsUsable lib rows t m in (Memᴰ.tail there, good)
parse_tokens-IsUsable lib (dict f ∷ rows) t m = elim (Bool-cases (is_token lib f)) [
  | inr off ↦
      let (there, good) = parse_tokens-IsUsable lib rows t (rw off at m) in (Memᴰ.tail there, good)
  | inl on ↦ first_or_later lib f t rows on (parse_tokens-IsUsable lib rows t) (rw on at m)
]

IsUsable-parse_tokens :
    (lib : Library) (rows : List Row) (t : Fields)
    → Memᴰ (dict t) rows
    → IsUsable lib t
    → Memᴰ t (parse_tokens lib rows)
unfolding parse_tokens
IsUsable-parse_tokens lib [] t m u = elim m [ ]
IsUsable-parse_tokens lib (not_a_dict ∷ rows) t m u = elim m [
  | Memᴰ.head e ↦ absurd (cc e)
  | Memᴰ.tail later ↦ IsUsable-parse_tokens lib rows t later u
]
IsUsable-parse_tokens lib (dict f ∷ rows) t m u = elim m [
  | Memᴰ.head e ↦
      let same : t ≡ f = ap (λ r. elim r [ dict x ↦ x | not_a_dict ↦ t ]) e in
      rw (ap (is_token lib) (sym same) ∙ IsUsable-is_token lib t u) (Memᴰ.head same)
  | Memᴰ.tail later ↦
      let there = IsUsable-parse_tokens lib rows t later u in
      elim (Bool-cases (is_token lib f)) [
        | inl on ↦ rw on (Memᴰ.tail there)
        | inr off ↦ rw off there
      ]
]

-- A text that is not empty matches a token only if the token is a row of the list that has an id,
-- a salt, a hash, a scope that is valid and a hexadecimal salt, and whose hash is the salted hash
-- of the text; and it matches none only if no such row has that hash.
pub find_match_lem :
    (lib : Library) (p : String) (rows : List Row)
    → (p == "") ≡ false
    → ((t : Fields)
        → find_match lib p rows ≡ some t
        → Memᴰ (dict t) rows × IsUsable lib t × (lib.sha256 t.salt p ≡ t.hash))
      × (find_match lib p rows ≡ none
          → (t : Fields) → Memᴰ (dict t) rows
          → IsUsable lib t
          → lib.sha256 t.salt p ≢ t.hash)
unfolding find_match
find_match_lem lib p rows e = rw e (
  λ t found.
      (let (m, same) = first_match-some lib p (parse_tokens lib rows) t found in
        let (there, good) = parse_tokens-IsUsable lib rows t m in
        (there, good, (eq_iff (lib.sha256 t.salt p) t.hash).0 same)),
  λ n t m u same. true≢false (
      sym ((eq_iff (lib.sha256 t.salt p) t.hash).1 same)
      ∙ first_match-none lib p (parse_tokens lib rows) t n (IsUsable-parse_tokens lib rows t m u)),
)

first_match-append :
    (lib : Library) (p : String) (rows : List Row) (t : Fields)
    → is_token lib t ≡ true
    → matches lib p t ≡ true
    → first_match lib p (parse_tokens lib rows) ≡ none
    → first_match lib p (parse_tokens lib (rows ++ dict t ∷ [])) ≡ some t
unfolding first_match parse_tokens
first_match-append lib p [] t k m e = rw k (rw m refl)
first_match-append lib p (not_a_dict ∷ rows) t k m e = first_match-append lib p rows t k m e
first_match-append lib p (dict f ∷ rows) t k m e =
    ground (arith, first_match-append lib p rows t k m)

prefixed : (s : String) → (append "tok-" s == "") ≡ false
prefixed s = elim (Bool-cases (append "tok-" s == "")) [
  | inl e ↦
      absurd (cons-ne-nil "t" (append "ok-" s) (sym (cons-append "t" "ok-" s) ∙ (eq_iff _ _).0 e))
  | inr e ↦ e
]

minted-is_token :
    (lib : Library) (label : String) (scope : Scope) (raw salt suffix now : String)
    → (salt == "") ≡ false
    → lib.is_hex salt ≡ true
    → (lib.sha256 salt raw == "") ≡ false
    → well_scoped scope ≡ true
    → is_token lib (mint_token lib label scope raw salt suffix now) ≡ true
unfolding is_token mint_token
minted-is_token lib label scope raw salt suffix now s h d w = rw (prefixed suffix, s, d, w, h) refl

own_hash :
    (lib : Library) (label : String) (scope : Scope) (raw salt suffix now : String)
    → matches lib raw (mint_token lib label scope raw salt suffix now) ≡ true
unfolding mint_token
own_hash lib label scope raw salt suffix now = eq_refl (lib.sha256 salt raw)

-- A token minted with a valid scope and a hexadecimal salt, neither of whose texts nor hash is
-- empty, is found by its raw text once its record is appended, unless an earlier token matches
-- that text.
pub find_match-mint_token :
    (lib : Library) (rows : List Row) (label : String) (scope : Scope)
    (raw salt suffix now : String)
    → (raw == "") ≡ false
    → (salt == "") ≡ false
    → lib.is_hex salt ≡ true
    → (lib.sha256 salt raw == "") ≡ false
    → well_scoped scope ≡ true
    → find_match lib raw rows ≡ none
    → let t = mint_token lib label scope raw salt suffix now in
      find_match lib raw (rows ++ dict t ∷ []) ≡ some t
unfolding find_match
find_match-mint_token lib rows label scope raw salt suffix now r s h d w e =
    let t = mint_token lib label scope raw salt suffix now in
    rw r (
      first_match-append lib raw rows t
        (minted-is_token lib label scope raw salt suffix now s h d w)
        (own_hash lib label scope raw salt suffix now) (rw r at e))

-- What of a token the routes decide by.
abbrev pub identity : Option Fields → Option (String × String × Scope)
identity none = none
identity (some t) = some (t.id, t.label, t.scope)

touched :
    (lib : Library) (p now token_id : String) (rows : List Row)
    → identity (first_match lib p (parse_tokens lib (touch_last_used now token_id rows).1))
      ≡ identity (first_match lib p (parse_tokens lib rows))
unfolding first_match parse_tokens touch_last_used is_token
touched lib p now token_id [] = refl
touched lib p now token_id (not_a_dict ∷ rows) = touched lib p now token_id rows
touched lib p now token_id (dict f ∷ rows) = ground (arith, touched lib p now token_id rows)

-- Stamping the last use of a token changes neither which presented texts are accepted nor the id,
-- the label and the scope that they are accepted with.
pub find_match-touch_last_used :
    (lib : Library) (p now token_id : String) (rows : List Row)
    → identity (find_match lib p (touch_last_used now token_id rows).1)
      ≡ identity (find_match lib p rows)
unfolding find_match
find_match-touch_last_used lib p now token_id rows = elim (Bool-cases (p == "")) [
  | inl e ↦ rw e refl
  | inr e ↦ rw e (touched lib p now token_id rows)
]
