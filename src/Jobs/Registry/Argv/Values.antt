-- ===== src/Jobs/Registry/Argv/Values.antt =====
-- What `_coerce` of src/jobs/argv.py takes, kind by kind.
use app_launcher_lite.Prelude.{
  String, ◌==◌, ◌≡◌, refl, sym, Bool, true, false, Option, none, some, List, [], ◌∷◌, Bool-cases,
  inl, inr, ◌⊎◌, eq_iff, if◌then◌else◌,
}
use app_launcher_lite.Prelude.Int.{ℤ}
use app_launcher_lite.Prelude.Member.{member}
use app_launcher_lite.Prelude.Json.{Json}
use app_launcher_lite.Jobs.Job.{Param}
use app_launcher_lite.Jobs.Registry.{malformed}
use app_launcher_lite.Jobs.Registry.Checked.{ok, err, need, >>=-ok, need-true, ok-injective}
use app_launcher_lite.Jobs.Registry.Python.{Python, strip, is_date}
use app_launcher_lite.Jobs.Registry.Params.{is_option}
use app_launcher_lite.Jobs.Registry.Argv.{is_int_text, coerce_int, coerce_bool, coerce_text, coerce}

-- A given value `v` of a parameter is taken as `w`.
pub data Takes (py : Python) (to_int : String → ℤ) (p : Param) (v w : Json) : Type 0 where
  as_text : (s : String) → p.kind ≡ "string" → v ≡ Json.str s → w ≡ v → Takes py to_int p v w
  as_int : (n : ℤ) → p.kind ≡ "int" → v ≡ Json.int n → w ≡ v → Takes py to_int p v w
  as_int_text :
      (s : String)
      → p.kind ≡ "int"
      → v ≡ Json.str s
      → is_int_text py.is_digit (strip s) ≡ true
      → w ≡ Json.int (to_int (strip s))
      → Takes py to_int p v w
  as_bool : (b : Bool) → p.kind ≡ "bool" → v ≡ Json.bool b → w ≡ v → Takes py to_int p v w
  as_true :
      (s : String)
      → p.kind ≡ "bool"
      → v ≡ Json.str s
      → py.lower s ≡ "true"
      → w ≡ Json.bool true
      → Takes py to_int p v w
  as_false :
      (s : String)
      → p.kind ≡ "bool"
      → v ≡ Json.str s
      → py.lower s ≡ "false"
      → w ≡ Json.bool false
      → Takes py to_int p v w
  as_option :
      (s : String) (options : List String)
      → p.kind ≡ "enum"
      → v ≡ Json.str s
      → p.options ≡ some options
      → member s options ≡ true
      → w ≡ v
      → Takes py to_int p v w
  as_date :
      (s : String)
      → p.kind ≡ "date"
      → v ≡ Json.str s
      → is_date py s ≡ true
      → w ≡ v
      → Takes py to_int p v w

coerce_text-ok :
    (test : String → Bool) (message : String) (v w : Json)
    → coerce_text test message v ≡ ok w
    → (s : String) × (v ≡ Json.str s) × (test s ≡ true) × (w ≡ v)
unfolding coerce_text
coerce_text-ok test message (Json.str s) w e =
    let (u, passed, rest) = >>=-ok (need (test s) message) _ e in
    (s, refl, need-true (test s) message passed, sym (ok-injective (Json.str s) w rest))
coerce_text-ok test message Json.null w e = cc
coerce_text-ok test message (Json.bool b) w e = cc
coerce_text-ok test message (Json.int n) w e = cc
coerce_text-ok test message (Json.real x) w e = cc
coerce_text-ok test message (Json.array xs) w e = cc
coerce_text-ok test message (Json.object d) w e = cc

coerce_int-Takes :
    (py : Python) (to_int : String → ℤ) (p : Param) (v w : Json)
    → p.kind ≡ "int"
    → coerce_int py to_int v ≡ ok w
    → Takes py to_int p v w
unfolding coerce_int
coerce_int-Takes py to_int p (Json.int n) w k e =
    as_int n k refl (sym (ok-injective (Json.int n) w e))
coerce_int-Takes py to_int p (Json.str s) w k e =
    elim (Bool-cases (is_int_text py.is_digit (strip s))) [
      | inl number ↦
          as_int_text s k refl number
            (sym (ok-injective (Json.int (to_int (strip s))) w (rw number at e)))
      | inr other ↦ absurd (cc (rw other at e))
    ]
coerce_int-Takes py to_int p Json.null w k e = absurd (cc e)
coerce_int-Takes py to_int p (Json.bool b) w k e = absurd (cc e)
coerce_int-Takes py to_int p (Json.real x) w k e = absurd (cc e)
coerce_int-Takes py to_int p (Json.array xs) w k e = absurd (cc e)
coerce_int-Takes py to_int p (Json.object d) w k e = absurd (cc e)

true_or_false :
    (l : String) (w : Json)
    → (if member l ("true" ∷ "false" ∷ [])
        then ok (Json.bool (l == "true"))
        else err (malformed "expected bool"))
      ≡ ok w
    → ((l ≡ "true") × (w ≡ Json.bool true)) ⊎ ((l ≡ "false") × (w ≡ Json.bool false))
unfolding member
true_or_false l w e = elim (Bool-cases ("true" == l)) [
  | inl is_true ↦
      let same : l ≡ "true" = sym ((eq_iff "true" l).0 is_true) in
      inl (same, sym (ok-injective (Json.bool true) w (rw same at e)))
  | inr not_true ↦ elim (Bool-cases ("false" == l)) [
    | inl is_false ↦
        let same : l ≡ "false" = sym ((eq_iff "false" l).0 is_false) in
        inr (same, sym (ok-injective (Json.bool false) w (rw same at e)))
    | inr neither ↦ absurd (cc (rw (not_true, neither) at e))
  ]
]

coerce_bool-Takes :
    (py : Python) (to_int : String → ℤ) (p : Param) (v w : Json)
    → p.kind ≡ "bool"
    → coerce_bool py v ≡ ok w
    → Takes py to_int p v w
unfolding coerce_bool member
coerce_bool-Takes py to_int p (Json.bool b) w k e =
    as_bool b k refl (sym (ok-injective (Json.bool b) w e))
coerce_bool-Takes py to_int p (Json.str s) w k e = elim (true_or_false (py.lower s) w e) [
  | inl (low, same) ↦ as_true s k refl low same
  | inr (low, same) ↦ as_false s k refl low same
]
coerce_bool-Takes py to_int p Json.null w k e = absurd (cc e)
coerce_bool-Takes py to_int p (Json.int n) w k e = absurd (cc e)
coerce_bool-Takes py to_int p (Json.real x) w k e = absurd (cc e)
coerce_bool-Takes py to_int p (Json.array xs) w k e = absurd (cc e)
coerce_bool-Takes py to_int p (Json.object d) w k e = absurd (cc e)

is_option-some :
    (o : Option (List String)) (s : String)
    → is_option o s ≡ true
    → (options : List String) × (o ≡ some options) × (member s options ≡ true)
unfolding is_option
is_option-some none s e = cc
is_option-some (some options) s e = (options, refl, e)

pub coerce-Takes :
    (py : Python) (to_int : String → ℤ) (p : Param) (v w : Json)
    → coerce py to_int p v ≡ ok w
    → Takes py to_int p v w
unfolding coerce
coerce-Takes py to_int p v w e = elim (Bool-cases (p.kind == "string")) [
  | inl k ↦
      let (s, shape, _, same) = coerce_text-ok (λ s. true) "expected string" v w (rw k at e) in
      as_text s ((eq_iff p.kind "string").0 k) shape same
  | inr k1 ↦ elim (Bool-cases (p.kind == "int")) [
    | inl k ↦ coerce_int-Takes py to_int p v w ((eq_iff p.kind "int").0 k) (rw (k1, k) at e)
    | inr k2 ↦ elim (Bool-cases (p.kind == "bool")) [
      | inl k ↦ coerce_bool-Takes py to_int p v w ((eq_iff p.kind "bool").0 k) (rw (k1, k2, k) at e)
      | inr k3 ↦ elim (Bool-cases (p.kind == "enum")) [
        | inl k ↦
            let (s, shape, listed, same) = coerce_text-ok _ _ v w (rw (k1, k2, k3, k) at e) in
            let (options, there, among) = is_option-some p.options s listed in
            as_option s options ((eq_iff p.kind "enum").0 k) shape there among same
        | inr k4 ↦ elim (Bool-cases (p.kind == "date")) [
          | inl k ↦
              let (s, shape, dated, same) = coerce_text-ok _ _ v w (rw (k1, k2, k3, k4, k) at e) in
              as_date s ((eq_iff p.kind "date").0 k) shape dated same
          | inr k5 ↦ absurd (cc (rw (k1, k2, k3, k4, k5) at e))
        ]
      ]
    ]
  ]
]

pub Takes-coerce :
    (py : Python) (to_int : String → ℤ) (p : Param) (v w : Json)
    → Takes py to_int p v w
    → coerce py to_int p v ≡ ok w
unfolding coerce coerce_text coerce_int coerce_bool is_option member
Takes-coerce py to_int p v w (as_text s k shape same) = rw (same, k, shape) refl
Takes-coerce py to_int p v w (as_int n k shape same) = rw (same, k, shape) refl
Takes-coerce py to_int p v w (as_int_text s k shape number same) = rw (same, k, shape, number) refl
Takes-coerce py to_int p v w (as_bool b k shape same) = rw (same, k, shape) refl
Takes-coerce py to_int p v w (as_true s k shape low same) = rw (same, k, shape, low) refl
Takes-coerce py to_int p v w (as_false s k shape low same) = rw (same, k, shape, low) refl
Takes-coerce py to_int p v w (as_option s os k shape o among same) =
    rw (same, k, shape, o, among) refl
Takes-coerce py to_int p v w (as_date s k shape dated same) = rw (same, k, shape, dated) refl
