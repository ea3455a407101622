-- ===== src/Jobs/History/Names.antt =====
-- The order of the names of run directories that `list_runs` of src/jobs/history.py sorts by.
use Prim.Native.Nat.{ℕ, zero, suc, Ordering, compare as compare_ℕ}
use Prim.Native.Nat.compare as compare_ℕ
use Prim.Native.String.compare as compare_text
use Prim.Native.String.{String, then, compare as compare_text}
use Prim.Native.Char.{code}
use mathlib.Core.Path.{transport}
use app_launcher_lite.Prelude.{◌≡◌, refl, sym, ◌∙◌, ap, subst, Bool, true, false}
use app_launcher_lite.Jobs.History.{name_le}

abbrev flip : Ordering → Ordering
flip Ordering.lt = Ordering.gt
flip Ordering.eq = Ordering.eq
flip Ordering.gt = Ordering.lt

flip-then : (o r : Ordering) → then (flip o) (flip r) ≡ flip (then o r)
flip-then Ordering.lt r = refl
flip-then Ordering.eq r = refl
flip-then Ordering.gt r = refl

flipped_ℕ : (m n : ℕ) → compare_ℕ n m ≡ flip (compare_ℕ m n)
flipped_ℕ zero zero = compare_ℕ.zero-zero ∙ sym (ap flip compare_ℕ.zero-zero)
flipped_ℕ zero (suc n) = compare_ℕ.suc-zero n ∙ sym (ap flip (compare_ℕ.zero-suc n))
flipped_ℕ (suc m) zero = compare_ℕ.zero-suc m ∙ sym (ap flip (compare_ℕ.suc-zero m))
flipped_ℕ (suc m) (suc n) =
    compare_ℕ.suc-suc n m ∙ flipped_ℕ m n ∙ sym (ap flip (compare_ℕ.suc-suc m n))

flipped : (s t : String) → compare_text t s ≡ flip (compare_text s t)
flipped String.[] String.[] = compare_text.nil-nil ∙ sym (ap flip compare_text.nil-nil)
flipped String.[] (String.◌∷◌ d t) =
    compare_text.cons-nil d t ∙ sym (ap flip (compare_text.nil-cons d t))
flipped (String.◌∷◌ c s) String.[] =
    compare_text.nil-cons c s ∙ sym (ap flip (compare_text.cons-nil c s))
flipped (String.◌∷◌ c s) (String.◌∷◌ d t) =
    compare_text.cons-cons d c t s
    ∙ ap (λ o. then o (compare_text t s)) (flipped_ℕ (code c) (code d))
    ∙ ap (then (flip (compare_ℕ (code c) (code d)))) (flipped s t)
    ∙ flip-then (compare_ℕ (code c) (code d)) (compare_text s t)
    ∙ sym (ap flip (compare_text.cons-cons c d s t))

-- What the comparisons of three things in order say of the first and the third.
abbrev Chained : Ordering → Ordering → Ordering → Type 0
Chained Ordering.lt Ordering.lt o = o ≡ Ordering.lt
Chained Ordering.lt Ordering.eq o = o ≡ Ordering.lt
Chained Ordering.eq p o = o ≡ p
Chained _ _ o = Unit

from_least : (o : Ordering) → Chained Ordering.lt o Ordering.lt
from_least Ordering.lt = refl
from_least Ordering.eq = refl
from_least Ordering.gt = tt

to_least : (o : Ordering) → Chained o Ordering.gt Ordering.gt
to_least Ordering.lt = tt
to_least Ordering.eq = refl
to_least Ordering.gt = tt

along : {o o' p p' q q' : Ordering} → o ≡ o' → p ≡ p' → q ≡ q' → Chained o' p' q' → Chained o p q
along a b c h = transport (λ i. Chained (sym a i) (sym b i) (sym c i)) h

numbers_chain : (a b c : ℕ) → Chained (compare_ℕ a b) (compare_ℕ b c) (compare_ℕ a c)
numbers_chain zero zero zero =
    along compare_ℕ.zero-zero compare_ℕ.zero-zero compare_ℕ.zero-zero refl
numbers_chain zero zero (suc c) = along compare_ℕ.zero-zero refl refl refl
numbers_chain zero (suc b) zero = along (compare_ℕ.zero-suc b) (compare_ℕ.suc-zero b) refl tt
numbers_chain zero (suc b) (suc c) =
    along (compare_ℕ.zero-suc b) refl (compare_ℕ.zero-suc c)
      (from_least (compare_ℕ (suc b) (suc c)))
numbers_chain (suc a) zero c = along (compare_ℕ.suc-zero a) refl refl tt
numbers_chain (suc a) (suc b) zero =
    along refl (compare_ℕ.suc-zero b) (compare_ℕ.suc-zero a) (to_least (compare_ℕ (suc a) (suc b)))
numbers_chain (suc a) (suc b) (suc c) =
    along (compare_ℕ.suc-suc a b) (compare_ℕ.suc-suc b c) (compare_ℕ.suc-suc a c)
      (numbers_chain a b c)

least_first : (q r r2 : Ordering) → q ≡ Ordering.lt → Chained Ordering.lt r2 (then q r)
least_first q r Ordering.lt e = ap (λ o. then o r) e
least_first q r Ordering.eq e = ap (λ o. then o r) e
least_first q r Ordering.gt e = tt

then_chain :
    (o p q r1 r2 r3 : Ordering)
    → Chained o p q
    → Chained r1 r2 r3
    → Chained (then o r1) (then p r2) (then q r3)
then_chain Ordering.lt Ordering.lt q r1 r2 r3 h k = ap (λ x. then x r3) h
then_chain Ordering.lt Ordering.eq q r1 r2 r3 h k = least_first q r3 r2 h
then_chain Ordering.lt Ordering.gt q r1 r2 r3 h k = tt
then_chain Ordering.eq Ordering.lt q Ordering.lt r2 r3 h k = ap (λ x. then x r3) h
then_chain Ordering.eq Ordering.lt q Ordering.eq r2 r3 h k = ap (λ x. then x r3) h
then_chain Ordering.eq Ordering.lt q Ordering.gt r2 r3 h k = tt
then_chain Ordering.eq Ordering.eq q r1 r2 r3 h k = subst (λ x. Chained r1 r2 (then x r3)) (sym h) k
then_chain Ordering.eq Ordering.gt q Ordering.lt r2 r3 h k = tt
then_chain Ordering.eq Ordering.gt q Ordering.eq r2 r3 h k = ap (λ x. then x r3) h
then_chain Ordering.eq Ordering.gt q Ordering.gt r2 r3 h k = tt
then_chain Ordering.gt p q r1 r2 r3 h k = tt

texts_chain : (s t u : String) → Chained (compare_text s t) (compare_text t u) (compare_text s u)
texts_chain String.[] String.[] u = along compare_text.nil-nil refl refl refl
texts_chain String.[] (String.◌∷◌ d t) String.[] =
    along (compare_text.nil-cons d t) (compare_text.cons-nil d t) refl tt
texts_chain String.[] (String.◌∷◌ d t) (String.◌∷◌ e u) =
    along (compare_text.nil-cons d t) refl (compare_text.nil-cons e u)
      (from_least (compare_text (String.◌∷◌ d t) (String.◌∷◌ e u)))
texts_chain (String.◌∷◌ c s) String.[] u = along (compare_text.cons-nil c s) refl refl tt
texts_chain (String.◌∷◌ c s) (String.◌∷◌ d t) String.[] =
    along refl (compare_text.cons-nil d t) (compare_text.cons-nil c s)
      (to_least (compare_text (String.◌∷◌ c s) (String.◌∷◌ d t)))
texts_chain (String.◌∷◌ c s) (String.◌∷◌ d t) (String.◌∷◌ e u) =
    along (compare_text.cons-cons c d s t) (compare_text.cons-cons d e t u)
      (compare_text.cons-cons c e s u)
      (then_chain (compare_ℕ (code c) (code d)) (compare_ℕ (code d) (code e))
        (compare_ℕ (code c) (code e)) (compare_text s t) (compare_text t u) (compare_text s u)
        (numbers_chain (code c) (code d) (code e)) (texts_chain s t u))

-- Of two names one is at most the other.
pub name_le_total : (a b : String) → name_le a b ≡ false → name_le b a ≡ true
name_le_total a b e = turned (compare_text a b) (compare_text b a) (flipped a b) e
  where
    turned :
        (o p : Ordering)
        → p ≡ flip o
        → elim o as (λ _. Bool) [ Ordering.gt ↦ false | _ ↦ true ] ≡ false
        → elim p as (λ _. Bool) [ Ordering.gt ↦ false | _ ↦ true ] ≡ true
    turned Ordering.lt p h k = cc
    turned Ordering.eq p h k = cc
    turned Ordering.gt p h k = rw h refl

pub name_le_trans : (a b c : String) → name_le a b ≡ true → name_le b c ≡ true → name_le a c ≡ true
name_le_trans a b c =
    linked (compare_text a b) (compare_text b c) (compare_text a c) (texts_chain a b c)
  where
    linked :
        (o p q : Ordering)
        → Chained o p q
        → elim o as (λ _. Bool) [ Ordering.gt ↦ false | _ ↦ true ] ≡ true
        → elim p as (λ _. Bool) [ Ordering.gt ↦ false | _ ↦ true ] ≡ true
        → elim q as (λ _. Bool) [ Ordering.gt ↦ false | _ ↦ true ] ≡ true
    linked Ordering.lt Ordering.lt q h x y = rw h refl
    linked Ordering.lt Ordering.eq q h x y = rw h refl
    linked Ordering.lt Ordering.gt q h x y = cc
    linked Ordering.eq p q h x y = rw h y
    linked Ordering.gt p q h x y = cc
