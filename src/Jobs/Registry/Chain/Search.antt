-- ===== src/Jobs/Registry/Chain/Search.antt =====
-- The depth-first search of `detect_chain_cycle` in src/jobs/config_chain.py: what a visit keeps.
use app_launcher_lite.Prelude.{
  ℕ, zero, suc, ◌≤◌, String, ◌==◌, ◌≡◌, refl, subst, Option, none, some, List, [], ◌∷◌, ◌++◌,
  if◌then◌else◌, arith, eq_iff, eq_refl, Bool, true, Bool-cases, inl, inr,
}
use app_launcher_lite.Prelude.Dict.{Dict, get, put, get-put}
use app_launcher_lite.Prelude.Member.{member, member-append}
use app_launcher_lite.Jobs.Registry.Chain.Walks.{
  Linked, IsCycle, Settled, settled, from-Linked, extend-Linked,
}
use app_launcher_lite.Jobs.Registry.Chain.{
  Colour, Visit, cycle, done, out_of_fuel, then_on, at_target, look, targets, visit,
}

abbrev pub has_edge : Dict (List String) → String → String → Bool
has_edge g u v = member v (targets g u)

unfoldable pub whites : Dict Colour → ℕ
whites [] = 0
whites ((_, Colour.white) ∷ c) = suc (whites c)
whites ((_, Colour.gray) ∷ c) = whites c
whites ((_, Colour.black) ∷ c) = whites c

whites-gray :
    (u : String) (c : Dict Colour)
    → get u c ≡ some Colour.white
    → suc (whites (put u Colour.gray c)) ≡ whites c
unfolding whites get put
whites-gray u [] e = cc
whites-gray u ((k, Colour.white) ∷ c) e = ground (arith, whites-gray u c)
whites-gray u ((k, Colour.gray) ∷ c) e = ground (arith, whites-gray u c)
whites-gray u ((k, Colour.black) ∷ c) e = ground (arith, whites-gray u c)

whites-black : (u : String) (c : Dict Colour) → whites (put u Colour.black c) ≤ whites c
unfolding whites put
whites-black u [] = omega arith
whites-black u ((k, Colour.white) ∷ c) = ground (arith, whites-black u c)
whites-black u ((k, Colour.gray) ∷ c) = ground (arith, whites-black u c)
whites-black u ((k, Colour.black) ∷ c) = ground (arith, whites-black u c)

whites-pos : (u : String) (c : Dict Colour) → get u c ≡ some Colour.white → 1 ≤ whites c
whites-pos u c e = omega (arith, whites-gray u c e)

-- The colours in a visit: an id without a colour has no edges, a black one is settled, and a gray
-- one is on the stack.
pub record Marks (g : Dict (List String)) (stack : List String) (c : Dict Colour) : Type 0 where
  pub keyed : (k : String) → get k c ≡ none → targets g k ≡ []
  pub blacks : (k : String) → get k c ≡ some Colour.black → Settled (has_edge g) k
  pub grays : (k : String) → get k c ≡ some Colour.gray → member k stack ≡ true

gray-Marks :
    (g : Dict (List String)) (stack : List String) (u : String) (c : Dict Colour)
    → Marks g stack c
    → Marks g (stack ++ u ∷ []) (put u Colour.gray c)
unfolding member
gray-Marks g stack u c marks = record {
  keyed = λ k e. ground (arith, marks.keyed k, get-put u k Colour.gray c);
  blacks = λ k e. marks.blacks k (ground (arith, get-put u k Colour.gray c));
  grays = λ k e.
      ground (arith, marks.grays k, get-put u k Colour.gray c, member-append k stack (u ∷ []));
}

black-Marks :
    (g : Dict (List String)) (stack : List String) (u : String) (c : Dict Colour)
    → Settled (has_edge g) u
    → Marks g (stack ++ u ∷ []) c
    → Marks g stack (put u Colour.black c)
unfolding member
black-Marks g stack u c own marks = record {
  keyed = λ k e. ground (arith, marks.keyed k, get-put u k Colour.black c);
  blacks = λ k e. elim (Bool-cases (u == k)) [
    | inl same ↦ subst (Settled (has_edge g)) ((eq_iff u k).0 same) own
    | inr other ↦ marks.blacks k (ground (arith, get-put u k Colour.black c))
  ];
  grays = λ k e.
      ground (arith, marks.grays k, get-put u k Colour.black c, member-append k stack (u ∷ []));
}

-- How a part of the search ends: with a cycle, or with good colours, the fact `P` and at most
-- `bound` white ids, and with fuel left.
abbrev pub Ends : Dict (List String) → List String → Type 0 → ℕ → Visit → Type 0
Ends g stack P bound (cycle p) = IsCycle (has_edge g) p
Ends g stack P bound (done c) = Marks g stack c × P × (whites c ≤ bound)
Ends g stack P bound out_of_fuel = ⊥

pub then_on-Ends :
    (g : Dict (List String)) (s t : List String) (P Q : Type 0) (m n : ℕ) (x : Visit)
    (k : Dict Colour → Visit)
    → Ends g s P m x
    → ((c : Dict Colour) → Marks g s c → P → whites c ≤ m → Ends g t Q n (k c))
    → Ends g t Q n (then_on x k)
unfolding then_on
then_on-Ends g s t P Q m n (cycle p) k h next = h
then_on-Ends g s t P Q m n (done c) k h next = next c h.0 h.1 h.2
then_on-Ends g s t P Q m n out_of_fuel k h next = absurd h

pub leaf-Settled : (g : Dict (List String)) (v : String) → targets g v ≡ [] → Settled (has_edge g) v
unfolding member
leaf-Settled g v e = settled (λ w m. absurd (cc (subst (λ ts. member w ts ≡ true) e m)))

abbrev pub AllSettled : Dict (List String) → List String → Type 0
AllSettled g vs = (v : String) → member v vs ≡ true → Settled (has_edge g) v

pub cons-AllSettled :
    (g : Dict (List String)) (v : String) (vs : List String)
    → Settled (has_edge g) v
    → AllSettled g vs
    → AllSettled g (v ∷ vs)
unfolding member
cons-AllSettled g v vs here there w m = elim (Bool-cases (v == w)) [
  | inl e ↦ subst (Settled (has_edge g)) ((eq_iff v w).0 e) here
  | inr e ↦ there w (subst (λ b. (if b then true else member w vs) ≡ true) e m)
]

pub grow-Ends :
    (g : Dict (List String)) (s : List String) (v : String) (vs : List String) (m n : ℕ) (x : Visit)
    → Settled (has_edge g) v
    → m ≤ n
    → Ends g s (AllSettled g vs) m x
    → Ends g s (AllSettled g (v ∷ vs)) n x
grow-Ends g s v vs m n (cycle p) here le h = h
grow-Ends g s v vs m n (done c) here le h =
    (h.0, cons-AllSettled g v vs here h.1, omega (arith, h.2))
grow-Ends g s v vs m n out_of_fuel here le h = h

-- The edges `vs` of the id on top of the stack, when every visit of a white id ends well.
module _ (g : Dict (List String)) (stack : List String) (n : ℕ) (sub : String → Dict Colour → Visit)
    (sub_ends : (v : String) (c : Dict Colour)
      → get v c ≡ some Colour.white
      → Linked (has_edge g) (stack ++ v ∷ [])
      → Marks g stack c
      → whites c ≤ n
      → Ends g stack (Settled (has_edge g) v) (whites c) (sub v c)) where
  at_target-Ends :
      (v : String) (vs : List String) (c : Dict Colour) (o : Option Colour)
      → get v c ≡ o
      → Linked (has_edge g) (stack ++ v ∷ [])
      → Marks g stack c
      → whites c ≤ n
      → ((d : Dict Colour)
          → Marks g stack d
          → whites d ≤ n
          → Ends g stack (AllSettled g vs) (whites d) (look sub stack vs d))
      → Ends g stack
          (AllSettled g (v ∷ vs))
          (whites c)
          (at_target o v stack (sub v c) (look sub stack vs) c)
  unfolding at_target
  at_target-Ends v vs c none e link marks bound rest =
      grow-Ends g stack v vs (whites c) (whites c) (look sub stack vs c)
        (leaf-Settled g v (marks.keyed v e)) (omega arith) (rest c marks bound)
  at_target-Ends v vs c (some Colour.gray) e link marks bound rest =
      from-Linked (has_edge g) v stack (marks.grays v e) link
  at_target-Ends v vs c (some Colour.black) e link marks bound rest =
      grow-Ends g stack v vs (whites c) (whites c) (look sub stack vs c) (marks.blacks v e)
        (omega arith) (rest c marks bound)
  at_target-Ends v vs c (some Colour.white) e link marks bound rest =
      then_on-Ends g stack stack (Settled (has_edge g) v) (AllSettled g (v ∷ vs)) (whites c)
        (whites c) (sub v c) (look sub stack vs) (sub_ends v c e link marks bound)
        (λ d marks_d here less.
          grow-Ends g stack v vs (whites d) (whites c) (look sub stack vs d) here less
            (rest d marks_d (omega arith)))

  pub look-Ends :
      (vs : List String) (c : Dict Colour)
      → ((v : String) → member v vs ≡ true → Linked (has_edge g) (stack ++ v ∷ []))
      → Marks g stack c
      → whites c ≤ n
      → Ends g stack (AllSettled g vs) (whites c) (look sub stack vs c)
  unfolding look member
  look-Ends [] c links marks bound = (marks, (λ v m. absurd (cc m)), omega arith)
  look-Ends (v ∷ vs) c links marks bound =
      at_target-Ends v vs c (get v c) refl (links v (rw (eq_refl v) refl)) marks bound
        (λ d marks_d less. look-Ends vs d (λ w m. links w (ground arith)) marks_d less)

-- A visit of a white id, with as much fuel as there are white ids.
pub visit-Ends :
    (fuel : ℕ) (g : Dict (List String)) (stack : List String) (u : String) (c : Dict Colour)
    → get u c ≡ some Colour.white
    → Linked (has_edge g) (stack ++ u ∷ [])
    → Marks g stack c
    → whites c ≤ fuel
    → Ends g stack (Settled (has_edge g) u) (whites c) (visit fuel g stack u c)
unfolding visit
visit-Ends zero g stack u c e link marks bound = absurd (omega (arith, whites-pos u c e))
visit-Ends (suc fuel) g stack u c e link marks bound =
    let s = stack ++ u ∷ [] in
    then_on-Ends g s stack (AllSettled g (targets g u)) (Settled (has_edge g) u)
      (whites (put u Colour.gray c)) (whites c)
      (look (visit fuel g s) s (targets g u) (put u Colour.gray c))
      (λ d. done (put u Colour.black d))
      (look-Ends g s fuel (visit fuel g s) (λ v d. visit-Ends fuel g s v d) (targets g u)
        (put u Colour.gray c) (λ v m. extend-Linked (has_edge g) stack u v link m)
        (gray-Marks g stack u c marks) (omega (arith, whites-gray u c e)))
      (λ d marks_d all less. (
        black-Marks g stack u d (settled all) marks_d,
        settled all,
        omega (arith, less, whites-gray u c e, whites-black u d),
      ))
