-- ===== src/Jobs/Registry/Chain/Walks.antt =====
-- Walks along the edges of a relation on job ids, for `detect_chain_cycle` of
-- src/jobs/config_chain.py.
use app_launcher_lite.Prelude.{
  String, ◌==◌, ◌≡◌, sym, ap, ◌∙◌, subst, List, [], ◌∷◌, ◌++◌, if◌then◌else◌, eq_iff, Bool, true,
  Bool-cases, inl, inr,
}
use app_launcher_lite.Prelude.Member.{member}
use app_launcher_lite.Jobs.Registry.Chain.{from}

-- Each id of the list has an edge to the next.
abbrev pub Linked : (String → String → Bool) → List String → Type 0
Linked edge [] = Unit
Linked edge (x ∷ []) = Unit
Linked edge (x ∷ y ∷ r) = (edge x y ≡ true) × Linked edge (y ∷ r)

-- A closed walk, written with its first id at both ends.
abbrev pub IsCycle : (String → String → Bool) → List String → Type 0
IsCycle edge p = (v : String) × (r : List String) × (p ≡ v ∷ (r ++ v ∷ [])) × Linked edge p

-- A walk of one edge or more.
pub data Walk (edge : String → String → Bool) : String → String → Type 0 where
  one : {u v : String} → edge u v ≡ true → Walk edge u v
  more : {u v w : String} → edge u v ≡ true → Walk edge v w → Walk edge u w

-- No walk from the node goes on for ever.
pub data Settled (edge : String → String → Bool) : String → Type 0 where
  settled : {u : String} → ((v : String) → edge u v ≡ true → Settled edge v) → Settled edge u

tail-Linked :
    (edge : String → String → Bool) (x : String) (s : List String)
    → Linked edge (x ∷ s)
    → Linked edge s
tail-Linked edge x [] l = tt
tail-Linked edge x (y ∷ s) l = l.1

pub from-Linked :
    (edge : String → String → Bool) (v : String) (s : List String)
    → member v s ≡ true
    → Linked edge (s ++ v ∷ [])
    → IsCycle edge (from v s ++ v ∷ [])
unfolding from member
from-Linked edge v [] m l = cc
from-Linked edge v (x ∷ s) m l = elim (Bool-cases (x == v)) [
  | inl e ↦ rw e (x, s, ap (λ y. x ∷ (s ++ y ∷ [])) (sym ((eq_iff x v).0 e)), l)
  | inr e ↦ rw e (
      from-Linked edge v s (subst (λ b. (if b then true else member v s) ≡ true) e m)
        (tail-Linked edge x (s ++ v ∷ []) l))
]

pub extend-Linked :
    (edge : String → String → Bool) (s : List String) (u v : String)
    → Linked edge (s ++ u ∷ [])
    → edge u v ≡ true
    → Linked edge ((s ++ u ∷ []) ++ v ∷ [])
extend-Linked edge [] u v l e = (e, tt)
extend-Linked edge (x ∷ []) u v l e = (l.0, (e, tt))
extend-Linked edge (x ∷ y ∷ s) u v l e = (l.0, extend-Linked edge (y ∷ s) u v l.1 e)

module _ (edge : String → String → Bool) where
  Linked-Walk :
      (u : String) (r : List String) (w : String) → Linked edge (u ∷ (r ++ w ∷ [])) → Walk edge u w
  Linked-Walk u [] w l = Walk.one l.0
  Linked-Walk u (x ∷ r) w l = Walk.more l.0 (Linked-Walk x r w l.1)

  pub IsCycle-Walk : (p : List String) → IsCycle edge p → (v : String) × Walk edge v v
  IsCycle-Walk p (v, r, e, l) = (v, Linked-Walk v r v (subst (Linked edge) e l))

  -- A closed walk can be turned, so that it starts at its second id.
  then_one : (u v w : String) → Walk edge u v → edge v w ≡ true → Walk edge u w
  then_one u v w (Walk.one e) last = Walk.more e (Walk.one last)
  then_one u v w (Walk.more {v = x} e rest) last = Walk.more e (then_one x v w rest last)

  turn : (u : String) → Walk edge u u → (v : String) × (edge u v ≡ true) × Walk edge v v
  turn u (Walk.one e) = (u, e, Walk.one e)
  turn u (Walk.more {v = x} e rest) = (x, e, then_one x u x rest e)

  pub Settled-no_Walk : (u : String) → Settled edge u → Walk edge u u → ⊥
  Settled-no_Walk u (Settled.settled next) walk =
      let (v, e, again) = turn u walk in Settled-no_Walk v (next v e) again

-- With more edges there are more walks.
pub grow-Walk :
    (edge other : String → String → Bool)
    → ((u v : String) → edge u v ≡ true → other u v ≡ true)
    → (u v : String) → Walk edge u v
    → Walk other u v
grow-Walk edge other keep u v (Walk.one e) = Walk.one (keep u v e)
grow-Walk edge other keep u v (Walk.more {v = x} e rest) =
    Walk.more (keep u x e) (grow-Walk edge other keep x v rest)

-- The same edges have the same walks.
module _ (edge other : String → String → Bool) (same : (u v : String) → edge u v ≡ other u v) where
  pub same-Walk : (u v : String) → Walk edge u v → Walk other u v
  same-Walk = grow-Walk edge other (λ u v e. sym (same u v) ∙ e)

  pub same-Linked : (p : List String) → Linked edge p → Linked other p
  same-Linked [] l = tt
  same-Linked (x ∷ []) l = tt
  same-Linked (x ∷ y ∷ p) l = (sym (same x y) ∙ l.0, same-Linked (y ∷ p) l.1)
