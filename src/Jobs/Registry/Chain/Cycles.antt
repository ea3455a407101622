-- ===== src/Jobs/Registry/Chain/Cycles.antt =====
-- `detect_chain_cycle` of src/jobs/config_chain.py: the loop over the nodes and its found_cycle.
use mathlib.Core.Option.{some-injective}
use app_launcher_lite.Prelude.{
  ℕ, suc, ◌≤◌, String, ◌==◌, ◌≡◌, refl, sym, ap, subst, Option, none, some, List, [], ◌∷◌, ◌++◌,
  ◌↔◌, ◌≢◌, if◌then◌else◌, arith, eq_iff, false, Bool-cases, inl, inr, length,
}
use app_launcher_lite.Prelude.Dict.{Dict, get, put, get-put}
use app_launcher_lite.Prelude.Member.{member, member-dedup_after}
use app_launcher_lite.Jobs.Job.{Job}
use app_launcher_lite.Jobs.Registry.{ids, UniqueIds, follows}
use app_launcher_lite.Jobs.Registry.Chain.{
  edges_of, graph_from, Colour, Visit, cycle, done, out_of_fuel, targets, visit, from_root, roots,
  all_white, nodes, search, found_cycle, detect_chain_cycle,
}
use app_launcher_lite.Jobs.Registry.Chain.Walks.{
  IsCycle, Walk, Settled, IsCycle-Walk, Settled-no_Walk, same-Walk, same-Linked,
}
use app_launcher_lite.Jobs.Registry.Chain.Search.{
  has_edge, whites, Marks, Ends, then_on-Ends, leaf-Settled, AllSettled, grow-Ends, visit-Ends,
}

module _ (g : Dict (List String)) (fuel : ℕ) where
  from_root-Ends :
      (u : String) (us : List String) (c : Dict Colour) (o : Option Colour)
      → get u c ≡ o
      → Marks g [] c
      → whites c ≤ fuel
      → ((d : Dict Colour)
          → Marks g [] d
          → whites d ≤ fuel
          → Ends g [] (AllSettled g us) (whites d) (roots fuel g us d))
      → Ends g []
          (AllSettled g (u ∷ us))
          (whites c)
          (from_root o (visit fuel g [] u c) (roots fuel g us) c)
  unfolding from_root member
  from_root-Ends u us c none e marks bound rest =
      grow-Ends g [] u us (whites c) (whites c) (roots fuel g us c)
        (leaf-Settled g u (marks.keyed u e)) (omega arith) (rest c marks bound)
  from_root-Ends u us c (some Colour.gray) e marks bound rest = absurd (cc (marks.grays u e))
  from_root-Ends u us c (some Colour.black) e marks bound rest =
      grow-Ends g [] u us (whites c) (whites c) (roots fuel g us c) (marks.blacks u e) (omega arith)
        (rest c marks bound)
  from_root-Ends u us c (some Colour.white) e marks bound rest =
      then_on-Ends g [] [] (Settled (has_edge g) u) (AllSettled g (u ∷ us)) (whites c) (whites c)
        (visit fuel g [] u c) (roots fuel g us) (visit-Ends fuel g [] u c e tt marks bound)
        (λ d marks_d here less.
          grow-Ends g [] u us (whites d) (whites c) (roots fuel g us d) here less
            (rest d marks_d (omega arith)))

  roots-Ends :
      (us : List String) (c : Dict Colour)
      → Marks g [] c
      → whites c ≤ fuel
      → Ends g [] (AllSettled g us) (whites c) (roots fuel g us c)
  unfolding roots member
  roots-Ends [] c marks bound = (marks, (λ v m. absurd (cc m)), omega arith)
  roots-Ends (u ∷ us) c marks bound =
      from_root-Ends u us c (get u c) refl marks bound (λ d. roots-Ends us d)

get-all_white :
    (k : String) (g : Dict (List String))
    → get k (all_white g) ≡ elim (get k g) [ none ↦ none | some vs ↦ some Colour.white ]
unfolding get all_white
get-all_white k [] = refl
get-all_white k ((j, vs) ∷ g) = ground (arith, get-all_white k g)

whites-all_white : (g : Dict (List String)) → whites (all_white g) ≡ length g
unfolding whites all_white
whites-all_white [] = refl
whites-all_white ((j, vs) ∷ g) = ap suc (whites-all_white g)

member-nodes :
    (k : String) (g : Dict (List String)) → (get k g ≡ none) ↔ (member k (nodes g) ≡ false)
unfolding get nodes member
member-nodes k [] = ((λ e. refl), (λ e. refl))
member-nodes k ((j, vs) ∷ g) = ground (arith, member-nodes k g)

all_white-Marks : (g : Dict (List String)) → Marks g [] (all_white g)
unfolding targets
all_white-Marks g = record {
  keyed = λ k e. ground (arith, get-all_white k g);
  blacks = λ k e. absurd (ground (arith, get-all_white k g));
  grays = λ k e. absurd (ground (arith, get-all_white k g));
}

search-Ends : (g : Dict (List String)) → Ends g [] (AllSettled g (nodes g)) (length g) (search g)
unfolding search
search-Ends g =
    subst (λ n. Ends g [] (AllSettled g (nodes g)) n (search g)) (whites-all_white g)
      (roots-Ends g (length g) (nodes g) (all_white g) (all_white-Marks g)
        (omega (arith, whites-all_white g)))

all_nodes :
    (g : Dict (List String)) → AllSettled g (nodes g) → (u : String) → Settled (has_edge g) u
unfolding targets
all_nodes g all u = elim (Bool-cases (member u (nodes g))) [
  | inl e ↦ all u e
  | inr e ↦ leaf-Settled g u (ground (arith, member-nodes u g))
]

answer_lem :
    (g : Dict (List String)) (x : Visit)
    → Ends g [] (AllSettled g (nodes g)) (length g) x
    → ((found_cycle x ≡ none) ↔ ((u : String) → Walk (has_edge g) u u → ⊥))
      × ((p : List String) → found_cycle x ≡ some p → IsCycle (has_edge g) p)
unfolding found_cycle
answer_lem g (cycle p) h = (
  ((λ e. cc), λ no_walk. absurd (let (v, walk) = IsCycle-Walk (has_edge g) p h in no_walk v walk)),
  λ q e. subst (IsCycle (has_edge g)) (some-injective p q e) h,
)
answer_lem g (done c) h =
    (((λ e u. Settled-no_Walk (has_edge g) u (all_nodes g h.1 u)), (λ none_at. refl)), λ p e. cc)
answer_lem g out_of_fuel h = absurd h

pub follows-absent :
    (jobs : List Job) (u v : String) → member u (ids jobs) ≡ false → follows jobs u v ≡ false
unfolding follows member ids
follows-absent [] u v h = refl
follows-absent (j ∷ jobs) u v h = ground (arith, follows-absent jobs u v)

targets-put :
    (u v k : String) (vs : List String) (g : Dict (List String))
    → member v (targets (put k vs g) u) ≡ (if k == u then member v vs else member v (targets g u))
unfolding targets
targets-put u v k vs g = ground (arith, get-put k u vs g)

targets-graph_from :
    (u v : String) (jobs : List Job) (g : Dict (List String))
    → UniqueIds jobs
    → member v (targets (graph_from g jobs) u)
      ≡ (if member u (ids jobs) then follows jobs u v else member v (targets g u))
unfolding graph_from ids follows member edges_of
targets-graph_from u v [] g unique = refl
targets-graph_from u v (j ∷ jobs) g unique = ground (
  arith,
  targets-graph_from u v jobs (put j.id (edges_of j) g) unique.1,
  targets-put u v j.id (edges_of j) g,
  member-dedup_after v [] (j.on_success ++ j.on_failure),
  follows-absent jobs u v,
  eq_iff j.id u,
)

-- With unique ids, the edges of the graph are the chain lists.
graph-follows :
    (jobs : List Job) (u v : String)
    → UniqueIds jobs
    → has_edge (graph_from [] jobs) u v ≡ follows jobs u v
unfolding member targets get
graph-follows jobs u v unique =
    ground (arith, targets-graph_from u v jobs [] unique, follows-absent jobs u v)

-- For a registry with unique ids, the search answers none exactly when no chain of jobs leads from
-- a job back to itself, and any list that it answers is such a chain, with its first id repeated
-- at the end.
pub detect_chain_cycle_lem :
    (jobs : List Job)
    → UniqueIds jobs
    → ((detect_chain_cycle jobs ≡ none) ↔ ((u : String) → Walk (follows jobs) u u → ⊥))
      × ((p : List String) → detect_chain_cycle jobs ≡ some p → IsCycle (follows jobs) p)
unfolding detect_chain_cycle
detect_chain_cycle_lem jobs unique =
    let g = graph_from [] jobs in
    let same : (u v : String) → has_edge g u v ≡ follows jobs u v =
      λ u v. graph-follows jobs u v unique in
    let (decides, cycles) = answer_lem g (search g) (search-Ends g) in
    (
      (
        (λ e u walk.
            decides.0 e u (same-Walk (follows jobs) (has_edge g) (λ x y. sym (same x y)) u u walk)),
        λ no_walk.
            decides.1 (λ u walk. no_walk u (same-Walk (has_edge g) (follows jobs) same u u walk)),
      ),
      λ p e.
          let (v, r, shape, l) = cycles p e in
          (v, r, shape, same-Linked (has_edge g) (follows jobs) same p l),
    )

-- The search of a registry ends within its fuel, the number of its ids.
pub search-in_fuel : (jobs : List Job) → search (graph_from [] jobs) ≢ out_of_fuel
search-in_fuel jobs e =
    let g = graph_from [] jobs in
    subst (Ends g [] (AllSettled g (nodes g)) (length g)) e (search-Ends g)
