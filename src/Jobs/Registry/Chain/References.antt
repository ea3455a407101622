-- ===== src/Jobs/Registry/Chain/References.antt =====
-- `_check_chain_references` and `_validate_chain_consistency` of src/jobs/config_chain.py: which
-- registries pass.
use app_launcher_lite.Prelude.{
  String, ◌==◌, ◌≡◌, refl, Option, none, some, List, [], ◌∷◌, ◌↔◌, arith, eq_iff, eq_refl, true,
  false,
}
use app_launcher_lite.Prelude.Member.{member, member-append}
use app_launcher_lite.Jobs.Job.{Job}
use app_launcher_lite.Jobs.Registry.{Fault, ids, UniqueIds, follows}
use app_launcher_lite.Jobs.Registry.Chain.{
  detect_chain_cycle, first_fault, check_edges, check_jobs, check_chain_references, cycle_fault,
  validate_chain_consistency,
}
use app_launcher_lite.Jobs.Registry.Chain.Walks.{Walk}
use app_launcher_lite.Jobs.Registry.Chain.Cycles.{detect_chain_cycle_lem}

-- The ids `ds` that a job `id` may name.
abbrev NamesOthers : List String → String → List String → Type 0
NamesOthers known id ds =
    (v : String) → member v ds ≡ true → ((v == id) ≡ false) × (member v known ≡ true)

first_fault-none : (a b : Option Fault) → (first_fault a b ≡ none) ↔ (a ≡ none) × (b ≡ none)
unfolding first_fault
first_fault-none none b = (λ e. (refl, e), λ p. p.1)
first_fault-none (some f) b = (λ e. absurd (cc e), λ p. absurd (cc p.0))

check_edges-none :
    (known : List String) (id field : String) (ds : List String)
    → (check_edges known id field ds ≡ none) ↔ NamesOthers known id ds
unfolding check_edges member
check_edges-none known id field [] = (λ e v m. absurd (cc m), λ h. refl)
check_edges-none known id field (d ∷ ds) =
    let rest = check_edges-none known id field ds in
    (
      λ e v m.
          (let later : check_edges known id field ds ≡ none
                → member v ds ≡ true
                → ((v == id) ≡ false) × (member v known ≡ true) =
              λ x. rest.0 x v in
            ground (arith, later, eq_iff d v)),
      λ h.
          let own = h d (rw (eq_refl d) refl) in
          rw (own.0, own.1) (rest.1 (λ v m. h v (ground arith))),
    )

-- Every job names other jobs that are registered.
abbrev pub Known : List Job → List String → Type 0
Known jobs known =
    (u v : String) → follows jobs u v ≡ true → ((v == u) ≡ false) × (member v known ≡ true)

-- The chain lists name registered jobs, and no chain leads from a job back to itself.
abbrev pub Consistent : List Job → Type 0
Consistent jobs = Known jobs (ids jobs) × ((u : String) → Walk (follows jobs) u u → ⊥)

cons-Known :
    (known : List String) (j : Job) (jobs : List Job)
    → NamesOthers known j.id j.on_success
    → NamesOthers known j.id j.on_failure
    → Known jobs known
    → Known (j ∷ jobs) known
unfolding follows
cons-Known known j jobs on_s on_f rest u v e =
    ground
      (arith, on_s v, on_f v, rest u v, member-append v j.on_success j.on_failure, eq_iff j.id u)

head-Known :
    (known : List String) (j : Job) (jobs : List Job)
    → Known (j ∷ jobs) known
    → NamesOthers known j.id j.on_success × (NamesOthers known j.id j.on_failure × Known jobs known)
unfolding follows
head-Known known j jobs h = (
  λ v m. h j.id v (ground (arith, member-append v j.on_success j.on_failure, eq_refl j.id)),
  (
    λ v m. h j.id v (ground (arith, member-append v j.on_success j.on_failure, eq_refl j.id)),
    λ u v e. h u v (ground arith),
  ),
)

check_jobs-none :
    (known : List String) (jobs : List Job) → (check_jobs known jobs ≡ none) ↔ Known jobs known
unfolding check_jobs follows
check_jobs-none known [] = (λ e u v m. absurd (cc m), λ h. refl)
check_jobs-none known (j ∷ jobs) =
    let rest = check_jobs-none known jobs in
    let on_s = check_edges-none known j.id "on_success" j.on_success in
    let on_f = check_edges-none known j.id "on_failure" j.on_failure in
    let later =
      first_fault-none (check_edges known j.id "on_failure" j.on_failure) (check_jobs known jobs) in
    let both = first_fault-none (check_edges known j.id "on_success" j.on_success) _ in
    (
      λ e.
          cons-Known known j jobs (on_s.0 (both.0 e).0) (on_f.0 (later.0 (both.0 e).1).0)
            (rest.0 (later.0 (both.0 e).1).1),
      λ h.
          let own = head-Known known j jobs h in
          both.1 (on_s.1 own.0, later.1 (on_f.1 own.1.0, rest.1 own.1.1)),
    )

cycle_fault-none : (o : Option (List String)) → (cycle_fault o ≡ none) ↔ (o ≡ none)
unfolding cycle_fault
cycle_fault-none none = (λ e. refl, λ e. refl)
cycle_fault-none (some p) = (λ e. absurd (cc e), λ e. absurd (cc e))

-- A registry with unique ids passes the chain checks exactly when every chain list names only
-- registered jobs other than its own, and no chain leads from a job back to itself.
pub validate_chain_consistency_lem :
    (jobs : List Job) → UniqueIds jobs → (validate_chain_consistency jobs ≡ none) ↔ Consistent jobs
unfolding validate_chain_consistency check_chain_references
validate_chain_consistency_lem jobs unique =
    let (cycles, _) = detect_chain_cycle_lem jobs unique in
    let both =
      first_fault-none (check_jobs (ids jobs) jobs) (cycle_fault (detect_chain_cycle jobs)) in
    let refs = check_jobs-none (ids jobs) jobs in
    let fault = cycle_fault-none (detect_chain_cycle jobs) in
    (
      λ e. (refs.0 (both.0 e).0, cycles.0 (fault.0 (both.0 e).1)),
      λ h. both.1 (refs.1 h.0, fault.1 (cycles.1 h.1)),
    )
