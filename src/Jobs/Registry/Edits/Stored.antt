-- ===== src/Jobs/Registry/Edits/Stored.antt =====
-- What `pause_job`, `resume_job` and `remove_by_id` of src/jobs/config.py do to the list: an
-- assignment to a job's fields, and the removal of a job with the references to it.
use mathlib.Core.Option.{some-injective}
use app_launcher_lite.Prelude.{
  Bool-cases, subst, inl, inr, String, ◌==◌, ◌≡◌, refl, sym, ◌∙◌, ap, some, List, [], ◌∷◌, ◌++◌,
  if◌then◌else◌, arith, eq_iff, true, not, ◌&&◌, ◌||◌,
}
use app_launcher_lite.Prelude.Member.{member, member-append}
use app_launcher_lite.Jobs.Job.{Job}
use app_launcher_lite.Jobs.Registry.{ids, UniqueIds, follows, get_by_id}
use app_launcher_lite.Jobs.Registry.Chain.Cycles.{follows-absent}
use app_launcher_lite.Jobs.Registry.Chain.Walks.{grow-Walk}
use app_launcher_lite.Jobs.Registry.Chain.References.{Consistent}
use app_launcher_lite.Jobs.Registry.Edits.{
  put_job, pop_by_id, without, strip_list, strip_references,
}

pub ids-put_job :
    (k id : String) (new : Job) (jobs : List Job)
    → new.id ≡ id
    → member k (ids (put_job id new jobs)) ≡ member k (ids jobs)
unfolding put_job ids member
ids-put_job k id new [] e = refl
ids-put_job k id new (j ∷ jobs) e = ground (arith, ids-put_job k id new jobs e, eq_iff j.id id)

pub put_job-UniqueIds :
    (id : String) (new : Job) (jobs : List Job)
    → new.id ≡ id
    → UniqueIds jobs
    → UniqueIds (put_job id new jobs)
unfolding put_job
put_job-UniqueIds id new [] e h = tt
put_job-UniqueIds id new (j ∷ jobs) e h =
    ground
      (arith, put_job-UniqueIds id new jobs e h.1, ids-put_job j.id id new jobs e, eq_iff j.id id)

same-edges :
    (u v : String) (j new : Job) (jobs : List Job)
    → new.id ≡ j.id
    → new.on_success ≡ j.on_success
    → new.on_failure ≡ j.on_failure
    → follows (new ∷ jobs) u v ≡ follows (j ∷ jobs) u v
unfolding follows
same-edges u v j new jobs e s f = cc

pub follows-put_job :
    (u v id : String) (job new : Job) (jobs : List Job)
    → get_by_id jobs id ≡ some job
    → new.id ≡ id
    → new.on_success ≡ job.on_success
    → new.on_failure ≡ job.on_failure
    → follows (put_job id new jobs) u v ≡ follows jobs u v
unfolding put_job follows get_by_id
follows-put_job u v id job new [] found e s f = refl
follows-put_job u v id job new (j ∷ jobs) found e s f = elim (Bool-cases (j.id == id)) [
  | inr other ↦ rw other (
      ap (λ b. (j.id == u) && member v (j.on_success ++ j.on_failure) || b)
        (follows-put_job u v id job new jobs
          (subst (λ b. (if b then some j else get_by_id jobs id) ≡ some job) other found) e s f))
  | inl same ↦ rw same (
      let own : j ≡ job =
        some-injective j job
          (subst (λ b. (if b then some j else get_by_id jobs id) ≡ some job) same found) in
      same-edges u v j new jobs (e ∙ sym ((eq_iff j.id id).0 same))
        (s ∙ ap (λ (o : Job). o.on_success) (sym own))
        (f ∙ ap (λ (o : Job). o.on_failure) (sym own)))
]

pub get_by_id-put_job :
    (id : String) (job new : Job) (jobs : List Job)
    → get_by_id jobs id ≡ some job
    → new.id ≡ id
    → get_by_id (put_job id new jobs) id ≡ some new
unfolding put_job get_by_id
get_by_id-put_job id job new [] found e = absurd (cc found)
get_by_id-put_job id job new (j ∷ jobs) found e =
    ground (arith, get_by_id-put_job id job new jobs, eq_iff j.id id, eq_iff new.id id)

pub get_by_id-id :
    (id : String) (job : Job) (jobs : List Job) → get_by_id jobs id ≡ some job → job.id ≡ id
unfolding get_by_id
get_by_id-id id job [] found = absurd (cc found)
get_by_id-id id job (j ∷ jobs) found = ground (arith, get_by_id-id id job jobs, eq_iff j.id id)

pub ids-pop_by_id :
    (k id : String) (jobs : List Job)
    → UniqueIds jobs
    → member k (ids (pop_by_id id jobs)) ≡ (member k (ids jobs) && not (k == id))
unfolding pop_by_id ids member
ids-pop_by_id k id [] h = refl
ids-pop_by_id k id (j ∷ jobs) h =
    ground (arith, ids-pop_by_id k id jobs h.1, eq_iff j.id id, eq_iff j.id k, eq_iff k id)

pop_by_id-UniqueIds :
    (id : String) (jobs : List Job) → UniqueIds jobs → UniqueIds (pop_by_id id jobs)
unfolding pop_by_id
pop_by_id-UniqueIds id [] h = tt
pop_by_id-UniqueIds id (j ∷ jobs) h =
    ground (arith, pop_by_id-UniqueIds id jobs h.1, ids-pop_by_id j.id id jobs h.1)

member-without :
    (k id : String) (xs : List String) → member k (without id xs) ≡ (member k xs && not (k == id))
unfolding without member
member-without k id [] = refl
member-without k id (x ∷ xs) =
    ground (arith, member-without k id xs, eq_iff x id, eq_iff x k, eq_iff k id)

member-strip_list :
    (k id : String) (xs : List String)
    → member k (strip_list id xs) ≡ (member k xs && not (k == id))
unfolding strip_list
member-strip_list k id xs = ground (arith, member-without k id xs, eq_iff k id)

follows-strip_references :
    (u v id : String) (jobs : List Job)
    → follows (strip_references id jobs) u v ≡ (follows jobs u v && not (v == id))
unfolding strip_references follows
follows-strip_references u v id [] = refl
follows-strip_references u v id (j ∷ jobs) = ground (
  arith,
  follows-strip_references u v id jobs,
  member-strip_list v id j.on_success,
  member-strip_list v id j.on_failure,
  member-append v j.on_success j.on_failure,
  member-append v (strip_list id j.on_success) (strip_list id j.on_failure),
)

ids-strip_references : (id : String) (jobs : List Job) → ids (strip_references id jobs) ≡ ids jobs
unfolding strip_references ids
ids-strip_references id [] = refl
ids-strip_references id (j ∷ jobs) = ap (λ l. j.id ∷ l) (ids-strip_references id jobs)

follows-pop_by_id :
    (u v id : String) (jobs : List Job)
    → UniqueIds jobs
    → follows (pop_by_id id jobs) u v ≡ (follows jobs u v && not (u == id))
unfolding pop_by_id follows
follows-pop_by_id u v id [] h = refl
follows-pop_by_id u v id (j ∷ jobs) h = ground (
  arith,
  follows-pop_by_id u v id jobs h.1,
  follows-absent jobs u v,
  eq_iff j.id id,
  eq_iff j.id u,
  eq_iff u id,
)

-- The ids and the edges that are left.
pub ids-removed :
    (k id : String) (jobs : List Job)
    → UniqueIds jobs
    → member k (ids (strip_references id (pop_by_id id jobs)))
      ≡ (member k (ids jobs) && not (k == id))
ids-removed k id jobs h =
    ap (member k) (ids-strip_references id (pop_by_id id jobs)) ∙ ids-pop_by_id k id jobs h

pub follows-removed :
    (u v id : String) (jobs : List Job)
    → UniqueIds jobs
    → follows (strip_references id (pop_by_id id jobs)) u v
      ≡ (follows jobs u v && not (u == id) && not (v == id))
follows-removed u v id jobs h =
    follows-strip_references u v id (pop_by_id id jobs)
    ∙ ap (λ b. b && not (v == id)) (follows-pop_by_id u v id jobs h)
    ∙ ground arith

unique_strip :
    (id : String) (jobs : List Job) → UniqueIds jobs → UniqueIds (strip_references id jobs)
unfolding strip_references
unique_strip id [] h = tt
unique_strip id (j ∷ jobs) h =
    (ap (member j.id) (ids-strip_references id jobs) ∙ h.0, unique_strip id jobs h.1)

pub removed-UniqueIds :
    (id : String) (jobs : List Job)
    → UniqueIds jobs
    → UniqueIds (strip_references id (pop_by_id id jobs))
removed-UniqueIds id jobs h = unique_strip id (pop_by_id id jobs) (pop_by_id-UniqueIds id jobs h)

pub removed-Consistent :
    (id : String) (jobs : List Job)
    → UniqueIds jobs
    → Consistent jobs
    → Consistent (strip_references id (pop_by_id id jobs))
removed-Consistent id jobs h c = (
  λ u v e.
      (let old : follows jobs u v ≡ true = ground (arith, follows-removed u v id jobs h) in
        let named = c.0 u v old in
        (named.0, ground (arith, named, ids-removed v id jobs h, follows-removed u v id jobs h))),
  λ u walk. c.1 u (
      grow-Walk _ (follows jobs) (λ x y e. ground (arith, follows-removed x y id jobs h)) u u walk),
)
