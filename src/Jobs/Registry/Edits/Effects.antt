-- ===== src/Jobs/Registry/Edits/Effects.antt =====
-- What `add_job`, `remove_by_id`, `pause_job` and `resume_job` of src/jobs/config.py do.
use app_launcher_lite.Prelude.{
  String, ◌==◌, ◌≡◌, ◌≢◌, refl, ◌∙◌, ap, Bool, true, false, not, ◌&&◌, Option, none, some, List, [],
  ◌∷◌, ◌++◌, ◌↔◌, arith, eq_iff, Bool-cases, inl, inr,
}
use app_launcher_lite.Prelude.Member.{member}
use app_launcher_lite.Jobs.Job.{Job, Schedule, no_schedule}
use app_launcher_lite.Jobs.Registry.{Fault, ids, UniqueIds, follows, get_by_id}
use app_launcher_lite.Jobs.Registry.Chain.{validate_chain_consistency}
use app_launcher_lite.Jobs.Registry.Chain.References.{Consistent, validate_chain_consistency_lem}
use app_launcher_lite.Jobs.Registry.Edits.{
  Registry, Reply, refused, absent, answered, save_jobs, stamp_added, added, add_job, put_job,
  store, is_paused, pause_found, pause_job, stamp_schedule_change, resume_parked, resume_found,
  resume_job, remove_found, remove_by_id,
}
use app_launcher_lite.Jobs.Registry.Edits.Sorted.{append-UniqueIds, pop_last-append}
use app_launcher_lite.Jobs.Registry.Edits.Stored.{
  get_by_id-put_job, get_by_id-id, ids-removed, follows-removed,
}
use app_launcher_lite.Jobs.Registry.Edits.Keeps.{stamp_added-id}

-- The edit returned a job.
abbrev pub is_answered : Reply → Bool
is_answered (refused f) = false
is_answered absent = false
is_answered (answered job) = true

added-is_answered :
    (lower : String → String) (r : Registry) (job : Job) (o : Option Fault)
    → (is_answered (added lower r job o).1 ≡ true) ↔ (o ≡ none)
unfolding added
added-is_answered lower r job none = (λ e. refl, λ e. refl)
added-is_answered lower r job (some f) = (λ e. absurd (cc e), λ e. absurd (cc e))

-- In a registry with unique ids, add_job takes a job exactly when its id is new and the chains of
-- the registry with the job at the end are consistent.
pub add_job_lem :
    (lower : String → String) (now : String) (r : Registry) (job : Job)
    → UniqueIds r.jobs
    → (is_answered (add_job lower now r job).1 ≡ true)
      ↔ (member job.id (ids r.jobs) ≡ false) × Consistent (r.jobs ++ stamp_added now job ∷ [])
unfolding add_job
add_job_lem lower now r job unique = elim (Bool-cases (member job.id (ids r.jobs))) [
  | inl taken ↦ rw taken (λ e. absurd (cc e), λ h. absurd (cc h.0))
  | inr new ↦ rw new (
      let stamped = stamp_added now job in
      let jobs = r.jobs ++ stamped ∷ [] in
      let checks = validate_chain_consistency_lem jobs (
        append-UniqueIds r.jobs stamped unique
          (ap (λ k. member k (ids r.jobs)) (stamp_added-id now job) ∙ new)) in
      let taken =
        added-is_answered lower (record r { jobs = jobs }) stamped
          (validate_chain_consistency jobs) in
      (λ e. (refl, checks.0 (taken.0 e)), λ h. taken.1 (checks.1 h.1)))
]

-- In a registry with unique ids, removing a registered job answers it, writes what is left, and
-- takes from the registry exactly its id and the chain edges that leave it or lead to it.
pub remove_by_id_lem :
    (r : Registry) (id : String) (job : Job)
    → UniqueIds r.jobs
    → get_by_id r.jobs id ≡ some job
    → let out = remove_by_id r id in
      (out.1 ≡ answered job)
      × (out.0.file ≡ out.0.jobs)
      × ((k : String) → member k (ids out.0.jobs) ≡ (member k (ids r.jobs) && not (k == id)))
      × ((u v : String)
          → follows out.0.jobs u v ≡ (follows r.jobs u v && not (u == id) && not (v == id)))
unfolding remove_by_id remove_found save_jobs
remove_by_id_lem r id job unique found =
    rw found (
      refl,
      refl,
      (λ k. ids-removed k id r.jobs unique),
      λ u v. follows-removed u v id r.jobs unique,
    )

put_job-put_job :
    (id : String) (a b : Job) (jobs : List Job)
    → a.id ≡ id
    → put_job id b (put_job id a jobs) ≡ put_job id b jobs
unfolding put_job
put_job-put_job id a b [] e = refl
put_job-put_job id a b (j ∷ jobs) e = ground (arith, put_job-put_job id a b jobs e, eq_iff a.id id)

-- Pausing and then resuming a job that has a schedule and is not paused gives back the registry as
-- it was, but for the stamp of the change of schedule on that job, and the file holds it.
pub resume_job-pause_job :
    (now : String) (r : Registry) (id : String) (job : Job)
    → get_by_id r.jobs id ≡ some job
    → job.paused_schedule ≡ none
    → (job.schedule.type == "none") ≡ false
    → let out = resume_job now (pause_job r id).0 id in
      (out.0.jobs ≡ put_job id (stamp_schedule_change now job) r.jobs) × (out.0.file ≡ out.0.jobs)
unfolding resume_job pause_job pause_found is_paused store save_jobs resume_found resume_parked
    stamp_schedule_change
resume_job-pause_job now r id job found live scheduled =
    rw (found, live, scheduled)
      (let parked = record job { paused_schedule = some job.schedule; schedule = no_schedule } in
        let own = get_by_id-id id job r.jobs found in
        rw (get_by_id-put_job id job parked r.jobs found own)
          (put_job-put_job id parked _ r.jobs own, refl))

refused_added :
    (lower : String → String) (r : Registry) (job stamped : Job) (o : Option Fault) (f : Fault)
    → let out = added lower (record r { jobs = r.jobs ++ stamped ∷ [] }) job o in
      out.1 ≡ refused f → out.0 ≡ r
unfolding added
refused_added lower r job stamped none f e = cc
refused_added lower r job stamped (some g) f e =
    ap (λ l. record r { jobs = l }) (pop_last-append r.jobs stamped)

pub refused_add_job :
    (lower : String → String) (now : String) (r : Registry) (job : Job) (f : Fault)
    → (add_job lower now r job).1 ≡ refused f
    → (add_job lower now r job).0 ≡ r
unfolding add_job
refused_add_job lower now r job f = elim (Bool-cases (member job.id (ids r.jobs))) [
  | inl taken ↦ rw taken (λ e. refl)
  | inr new ↦ rw new (
      let stamped = stamp_added now job in
      refused_added lower r stamped stamped (validate_chain_consistency (r.jobs ++ stamped ∷ [])) f)
]

refused_pause_found :
    (r : Registry) (id : String) (o : Option Job) (f : Fault)
    → (pause_found r id o).1 ≡ refused f
    → (pause_found r id o).0 ≡ r
unfolding pause_found store
refused_pause_found r id none f = λ e. refl
refused_pause_found r id (some job) f = elim (Bool-cases (is_paused job)) [
  | inl b ↦ rw b (λ e. refl)
  | inr b ↦ rw b (elim (Bool-cases (job.schedule.type == "none")) [
    | inl m ↦ rw m (λ e. refl)
    | inr m ↦ rw m (λ e. absurd (cc e))
  ])
]

pub refused_pause_job :
    (r : Registry) (id : String) (f : Fault)
    → (pause_job r id).1 ≡ refused f
    → (pause_job r id).0 ≡ r
unfolding pause_job
refused_pause_job r id f e = refused_pause_found r id (get_by_id r.jobs id) f e

resume_parked-answers :
    (now : String) (r : Registry) (id : String) (job : Job) (o : Option Schedule) (f : Fault)
    → (resume_parked now r id job o).1 ≢ refused f
unfolding resume_parked store
resume_parked-answers now r id job none f e = cc
resume_parked-answers now r id job (some parked) f e = cc

resume_found-answers :
    (now : String) (r : Registry) (id : String) (o : Option Job) (f : Fault)
    → (resume_found now r id o).1 ≢ refused f
unfolding resume_found
resume_found-answers now r id none f e = cc
resume_found-answers now r id (some job) f e =
    resume_parked-answers now r id job job.paused_schedule f e

pub resume_job-answers :
    (now : String) (r : Registry) (id : String) (f : Fault) → (resume_job now r id).1 ≢ refused f
unfolding resume_job
resume_job-answers now r id f = resume_found-answers now r id (get_by_id r.jobs id) f

remove_found-answers :
    (r : Registry) (id : String) (o : Option Job) (f : Fault) → (remove_found r id o).1 ≢ refused f
unfolding remove_found
remove_found-answers r id none f e = cc
remove_found-answers r id (some job) f e = cc

pub remove_by_id-answers :
    (r : Registry) (id : String) (f : Fault) → (remove_by_id r id).1 ≢ refused f
unfolding remove_by_id
remove_by_id-answers r id f = remove_found-answers r id (get_by_id r.jobs id) f
