-- ===== src/Jobs/Registry/Edits/Keeps.antt =====
-- The edits of src/jobs/config.py and the two facts that a registry keeps: unique ids and
-- consistent chains.
use app_launcher_lite.Prelude.{
  String, ◌==◌, ◌≡◌, refl, sym, ◌∙◌, ap, subst, Option, none, some, List, [], ◌∷◌, ◌++◌, Bool-cases,
  inl, inr,
}
use app_launcher_lite.Prelude.Member.{member}
use app_launcher_lite.Jobs.Job.{Job, Schedule, no_schedule}
use app_launcher_lite.Jobs.Registry.{Fault, ids, UniqueIds, get_by_id}
use app_launcher_lite.Jobs.Registry.Chain.{validate_chain_consistency}
use app_launcher_lite.Jobs.Registry.Chain.References.{Consistent, validate_chain_consistency_lem}
use app_launcher_lite.Jobs.Registry.Edits.{
  Registry, save_jobs, sort_by_name, stamp_added, added, add_job, put_job, store, is_paused,
  pause_found, pause_job, stamp_schedule_change, resume_parked, resume_found, resume_job,
  remove_found, remove_by_id, strip_references, pop_by_id,
}
use app_launcher_lite.Jobs.Registry.Edits.Sorted.{
  ids-sort_by_name, follows-sort_by_name, sort_by_name-UniqueIds, append-UniqueIds, pop_last-append,
  same-Consistent,
}
use app_launcher_lite.Jobs.Registry.Edits.Stored.{
  ids-put_job, put_job-UniqueIds, follows-put_job, get_by_id-id, removed-UniqueIds,
  removed-Consistent,
}

abbrev pub Good : List Job → Type 0
Good jobs = UniqueIds jobs × Consistent jobs

pub sort_by_name-Good :
    (lower : String → String) (jobs : List Job) → Good jobs → Good (sort_by_name lower jobs)
sort_by_name-Good lower jobs good = (
  sort_by_name-UniqueIds lower jobs good.0,
  same-Consistent jobs (sort_by_name lower jobs) (λ u v. sym (follows-sort_by_name lower u v jobs))
      (λ k. sym (ids-sort_by_name lower k jobs)) good.1,
)

pub put_job-Good :
    (id : String) (job new : Job) (jobs : List Job)
    → get_by_id jobs id ≡ some job
    → new.id ≡ job.id
    → new.on_success ≡ job.on_success
    → new.on_failure ≡ job.on_failure
    → Good jobs
    → Good (put_job id new jobs)
put_job-Good id job new jobs found e s f good =
    let own = e ∙ get_by_id-id id job jobs found in
    (
      put_job-UniqueIds id new jobs own good.0,
      same-Consistent jobs (put_job id new jobs)
          (λ u v. sym (follows-put_job u v id job new jobs found own s f))
          (λ k. sym (ids-put_job k id new jobs own)) good.1,
    )

-- Both the jobs in memory and those in the file.
abbrev pub Sound : Registry → Type 0
Sound r = Good r.jobs × Good r.file

pub stamp_added-id : (now : String) (job : Job) → (stamp_added now job).id ≡ job.id
unfolding stamp_added
stamp_added-id now job = elim (Bool-cases (job.added_at == "")) [ inl e ↦ rw e | inr e ↦ rw e ]

added-Sound :
    (lower : String → String) (r : Registry) (job stamped : Job) (o : Option Fault)
    → Sound r
    → UniqueIds (r.jobs ++ stamped ∷ [])
    → validate_chain_consistency (r.jobs ++ stamped ∷ []) ≡ o
    → Sound (added lower (record r { jobs = r.jobs ++ stamped ∷ [] }) job o).0
unfolding added save_jobs
added-Sound lower r job stamped none sound unique e =
    let good =
      sort_by_name-Good lower (r.jobs ++ stamped ∷ [])
        (unique, (validate_chain_consistency_lem (r.jobs ++ stamped ∷ []) unique).0 e) in
    (good, good)
added-Sound lower r job stamped (some f) sound unique e =
    (subst Good (sym (pop_last-append r.jobs stamped)) sound.0, sound.1)

pub add_job-Sound :
    (lower : String → String) (now : String) (r : Registry) (job : Job)
    → Sound r
    → Sound (add_job lower now r job).0
unfolding add_job
add_job-Sound lower now r job sound = elim (Bool-cases (member job.id (ids r.jobs))) [
  | inl taken ↦ rw taken sound
  | inr new ↦ rw new (
      let stamped = stamp_added now job in
      added-Sound lower r stamped stamped (validate_chain_consistency (r.jobs ++ stamped ∷ []))
        sound
        (append-UniqueIds r.jobs stamped sound.0.0
          (ap (λ k. member k (ids r.jobs)) (stamp_added-id now job) ∙ new))
        refl)
]

store-Sound :
    (r : Registry) (id : String) (job new : Job)
    → get_by_id r.jobs id ≡ some job
    → new.id ≡ job.id
    → new.on_success ≡ job.on_success
    → new.on_failure ≡ job.on_failure
    → Sound r
    → Sound (store r id new).0
unfolding store save_jobs
store-Sound r id job new found e s f sound =
    let good = put_job-Good id job new r.jobs found e s f sound.0 in (good, good)

pause_found-Sound :
    (r : Registry) (id : String) (o : Option Job)
    → get_by_id r.jobs id ≡ o
    → Sound r
    → Sound (pause_found r id o).0
unfolding pause_found
pause_found-Sound r id none e sound = sound
pause_found-Sound r id (some job) e sound =
    let moved = record job { paused_schedule = some job.schedule; schedule = no_schedule } in
    let parked = store-Sound r id job moved e refl refl refl sound in
    elim (Bool-cases (is_paused job)) [
      | inl b ↦ rw b sound
      | inr b ↦ rw b (elim (Bool-cases (job.schedule.type == "none")) [
        | inl m ↦ rw m sound
        | inr m ↦ rw m parked
      ])
    ]

pub pause_job-Sound : (r : Registry) (id : String) → Sound r → Sound (pause_job r id).0
unfolding pause_job
pause_job-Sound r id sound = pause_found-Sound r id (get_by_id r.jobs id) refl sound

resume_parked-Sound :
    (now : String) (r : Registry) (id : String) (job : Job) (o : Option Schedule)
    → get_by_id r.jobs id ≡ some job
    → Sound r
    → Sound (resume_parked now r id job o).0
unfolding resume_parked stamp_schedule_change
resume_parked-Sound now r id job none e sound = sound
resume_parked-Sound now r id job (some parked) e sound =
    store-Sound r id job
      (stamp_schedule_change now (record job { schedule = parked; paused_schedule = none })) e refl
      refl refl sound

resume_found-Sound :
    (now : String) (r : Registry) (id : String) (o : Option Job)
    → get_by_id r.jobs id ≡ o
    → Sound r
    → Sound (resume_found now r id o).0
unfolding resume_found
resume_found-Sound now r id none e sound = sound
resume_found-Sound now r id (some job) e sound =
    resume_parked-Sound now r id job job.paused_schedule e sound

pub resume_job-Sound :
    (now : String) (r : Registry) (id : String) → Sound r → Sound (resume_job now r id).0
unfolding resume_job
resume_job-Sound now r id sound = resume_found-Sound now r id (get_by_id r.jobs id) refl sound

remove_found-Sound :
    (r : Registry) (id : String) (o : Option Job) → Sound r → Sound (remove_found r id o).0
unfolding remove_found save_jobs
remove_found-Sound r id none sound = sound
remove_found-Sound r id (some removed) sound =
    let good : Good (strip_references id (pop_by_id id r.jobs)) =
      (removed-UniqueIds id r.jobs sound.0.0, removed-Consistent id r.jobs sound.0.0 sound.0.1) in
    (good, good)

pub remove_by_id-Sound : (r : Registry) (id : String) → Sound r → Sound (remove_by_id r id).0
unfolding remove_by_id
remove_by_id-Sound r id sound = remove_found-Sound r id (get_by_id r.jobs id) sound
