-- ===== src/Jobs/Registry/Updates/Keeps.antt =====
-- `update_job` of src/jobs/config.py: what is written has passed the chain checks.
use app_launcher_lite.Prelude.{
  String, ◌≡◌, refl, ◌∙◌, ◌||◌, Option, none, some, List, Bool-cases, inl, inr,
}
use app_launcher_lite.Prelude.Json.{Members, has_key}
use app_launcher_lite.Jobs.Job.{Job}
use app_launcher_lite.Jobs.Registry.{Fault, get_by_id}
use app_launcher_lite.Jobs.Registry.Chain.{validate_chain_consistency}
use app_launcher_lite.Jobs.Registry.Chain.References.{validate_chain_consistency_lem}
use app_launcher_lite.Jobs.Registry.Edits.{Registry, put_job, save_jobs}
use app_launcher_lite.Jobs.Registry.Edits.Stored.{put_job-UniqueIds, get_by_id-id}
use app_launcher_lite.Jobs.Registry.Edits.Keeps.{Good, put_job-Good, sort_by_name-Good}
use app_launcher_lite.Jobs.Registry.Python.{Python}
use app_launcher_lite.Jobs.Registry.Updates.{
  Draft, and_then, edit_simple, edit_shape, edit_lists, reverted, edit_chains, edit_all,
  finish_update, update_found, update_job,
}
use app_launcher_lite.Jobs.Registry.Updates.Kept.{
  Kept, and_then-Kept, edit_simple-Kept, edit_shape-Kept, edit_lists-id, no_lists,
}

-- A draft that ended well can take the job's place.
abbrev pub Fit : List Job → String → Draft → Type 0
Fit jobs id (new, none) = Good (put_job id new jobs)
Fit jobs id (new, some f) = Unit

module _ (jobs : List Job) (id : String) (job : Job) (found : get_by_id jobs id ≡ some job)
    (good : Good jobs) where
  own_id : (j : Job) → j.id ≡ job.id → j.id ≡ id
  own_id j e = e ∙ get_by_id-id id job jobs found

  reverted-Fit :
      (j new : Job) (o : Option Fault)
      → new.id ≡ job.id
      → validate_chain_consistency (put_job id new jobs) ≡ o
      → Fit jobs id (reverted j new o)
  unfolding reverted
  reverted-Fit j new (some f) e passed = tt
  reverted-Fit j new none e passed =
      let unique = put_job-UniqueIds id new jobs (own_id new e) good.0 in
      (unique, (validate_chain_consistency_lem (put_job id new jobs) unique).0 passed)

  checked-Fit :
      (j : Job) (x : Draft)
      → x.0.id ≡ job.id
      → Fit jobs id
          (and_then x (λ new. reverted j new (validate_chain_consistency (put_job id new jobs))))
  unfolding and_then
  checked-Fit j (new, none) e =
      reverted-Fit j new (validate_chain_consistency (put_job id new jobs)) e refl
  checked-Fit j (new, some f) e = tt

  edit_chains-Fit : (d : Members) (j : Job) → Kept job j → Fit jobs id (edit_chains jobs id d j)
  unfolding edit_chains
  edit_chains-Fit d j kept = elim (Bool-cases (has_key "on_success" d || has_key "on_failure" d)) [
    | inl e ↦ rw e (checked-Fit j (edit_lists d j) (edit_lists-id d j ∙ kept.same_id))
    | inr e ↦
        rw (e, no_lists d j e)
          (put_job-Good id job j jobs found kept.same_id kept.same_success kept.same_failure good)
  ]

  then-Fit :
      (x : Draft) (next : Job → Draft)
      → Kept job x.0
      → ((j : Job) → Kept job j → Fit jobs id (next j))
      → Fit jobs id (and_then x next)
  unfolding and_then
  then-Fit (j, none) next kept step = step j kept
  then-Fit (j, some f) next kept step = tt

  pub edit_all-Fit :
      (py : Python) (now : String) (d : Members) → Fit jobs id (edit_all py now jobs id d job)
  unfolding edit_all
  edit_all-Fit py now d =
      then-Fit (and_then (edit_simple py now d job) (edit_shape py d)) (edit_chains jobs id d)
        (and_then-Kept job (edit_simple py now d job) (edit_shape py d)
          (edit_simple-Kept py now d job) (edit_shape-Kept py d))
        (edit_chains-Fit d)

finish_update-Good :
    (py : Python) (r : Registry) (id : String) (x : Draft)
    → Fit r.jobs id x
    → Good r.file
    → Good (finish_update py r id x).0.file
unfolding finish_update save_jobs
finish_update-Good py r id (j, some f) fit good = good
finish_update-Good py r id (j, none) fit good = sort_by_name-Good py.lower (put_job id j r.jobs) fit

update_found-Good :
    (py : Python) (now : String) (r : Registry) (id : String) (d : Members) (o : Option Job)
    → get_by_id r.jobs id ≡ o
    → Good r.jobs
    → Good r.file
    → Good (update_found py now r id d o).0.file
unfolding update_found
update_found-Good py now r id d none e good file = file
update_found-Good py now r id d (some job) e good file =
    finish_update-Good py r id (edit_all py now r.jobs id d job)
      (edit_all-Fit r.jobs id job e good py now d) file

pub update_job-Good :
    (py : Python) (now : String) (r : Registry) (id : String) (d : Members)
    → Good r.jobs
    → Good r.file
    → Good (update_job py now r id d).0.file
unfolding update_job
update_job-Good py now r id d good file =
    update_found-Good py now r id d (get_by_id r.jobs id) refl good file
