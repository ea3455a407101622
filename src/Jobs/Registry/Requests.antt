-- ===== src/Jobs/Registry/Requests.antt =====
-- The edits of src/jobs/config.py as the routes of app/webapp/routers/jobs.py call them.
use app_launcher_lite.Prelude.{String, ◌≡◌, refl, ap, Bool, true, false, Option, none, some}
use app_launcher_lite.Prelude.Json.{Members}
use app_launcher_lite.Jobs.Job.{Job}
use app_launcher_lite.Jobs.Registry.{Fault, get_by_id}
use app_launcher_lite.Jobs.Registry.Python.{Python}
use app_launcher_lite.Jobs.Registry.Edits.{
  Registry, Reply, refused, add_job, pause_job, resume_job, remove_by_id,
}
use app_launcher_lite.Jobs.Registry.Edits.Keeps.{
  Good, add_job-Sound, pause_job-Sound, resume_job-Sound, remove_by_id-Sound,
}
use app_launcher_lite.Jobs.Registry.Edits.Effects.{
  refused_add_job, refused_pause_job, resume_job-answers, remove_by_id-answers,
}
use app_launcher_lite.Jobs.Registry.Updates.{
  Draft, edit_all, finish_update, update_found, update_job,
}
use app_launcher_lite.Jobs.Registry.Updates.Keeps.{update_job-Good}

-- One edit of the registry.
pub data Edit : Type 0 where
  add : Job → Edit
  change : String → Members → Edit
  pause resume remove : String → Edit

unfoldable pub edit : Python → String → Registry → Edit → Registry × Reply
unfolding add_job update_job pause_job resume_job remove_by_id
edit py now r (add job) = add_job py.lower now r job
edit py now r (change id d) = update_job py now r id d
edit py now r (pause id) = pause_job r id
edit py now r (resume id) = resume_job now r id
edit py now r (remove id) = remove_by_id r id

-- The edits that change nothing in memory either when they are refused.
abbrev pub all_or_nothing : Edit → Bool
all_or_nothing (change id d) = false
all_or_nothing _ = true

-- Whatever edit is made, accepted or refused: when the jobs in memory and those in the file have
-- unique ids and chain lists that name only other jobs of their list, without a cycle, so have
-- those in the file after it; and so have those in memory, unless the edit is update_job.
pub edit-Good :
    (py : Python) (now : String) (r : Registry) (e : Edit)
    → Good r.jobs
    → Good r.file
    → let r' = (edit py now r e).0 in Good r'.file × (all_or_nothing e ≡ true → Good r'.jobs)
unfolding edit
edit-Good py now r (add job) good filed =
    let sound = add_job-Sound py.lower now r job (good, filed) in (sound.1, λ _. sound.0)
edit-Good py now r (change id d) good filed =
    (update_job-Good py now r id d good filed, λ no. absurd (cc no))
edit-Good py now r (pause id) good filed =
    let sound = pause_job-Sound r id (good, filed) in (sound.1, λ _. sound.0)
edit-Good py now r (resume id) good filed =
    let sound = resume_job-Sound now r id (good, filed) in (sound.1, λ _. sound.0)
edit-Good py now r (remove id) good filed =
    let sound = remove_by_id-Sound r id (good, filed) in (sound.1, λ _. sound.0)

refused_finish :
    (py : Python) (r : Registry) (id : String) (x : Draft) (f : Fault)
    → (finish_update py r id x).1 ≡ refused f
    → (finish_update py r id x).0.file ≡ r.file
unfolding finish_update
refused_finish py r id (job, some g) f e = refl
refused_finish py r id (job, none) f e = cc

refused_update_found :
    (py : Python) (now : String) (r : Registry) (id : String) (d : Members) (o : Option Job)
    (f : Fault)
    → (update_found py now r id d o).1 ≡ refused f
    → (update_found py now r id d o).0.file ≡ r.file
unfolding update_found
refused_update_found py now r id d none f e = cc
refused_update_found py now r id d (some job) f e =
    refused_finish py r id (edit_all py now r.jobs id d job) f e

refused_update :
    (py : Python) (now : String) (r : Registry) (id : String) (d : Members) (f : Fault)
    → (update_job py now r id d).1 ≡ refused f
    → (update_job py now r id d).0.file ≡ r.file
unfolding update_job
refused_update py now r id d f e = refused_update_found py now r id d (get_by_id r.jobs id) f e

whole : (r s : Registry) (b : Bool) → s ≡ r → (s.file ≡ r.file) × (b ≡ true → s.jobs ≡ r.jobs)
whole r s b e = (ap (λ (x : Registry). x.file) e, λ h. ap (λ (x : Registry). x.jobs) e)

-- An edit that raises ValueError leaves the file as it was, and, unless it is update_job, the jobs
-- in memory too.
pub refused_edit :
    (py : Python) (now : String) (r : Registry) (e : Edit) (f : Fault)
    → let out = edit py now r e in
      out.1 ≡ refused f → (out.0.file ≡ r.file) × (all_or_nothing e ≡ true → out.0.jobs ≡ r.jobs)
unfolding edit
refused_edit py now r (add job) f h = whole r _ true (refused_add_job py.lower now r job f h)
refused_edit py now r (change id d) f h = (refused_update py now r id d f h, λ no. absurd (cc no))
refused_edit py now r (pause id) f h = whole r _ true (refused_pause_job r id f h)
refused_edit py now r (resume id) f h = absurd (resume_job-answers now r id f h)
refused_edit py now r (remove id) f h = absurd (remove_by_id-answers r id f h)
