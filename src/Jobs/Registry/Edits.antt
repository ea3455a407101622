-- ===== src/Jobs/Registry/Edits.antt =====
-- src/jobs/config.py: the edits that add, pause, resume and remove a job. What Python's
-- `str.lower` makes of a name and the text of the present time are arguments.
pub mod Sorted
pub mod Stored
pub mod Keeps
pub mod Effects
use Prim.Native.Nat.{Ordering}
use Prim.Native.String.{compare as compare_text}
use app_launcher_lite.Prelude.{
  String, ◌==◌, Bool, true, false, Option, none, some, List, [], ◌∷◌, ◌++◌, if◌then◌else◌, is_some,
}
use app_launcher_lite.Prelude.Member.{member}
use app_launcher_lite.Jobs.Job.{Job, Schedule, no_schedule}
use app_launcher_lite.Jobs.Registry.{Fault, duplicate_id, nothing_scheduled, ids, get_by_id}
use app_launcher_lite.Jobs.Registry.Chain.{validate_chain_consistency}

-- The configuration in memory, and the jobs that the file holds.
pub record Registry : Type 0 where
  pub jobs : List Job
  pub file : List Job

-- An edit raises, returns `None`, or returns the job.
pub data Reply : Type 0 where
  refused : Fault → Reply
  absent : Reply
  answered : Job → Reply

-- `save_jobs`
unfoldable pub save_jobs : Registry → Registry
save_jobs r = record r { file = r.jobs }

-- `cfg.jobs.sort(key=lambda j: j.name.lower())`, which is stable.
unfoldable pub before : (String → String) → Job → Job → Bool
before lower a b = elim (compare_text (lower a.name) (lower b.name)) [
  | Ordering.gt ↦ false
  | _ ↦ true
]

unfoldable pub insert_by_name : (String → String) → Job → List Job → List Job
unfolding before
insert_by_name lower j [] = j ∷ []
insert_by_name lower j (k ∷ jobs) =
    let rest = insert_by_name lower j jobs in if before lower j k then j ∷ k ∷ jobs else k ∷ rest

unfoldable pub sort_by_name : (String → String) → List Job → List Job
unfolding insert_by_name
sort_by_name lower [] = []
sort_by_name lower (j ∷ jobs) = insert_by_name lower j (sort_by_name lower jobs)

-- xs.pop()
unfoldable pub pop_last : List Job → List Job
pop_last [] = []
pop_last (j ∷ []) = []
pop_last (j ∷ k ∷ jobs) = j ∷ pop_last (k ∷ jobs)

unfoldable pub stamp_added : String → Job → Job
stamp_added now job = if job.added_at == "" then record job { added_at = now } else job

-- `add_job` once the job is appended, by what the chain checks find.
unfoldable pub added : (String → String) → Registry → Job → Option Fault → Registry × Reply
unfolding pop_last sort_by_name save_jobs
added lower r job (some f) = (record r { jobs = pop_last r.jobs }, refused f)
added lower r job none = (save_jobs (record r { jobs = sort_by_name lower r.jobs }), answered job)

-- `add_job`
unfoldable pub add_job : (String → String) → String → Registry → Job → Registry × Reply
unfolding added stamp_added ids
add_job lower now r job =
    let stamped = stamp_added now job in
    let jobs = r.jobs ++ stamped ∷ [] in
    if member job.id (ids r.jobs)
    then (r, refused (duplicate_id job.id))
    else added lower (record r { jobs = jobs }) stamped (validate_chain_consistency jobs)

-- `is_paused`
unfoldable pub is_paused : Job → Bool
is_paused job = is_some job.paused_schedule

-- The assignments to the fields of the job that `get_by_id` finds.
unfoldable pub put_job : String → Job → List Job → List Job
put_job id new [] = []
put_job id new (j ∷ jobs) = if j.id == id then new ∷ jobs else j ∷ put_job id new jobs

unfoldable pub store : Registry → String → Job → Registry × Reply
unfolding put_job save_jobs
store r id new = (save_jobs (record r { jobs = put_job id new r.jobs }), answered new)

unfoldable pub pause_found : Registry → String → Option Job → Registry × Reply
unfolding is_paused store
pause_found r id none = (r, absent)
pause_found r id (some job) =
    if is_paused job
    then (r, answered job)
    else if job.schedule.type == "none"
    then (r, refused nothing_scheduled)
    else store r id (record job { paused_schedule = some job.schedule; schedule = no_schedule })

-- `pause_job`
unfoldable pub pause_job : Registry → String → Registry × Reply
unfolding pause_found get_by_id
pause_job r id = pause_found r id (get_by_id r.jobs id)

-- `_stamp_schedule_change`
unfoldable pub stamp_schedule_change : String → Job → Job
stamp_schedule_change now job = record job { schedule_changed_at = now }

unfoldable pub resume_parked : String → Registry → String → Job → Option Schedule → Registry × Reply
unfolding stamp_schedule_change store
resume_parked now r id job none = (r, answered job)
resume_parked now r id job (some parked) =
    store r id
      (stamp_schedule_change now (record job { schedule = parked; paused_schedule = none }))

unfoldable pub resume_found : String → Registry → String → Option Job → Registry × Reply
unfolding resume_parked
resume_found now r id none = (r, absent)
resume_found now r id (some job) = resume_parked now r id job job.paused_schedule

-- `resume_job`
unfoldable pub resume_job : String → Registry → String → Registry × Reply
unfolding resume_found get_by_id
resume_job now r id = resume_found now r id (get_by_id r.jobs id)

-- The first loop of `remove_by_id`: the jobs without the first one of that id.
unfoldable pub pop_by_id : String → List Job → List Job
pop_by_id id [] = []
pop_by_id id (j ∷ jobs) = if j.id == id then jobs else j ∷ pop_by_id id jobs

-- [x for x in xs if x != id]
unfoldable pub without : String → List String → List String
without id [] = []
without id (x ∷ xs) = let rest = without id xs in if x == id then rest else x ∷ rest

unfoldable pub strip_list : String → List String → List String
unfolding without
strip_list id xs = if member id xs then without id xs else xs

unfoldable pub strip_reference : String → Job → Job
unfolding strip_list
strip_reference id j = record j {
  on_success = strip_list id j.on_success;
  on_failure = strip_list id j.on_failure;
}

unfoldable pub strip_references : String → List Job → List Job
unfolding strip_reference
strip_references id [] = []
strip_references id (j ∷ jobs) = strip_reference id j ∷ strip_references id jobs

unfoldable pub remove_found : Registry → String → Option Job → Registry × Reply
unfolding strip_references pop_by_id save_jobs
remove_found r id none = (r, absent)
remove_found r id (some removed) =
    (save_jobs (record r { jobs = strip_references id (pop_by_id id r.jobs) }), answered removed)

-- `remove_by_id`
unfoldable pub remove_by_id : Registry → String → Registry × Reply
unfolding remove_found get_by_id
remove_by_id r id = remove_found r id (get_by_id r.jobs id)
