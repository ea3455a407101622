-- ===== src/Jobs/Schtasks/Sync.antt =====
-- src/jobs/schtasks.py: the listing, deletion and creation of the tasks of a job.
pub mod Counted
pub mod Present
use Prim.Native.Char.{Char}
use Prim.Native.String.{◌++◌ as append}
use app_launcher_lite.Prelude.{
  ℕ, zero, suc, String, ◌==◌, Bool, true, false, not, ◌&&◌, ◌||◌, Option, none, some, is_some, List,
  [], ◌∷◌, ◌++◌, map, length, eqb, if◌then◌else◌,
}
use app_launcher_lite.Prelude.Decimal.{show}
use app_launcher_lite.Prelude.Json.{Json, Items, nil, cons}
use app_launcher_lite.Prelude.Member.{member}
use app_launcher_lite.Prelude.Texts.{partition, splitlines, drop_left, drop_right}
use app_launcher_lite.Jobs.Job.{Job, Schedule}
use app_launcher_lite.Jobs.Trigger.{after_prefix}
use app_launcher_lite.Jobs.Registry.{ids, malformed}
use app_launcher_lite.Jobs.Registry.Checked.{Checked, ok, err, ◌>>=◌}
use app_launcher_lite.Jobs.Registry.Python.{Python, strip, str_of, is_char}
use app_launcher_lite.Jobs.Schtasks.State.{Proc, Tasks, invalidate_next_run_cache}
use app_launcher_lite.Jobs.Schtasks.Tasks.{
  Install, task_folder_prefix, base_name, slot_name, task_names_for, task_run_command,
  schedule_argv_parts, known_tasks, owns_task,
}

abbrev pub query_argv : List String
query_argv = "schtasks" ∷ "/Query" ∷ "/FO" ∷ "CSV" ∷ "/NH" ∷ []

abbrev pub delete_argv : String → List String
delete_argv name = "schtasks" ∷ "/Delete" ∷ "/F" ∷ "/TN" ∷ name ∷ []

abbrev pub create_argv : String → String → List String → List String
create_argv name tr part = ("schtasks" ∷ "/Create" ∷ "/F" ∷ "/TN" ∷ name ∷ "/TR" ∷ tr ∷ []) ++ part

-- `_MAX_DAILY_TIMES_VARIANTS` slots, counted from `n`.
unfoldable pub blind_slots : String → ℕ → ℕ → List String
unfolding slot_name
blind_slots base n zero = []
blind_slots base n (suc k) = slot_name base n ∷ blind_slots base (suc n) k

abbrev pub max_daily_times_variants : ℕ
max_daily_times_variants = 24

module _ {S : Type 0} (i : Install) (py : Python) (run : S → List String → Proc × S) where
  -- `runner(argv)`
  unfoldable pub execute : Tasks S → List String → Proc × Tasks S
  execute t argv = let (p, s) = run t.scheduler argv in (p, record t { scheduler = s })

  -- `list_known_tasks`
  unfoldable pub list_known_tasks : Tasks S → Option (List String) × Tasks S
  unfolding execute known_tasks
  list_known_tasks t =
      let (p, t') = execute t query_argv in (known_tasks (task_folder_prefix i) p, t')

  -- The names to try: those of the query, or the bare task and every slot.
  unfoldable pub candidates : String → Option (List String) → List String
  unfolding base_name blind_slots
  candidates job_id none =
      let base = base_name i job_id in base ∷ blind_slots base 1 max_daily_times_variants
  candidates job_id (some names) = names

  unfoldable pub owned : String → List String → List String → List String
  unfolding owns_task
  owned job_id others [] = []
  owned job_id others (n ∷ names) =
      let rest = owned job_id others names in
      if owns_task i py.is_digit n job_id others then n ∷ rest else rest

  -- The loop of `delete_schtasks` over its targets.
  unfoldable pub delete_each : Tasks S → List String → List String × Tasks S
  unfolding execute
  delete_each t [] = ([], t)
  delete_each t (n ∷ names) =
      let (p, t') = execute t (delete_argv n) in
      let (deleted, t'') = delete_each t' names in
      (if p.succeeded then n ∷ deleted else deleted, t'')

  -- `delete_schtasks`
  unfoldable pub delete_schtasks : Tasks S → String → List String → List String × Tasks S
  unfolding list_known_tasks candidates owned delete_each invalidate_next_run_cache
  delete_schtasks t job_id others =
      let (known, t') = list_known_tasks t in
      let (deleted, t'') = delete_each t' (owned job_id others (candidates job_id known)) in
      (deleted, invalidate_next_run_cache t'')

  -- The loop of `sync_schtasks` over zip(names, parts).
  unfoldable pub create_each :
      Tasks S → String → List String → List (List String) → List String × Tasks S
  unfolding execute
  create_each t tr (n ∷ names) (part ∷ parts) =
      let (p, t') = execute t (create_argv n tr part) in
      let (created, t'') = create_each t' tr names parts in
      (if p.succeeded then n ∷ created else created, t'')
  create_each t tr _ _ = ([], t)

  unfoldable pub create_all : Tasks S → Job → List (List String) → List String × Tasks S
  unfolding task_names_for create_each task_run_command invalidate_next_run_cache
  create_all t job parts =
      let names = task_names_for i job in
      if not (eqb (length names) (length parts))
      then ([], t)
      else (let (created, t') = create_each t (task_run_command i job.id job.visible) names parts in
          (created, invalidate_next_run_cache t'))

  abbrev pub create_checked :
      Tasks S → Job → Checked (List (List String)) → Checked (List String) × Tasks S
  create_checked t job (err e) = (err e, t)
  create_checked t job (ok parts) = let (created, t') = create_all t job parts in (ok created, t')

  -- `sync_schtasks`; the others are read from the jobs file by each call of `delete_schtasks`.
  unfoldable pub sync_schtasks : Tasks S → Job → List String → Checked (List String) × Tasks S
  unfolding delete_schtasks create_all schedule_argv_parts
  sync_schtasks t job others =
      let (deleted, t') = delete_schtasks t job.id others in
      if job.elevated
      then (ok [], t')
      else if job.schedule.type == "none"
      then (ok [], t')
      else create_checked t' job (schedule_argv_parts py job.schedule)
