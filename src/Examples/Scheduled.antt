-- ===== src/Examples/Scheduled.antt =====
-- The theorems on schedules, tasks and coverage at concrete jobs.
use app_launcher_lite.Prelude.{
  not, ◌+◌, ◌*◌, ◌<◌, arith, String, ◌==◌, ◌≡◌, refl, true, false, ◌&&◌, length, some, none, List,
  [], ◌∷◌, ltb, eq_iff, if◌then◌else◌,
}
use app_launcher_lite.Prelude.Int.{pos}
use app_launcher_lite.Prelude.Member.{member}
use app_launcher_lite.Jobs.Job.{Job, new_job}
use app_launcher_lite.Jobs.Registry.{ids}
use app_launcher_lite.Jobs.Registry.Checked.{ok}
use app_launcher_lite.Jobs.Registry.Python.{is_ascii_digit}
use app_launcher_lite.Jobs.Registry.Schedules.{validate_schedule}
use app_launcher_lite.Jobs.Schtasks.State.{Proc, Tasks}
use app_launcher_lite.Jobs.Schtasks.Fires.{
  Readers, minute, hour, day, is_frequent, next_fire, upcoming_fires,
}
use app_launcher_lite.Jobs.Schtasks.Fires.Named.{fires, IsNext}
use app_launcher_lite.Jobs.Schtasks.Fires.Least.{next_fire_lem}
use app_launcher_lite.Jobs.Schtasks.Fires.Window.{has, Ascending, upcoming_fires_lem}
use app_launcher_lite.Jobs.Schtasks.Tasks.{
  Install, task_folder_prefix, task_names_for, owns_task, other_job_ids, known_tasks,
  schedule_argv_parts,
}
use app_launcher_lite.Jobs.Schtasks.Ownership.{owns_task_unique}
use app_launcher_lite.Jobs.Schtasks.Sync.{sync_schtasks}
use app_launcher_lite.Jobs.Schtasks.Sync.Present.{Synced, Commands, Queried, present-sync_schtasks}
use app_launcher_lite.Examples.Common.{python, daily}

-- Every text of a number is read as 6 or 30.
abbrev pub readers : Readers
readers = record {
  int_of = λ s. if s == "06" then some (pos 6) else some (pos 30);
  from_iso = λ s. none;
}

sparse : is_frequent daily ≡ false
unfolding is_frequent
sparse = refl

next_fire_lem_example :
    IsNext
      (fires readers daily)
      (7 * hour)
      (day + 6 * hour + 30 * minute)
      (next_fire readers daily (7 * hour))
next_fire_lem_example = next_fire_lem readers daily (7 * hour) (day + 6 * hour + 30 * minute) sparse

next_fire_computed : next_fire readers daily (7 * hour) ≡ some (day + 6 * hour + 30 * minute)
unfolding next_fire
next_fire_computed = refl

few_fires : length (upcoming_fires readers daily 0 (3 * day) 200) < 200
unfolding upcoming_fires next_fire
few_fires = omega arith

upcoming_fires_lem_example :
    let l = upcoming_fires readers daily 0 (3 * day) 200 in
    (has (6 * hour) l
      ≡ (fires readers daily (6 * hour) && ltb 0 (6 * hour) && ltb (6 * hour) (3 * day)))
    × Ascending 0 l
upcoming_fires_lem_example =
    upcoming_fires_lem readers daily 0 (3 * day) 200 (6 * hour) sparse few_fires

abbrev pub install : Install
install = record {
  task_namespace = "N";
  python = "python";
  pythonw = "pythonw";
  launcher_py = "l.py";
}

abbrev pub backup : Job
backup = record (new_job "backup" "Backup" "backup.py") { schedule = daily }

abbrev second_backup : Job
second_backup = new_job "backup-2" "Backup 2" "backup.py"

abbrev both : List Job
both = backup ∷ second_backup ∷ []

slot_owned :
    owns_task install
      (λ c. is_ascii_digit c)
      "\\N\\backup-1"
      "backup"
      (other_job_ids (some both) "backup")
    ≡ true
unfolding owns_task other_job_ids member
slot_owned = refl

-- A slot of one job that is another's bare task is the other's.
bare_is_no_slot :
    owns_task install
      (λ c. is_ascii_digit c)
      "\\N\\backup-2"
      "backup"
      (other_job_ids (some both) "backup")
    ≡ false
unfolding owns_task other_job_ids member
bare_is_no_slot = refl

in_both : member "backup" (ids both) ≡ true
unfolding member ids
in_both = refl

owns_task_unique_example : ◌≡◌ {A = String} "backup" "backup"
owns_task_unique_example =
    owns_task_unique install (λ c. is_ascii_digit c) both "backup" "backup" "\\N\\backup-1" refl
      in_both in_both slot_owned slot_owned

-- A scheduler that is the list of its tasks.
unfoldable without_task : String → List String → List String
without_task n [] = []
without_task n (t ∷ ts) = if t == n then without_task n ts else t ∷ without_task n ts

abbrev listing : String
listing = "\"\\N\\backup\",\"N/A\",\"Ready\"\n\"\\N\\other\",\"N/A\",\"Ready\"\n"

abbrev command : List String → String → String → Proc × List String
command s verb name =
    if verb == "/Delete"
    then (record { succeeded = true; stdout = "" }, without_task name s)
    else if verb == "/Create"
    then (record { succeeded = true; stdout = "" }, name ∷ s)
    else (record { succeeded = true; stdout = listing }, s)

abbrev schtasks : List String → List String → Proc × List String
schtasks s (exe ∷ verb ∷ a ∷ b ∷ name ∷ rest) = command s verb name
schtasks s _ = (record { succeeded = false; stdout = "" }, s)

member-without_task :
    (n m : String) (ts : List String)
    → member m (without_task n ts) ≡ (if n == m then false else member m ts)
unfolding member without_task
member-without_task n m [] = ground arith
member-without_task n m (t ∷ ts) =
    ground (arith, member-without_task n m ts, eq_iff t n, eq_iff t m, eq_iff n m)

commands : Commands schtasks (λ s m. member m s)
unfolding member
commands = record { deletes = λ s n m. member-without_task n m s; creates = λ s n tr part m. refl }

abbrev scheduled : List String
scheduled = "\\N\\backup" ∷ "\\N\\other" ∷ []

queried : Queried schtasks (λ s m. member m s) (task_folder_prefix install) scheduled
unfolding known_tasks task_folder_prefix
queried = record { names = scheduled; answered = refl; kept = λ m. refl; listed = λ m e. refl }

daily_valid : validate_schedule python daily ≡ ok tt
unfolding validate_schedule
daily_valid = refl

abbrev portions : List (List String)
portions = ("/SC" ∷ "DAILY" ∷ "/ST" ∷ "06:30" ∷ []) ∷ []

drawn_up : schedule_argv_parts python daily ≡ ok portions
unfolding schedule_argv_parts
drawn_up = refl

abbrev tasks : Tasks (List String)
tasks = record { scheduler = scheduled; next_run_cache = none; coverage_cache = none }

present-sync_schtasks_example :
    Synced schtasks
      (λ s m. member m s)
      (sync_schtasks install python schtasks tasks backup [])
      (not backup.elevated
        && not (backup.schedule.type == "none")
        && member "\\N\\other" (task_names_for install backup))
      (owns_task install python.is_digit "\\N\\other" "backup" [])
      (member "\\N\\other" scheduled)
      "\\N\\other"
present-sync_schtasks_example =
    present-sync_schtasks install python schtasks (λ s m. member m s) tasks backup [] portions
      "\\N\\other" commands queried daily_valid drawn_up
