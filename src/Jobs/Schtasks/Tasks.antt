-- ===== src/Jobs/Schtasks/Tasks.antt =====
-- src/jobs/schtasks.py: the names of a job's tasks, and whose they are.
use Prim.Native.Char.{Char}
use Prim.Native.String.{◌++◌ as append}
use app_launcher_lite.Prelude.{
  ℕ, suc, String, ◌==◌, Bool, true, false, not, ◌&&◌, ◌||◌, Option, none, some, is_some, List, [],
  ◌∷◌, map, if◌then◌else◌,
}
use app_launcher_lite.Prelude.Decimal.{show}
use app_launcher_lite.Prelude.Json.{Json, Items, nil, cons}
use app_launcher_lite.Prelude.Member.{member}
use app_launcher_lite.Prelude.Texts.{partition, splitlines, drop_left, drop_right}
use app_launcher_lite.Jobs.Job.{Job, Schedule}
use app_launcher_lite.Jobs.Trigger.{after_prefix}
use app_launcher_lite.Jobs.Registry.{ids, malformed}
use app_launcher_lite.Jobs.Registry.Checked.{Checked, ok, err, ◌>>=◌}
use app_launcher_lite.Jobs.Registry.Python.{Python, strip, str_of, is_char}
use app_launcher_lite.Jobs.Schtasks.State.{Proc}

-- What the machine and config.json give: the name of the task folder, the two interpreters of the
-- launcher's environment, and its entry file.
pub record Install : Type 0 where
  pub task_namespace : String
  pub python : String
  pub pythonw : String
  pub launcher_py : String

-- `task_folder_prefix`
unfoldable pub task_folder_prefix : Install → String
task_folder_prefix i = append "\\" (append i.task_namespace "\\")

unfoldable pub base_name : Install → String → String
unfolding task_folder_prefix
base_name i job_id = append (task_folder_prefix i) job_id

-- f"{base}-{n}"
unfoldable pub slot_name : String → ℕ → String
unfolding show
slot_name base n = append base (append "-" (show n))

-- One name for each time, counted from `n`.
unfoldable pub slot_names : String → ℕ → Items → List String
unfolding slot_name
slot_names base n nil = []
slot_names base n (cons t rest) = slot_name base n ∷ slot_names base (suc n) rest

-- `task_names_for`
abbrev pub names_at : String → Json → List String
names_at base (Json.array times) = slot_names base 1 times
names_at base _ = base ∷ []

unfoldable pub task_names_for : Install → Job → List String
unfolding base_name slot_names
task_names_for i job =
    let base = base_name i job.id in
    if job.schedule.type == "daily_times" then names_at base job.schedule.at else base ∷ []

-- `task_run_command`
unfoldable pub task_run_command : Install → String → Bool → String
task_run_command i job_id visible =
    let interpreter : String = if visible then i.python else i.pythonw in
    append "\""
      (append interpreter (append "\" \"" (append i.launcher_py (append "\" run-job " job_id))))

-- at.partition("T")
abbrev pub date_and_time : String → String × String
date_and_time at = elim (partition "T" at) [ none ↦ (at, "") | some parts ↦ parts ]

abbrev pub once_parts : String → String → String → String → List String
once_parts yyyy mm dd time =
    "/SC"
    ∷ "ONCE"
    ∷ "/SD"
    ∷ append yyyy (append "/" (append mm (append "/" dd)))
    ∷ "/ST"
    ∷ time
    ∷ []

-- date_part.split("-", 2), which must have three parts.
abbrev pub once_month : String → String → Option (String × String) → Checked (List String)
once_month yyyy time none = err (malformed "not enough values to unpack")
once_month yyyy time (some (mm, dd)) = ok (once_parts yyyy mm dd time)

abbrev pub once_year : String → Option (String × String) → Checked (List String)
once_year time none = err (malformed "not enough values to unpack")
once_year time (some (yyyy, rest)) = once_month yyyy time (partition "-" rest)

-- `_once_schtasks_parts`
unfoldable pub once_schtasks_parts : String → Checked (List String)
unfolding partition
once_schtasks_parts at = let (date, time) = date_and_time at in once_year time (partition "-" date)

unfoldable pub daily_parts : Python → Items → List (List String)
unfolding str_of
daily_parts py nil = []
daily_parts py (cons t rest) = ("/SC" ∷ "DAILY" ∷ "/ST" ∷ str_of py t ∷ []) ∷ daily_parts py rest

abbrev pub times_parts : Python → Json → Checked (List (List String))
times_parts py (Json.array times) = ok (daily_parts py times)
times_parts py _ = ok []

unfoldable pub moment_parts : Json → Checked (List (List String))
unfolding once_schtasks_parts
moment_parts (Json.str at) = do parts ← once_schtasks_parts at; ok (parts ∷ [])
moment_parts _ = ok []

abbrev pub day_text : Option String → String
day_text none = "None"
day_text (some d) = d

-- `schedule_argv_parts`; a malformed date of `once` is the `ValueError` of the unpacking.
unfoldable pub schedule_argv_parts : Python → Schedule → Checked (List (List String))
unfolding str_of daily_parts moment_parts
schedule_argv_parts py s =
    if s.type == "none"
    then ok []
    else if s.type == "minutes"
    then ok (("/SC" ∷ "MINUTE" ∷ "/MO" ∷ str_of py s.every ∷ []) ∷ [])
    else if s.type == "hourly"
    then ok (("/SC" ∷ "HOURLY" ∷ "/MO" ∷ str_of py s.every ∷ []) ∷ [])
    else if s.type == "daily"
    then ok (("/SC" ∷ "DAILY" ∷ "/ST" ∷ str_of py s.at ∷ []) ∷ [])
    else if s.type == "daily_times"
    then times_parts py s.at
    else if s.type == "weekly"
    then ok (("/SC" ∷ "WEEKLY" ∷ "/D" ∷ day_text s.day ∷ "/ST" ∷ str_of py s.at ∷ []) ∷ [])
    else if s.type == "once"
    then moment_parts s.at
    else ok []

-- line.split(",", 1)[0]
abbrev pub before_comma : String → String
before_comma line = elim (partition "," line) [ none ↦ line | some (first, _) ↦ first ]

-- .strip().strip('"')
unfoldable pub task_column : String → String
unfolding strip drop_left drop_right partition
task_column line =
    let quote : Char → Bool = is_char "\"" in
    drop_right quote (drop_left quote (strip (before_comma line)))

-- The loop of `list_known_tasks` over the lines of the query's output.
unfoldable pub listed_names : String → List String → List String
unfolding strip after_prefix task_column
listed_names prefix [] = []
listed_names prefix (raw ∷ lines) =
    let rest = listed_names prefix lines in
    let line = strip raw in
    if line == ""
    then rest
    else if is_some (after_prefix prefix (task_column line))
    then task_column line ∷ rest
    else rest

-- if proc.returncode != 0 or not proc.stdout
unfoldable pub known_tasks : String → Proc → Option (List String)
unfolding listed_names splitlines
known_tasks prefix p =
    if not p.succeeded || (p.stdout == "")
    then none
    else some (listed_names prefix (splitlines p.stdout))

-- `_other_job_ids`; `none` is a failure to load the jobs.
unfoldable pub other_ids : String → List String → List String
other_ids job_id [] = []
other_ids job_id (j ∷ js) = let rest = other_ids job_id js in if j == job_id then rest else j ∷ rest

unfoldable pub other_job_ids : Option (List Job) → String → List String
unfolding other_ids ids
other_job_ids none job_id = []
other_job_ids (some jobs) job_id = other_ids job_id (ids jobs)

-- `\d*` to the end
unfoldable pub digits_only : (Char → Bool) → String → Bool
digits_only digit String.[] = true
digits_only digit (String.◌∷◌ c s) = let rest = digits_only digit s in digit c && rest

-- _SLOT_SUFFIX_RE.fullmatch(s)
unfoldable pub is_slot_suffix : (Char → Bool) → String → Bool
unfolding digits_only
is_slot_suffix digit (String.◌∷◌ c (String.◌∷◌ d s)) =
    is_char "-" c && digits_only digit (String.◌∷◌ d s)
is_slot_suffix digit _ = false

abbrev pub is_slot : (Char → Bool) → Option String → Bool
is_slot digit none = false
is_slot digit (some rest) = is_slot_suffix digit rest

-- `owns_task`
unfoldable pub owns_task : Install → (Char → Bool) → String → String → List String → Bool
unfolding base_name after_prefix is_slot_suffix
owns_task i digit name job_id others =
    if name == base_name i job_id
    then true
    else if not (is_slot digit (after_prefix (base_name i job_id) name))
    then false
    else not (member name (map (base_name i) others))
