-- ===== src/Jobs/History.antt =====
-- src/jobs/history.py: run records on disk.
pub mod Writes
pub mod Kills
pub mod Sorting
pub mod Names
pub mod Pruning
use Prim.Native.String.{compare as compare_text}
use Prim.Native.Nat.{Ordering}
use app_launcher_lite.Prelude.{
  ℕ, zero, suc, ◌+◌, ◌/◌, ◌*◌, String, ◌==◌, Bool, true, false, not, Option, none, some, List, [],
  ◌∷◌, ◌++◌, map, if◌then◌else◌, length, is_some,
}
use app_launcher_lite.Prelude.Dict
use app_launcher_lite.Prelude.Dict.{Dict}
use app_launcher_lite.Prelude.Int.{ℤ, pos, negsuc}
use app_launcher_lite.Jobs.Record.{
  Run, Stamp, at, Status, running, failed, no_fields, truthy, or_else, merge,
}
use app_launcher_lite.Jobs.Job.{Job}
use app_launcher_lite.Jobs.World.{World, Host, runs_of, set_runs}

-- The ticks in a second.
abbrev pub second : ℕ
second = 1_000_000

-- `isoformat(timespec="seconds")` drops the fraction.
abbrev pub stamp : ℕ → Stamp
stamp now = at (now / second * second)

-- `write_run_json`; the derived index is not modelled, and its failure is swallowed.
unfoldable pub write_run_json : World → String → String → Run → World
unfolding merge runs_of set_runs
write_run_json w job_id run_id fields =
    let existing : Run = elim (Dict.get run_id (runs_of w job_id)) [
      | none ↦ no_fields
      | some r ↦ r
    ] in
    set_runs w job_id (Dict.put run_id (merge existing fields) (runs_of w job_id))

-- `read_run`
unfoldable pub read_run : World → String → String → Run
unfolding runs_of
read_run w job_id run_id = elim (Dict.get run_id (runs_of w job_id)) [
  | none ↦ no_fields
  | some r ↦ r
]

-- Names in descending order of their code points.
abbrev pub name_le : String → String → Bool
name_le a b = elim (compare_text a b) [ Ordering.gt ↦ false | _ ↦ true ]

unfoldable pub insert_desc : String × Run → Dict Run → Dict Run
insert_desc e [] = e ∷ []
insert_desc e (f ∷ d) = if name_le f.0 e.0 then e ∷ f ∷ d else f ∷ insert_desc e d

unfoldable pub sort_desc : Dict Run → Dict Run
unfolding insert_desc
sort_desc [] = []
sort_desc (e ∷ d) = insert_desc e (sort_desc d)

-- `run.setdefault("run_id", child.name)`
abbrev pub decorate : String × Run → Run
decorate (name, r) = record r { run_id = or_else r.run_id (some name) }

-- `list_runs`: newest first by name.
unfoldable pub list_runs : World → String → List Run
unfolding sort_desc runs_of
list_runs w job_id = map decorate (sort_desc (runs_of w job_id))

abbrev pub head_of {ℓ} : {A : Type ℓ} → List A → Option A
head_of [] = none
head_of (x ∷ _) = some x

-- `latest_run`
unfoldable pub latest_run : World → String → Option Run
unfolding list_runs
latest_run w job_id = head_of (list_runs w job_id)

-- `is_running`
unfoldable pub is_running : World → String → Bool
is_running w job_id = elim (latest_run w job_id) [
  | none ↦ false
  | some r ↦ elim r.status [ some running ↦ true | _ ↦ false ]
]

-- `base_run_meta`
unfoldable pub base_run_meta : Job → String → Stamp → String → Run
base_run_meta job trigger started_at run_id = record no_fields {
  run_id = some run_id;
  job_id = some job.id;
  name = some job.name;
  trigger = some trigger;
  script_path = some job.script_path;
  args = some job.args;
  started_at = some started_at;
}

-- `mark_run_failed`: `extra` are the other fields of the same write.
unfoldable pub mark_run_failed : World → ℕ → String → String → Option Stamp → Run → World
mark_run_failed w now job_id run_id finished_at extra =
    write_run_json w job_id run_id (record extra {
      finished_at = or_else finished_at (some (stamp now));
      exit_code = some (negsuc 0);
      status = some failed;
    })

-- The loop of `prune_runs` over the unpinned runs beyond `keep`, newest first: how many were removed.
pub remove_all : Host → String → Dict Run → Dict Run → ℕ × Dict Run
remove_all h job_id [] d = (0, d)
remove_all h job_id ((name, _) ∷ old) d =
    if h.can_remove job_id name
    then (let (n, d') = remove_all h job_id old (Dict.del name d) in (suc n, d'))
    else remove_all h job_id old d

unfoldable pub unpinned : Dict Run → Dict Run
unpinned [] = []
unpinned ((name, r) ∷ d) = if truthy r.pinned then unpinned d else (name, r) ∷ unpinned d

abbrev pub drop {ℓ} : {A : Type ℓ} → ℕ → List A → List A
drop zero xs = xs
drop (suc n) [] = []
drop (suc n) (x ∷ xs) = drop n xs

-- `prune_runs`
unfoldable pub prune_runs : Host → World → String → ℕ → ℕ × World
prune_runs h w job_id keep =
    let (n, d) =
      remove_all h job_id (drop keep (unpinned (sort_desc (runs_of w job_id))))
        (runs_of w job_id) in
    (n, set_runs w job_id d)

abbrev pub max_runs_per_job : ℕ
max_runs_per_job = 20
