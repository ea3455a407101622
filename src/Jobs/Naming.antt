-- ===== src/Jobs/Naming.antt =====
-- `new_run_dir` of src/jobs/history.py: a fresh directory name, `rid`, `rid-2`, `rid-3`, …
pub mod Fresh
use Prim.Native.String.{◌++◌ as append}
use app_launcher_lite.Prelude.{ℕ, zero, suc, ◌+◌, String, if◌then◌else◌, length, is_some}
use app_launcher_lite.Prelude.Decimal.{show}
use app_launcher_lite.Prelude.Dict
use app_launcher_lite.Prelude.Dict.{Dict}
use app_launcher_lite.Jobs.Record.{Run, no_fields}
use app_launcher_lite.Jobs.World.{World, runs_of, set_runs}

-- The names that `new_run_dir` tries, in order: the second has the suffix 2.
pub name_at : String → ℕ → String
name_at rid zero = rid
name_at rid (suc k) = append rid (String.◌∷◌ "-" (show (k + 2)))

-- `while target.exists()`, with fuel: the first name from the `k`-th on that is not taken.
pub free_index : ℕ → ℕ → String → Dict Run → ℕ
free_index zero k rid d = k
free_index (suc fuel) k rid d =
    let next = free_index fuel (suc k) rid d in
    if is_some (Dict.get (name_at rid k) d) then next else k

-- One more round than there are directories is enough.
pub fresh_name : String → Dict Run → String
unfolding free_index
fresh_name rid d = name_at rid (free_index (suc (length d)) 0 rid d)

-- `new_run_dir`: the name, and the state with an empty directory of that name.
unfoldable pub new_run_dir : World → String → String → String × World
unfolding fresh_name runs_of set_runs
new_run_dir w job_id rid =
    let name = fresh_name rid (runs_of w job_id) in
    (name, set_runs w job_id (Dict.put name no_fields (runs_of w job_id)))
