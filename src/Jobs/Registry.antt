-- ===== src/Jobs/Registry.antt =====
-- src/jobs/config.py: the list of the registered jobs, and why an edit of it is refused.
pub mod Chain
pub mod Edits
pub mod Checked
pub mod Python
pub mod Fields
pub mod Schedules
pub mod Params
pub mod Rows
pub mod Written
pub mod Updates
pub mod Argv
pub mod Requests
use app_launcher_lite.Prelude.{
  String, ◌==◌, ◌≡◌, Bool, false, ◌&&◌, ◌||◌, Option, none, some, List, [], ◌∷◌, ◌++◌,
  if◌then◌else◌,
}
use app_launcher_lite.Prelude.Member.{member}
use app_launcher_lite.Jobs.Job.{Job}

-- The causes of a `ValueError`, with what the message quotes; a malformed row of the file or of a
-- request has the message without the quoted values.
pub data Fault : Type 0 where
  duplicate_id : String → Fault
  self_chain : String → String → Fault
  unknown_downstream : String → String → String → Fault
  chain_cycle : List String → Fault
  nothing_scheduled : Fault
  malformed : String → Fault

-- `get_by_id`
unfoldable pub get_by_id : List Job → String → Option Job
get_by_id [] id = none
get_by_id (j ∷ jobs) id = if j.id == id then some j else get_by_id jobs id

-- {j.id for j in cfg.jobs}
unfoldable pub ids : List Job → List String
ids [] = []
ids (j ∷ jobs) = j.id ∷ ids jobs

-- No two jobs of the registry have one id.
abbrev pub UniqueIds : List Job → Type 0
UniqueIds [] = Unit
UniqueIds (j ∷ jobs) = (member j.id (ids jobs) ≡ false) × UniqueIds jobs

-- The job `u` of the registry names `v` in one of its two chain lists.
unfoldable pub follows : List Job → String → String → Bool
follows [] u v = false
follows (j ∷ jobs) u v = (j.id == u) && member v (j.on_success ++ j.on_failure) || follows jobs u v
