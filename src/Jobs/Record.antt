-- ===== src/Jobs/Record.antt =====
-- The run record: run.json as src/jobs/history.py merges it. An absent key is `none`, which is also
-- what a key given as `None` comes to. Instants and durations are ticks; a stamp is what
-- `datetime.fromisoformat` reads from the text.
use app_launcher_lite.Prelude.{
  ℕ, String, Bool, true, false, not, ◌&&◌, Option, none, some, if◌then◌else◌,
}
use app_launcher_lite.Prelude.Int.{ℤ}

pub data Stamp : Type 0 where
  at : ℕ → Stamp
  unreadable : Stamp

pub data Status : Type 0 where
  queued pending running success failed skipped dry_run_success dry_run_failed : Status
  other : String → Status

pub record Run : Type 0 where
  pub run_id : Option String
  pub job_id : Option String
  pub name : Option String
  pub trigger : Option String
  pub script_path : Option String
  pub args : Option String
  pub started_at : Option Stamp
  pub finished_at : Option Stamp
  pub status : Option Status
  pub exit_code : Option ℤ
  pub duration_seconds : Option ℤ
  pub note : Option String
  pub killed : Option Bool
  pub reaped : Option Bool
  pub pinned : Option Bool
  pub dry_run : Option Bool
  pub watchdog : Option Bool
  pub watchdog_reason : Option String
  pub pid : Option ℕ
  pub pid_create_time : Option ℕ
  pub mutex_group : Option String
  pub mutex_blocked_by : Option String
  pub chained_from : Option String
  pub chain_spawn_error : Option String
  pub trigger_source : Option String
  pub params : Option String
  pub cooldown_seconds : Option ℕ
  pub cooldown_remaining_seconds : Option ℕ
  pub cooldown_anchor_run_id : Option String
  pub peak_rss_bytes : Option ℕ
  pub cpu_seconds : Option ℕ

-- The empty record: no run.json, or one that cannot be read.
abbrev pub no_fields : Run
no_fields = record {
  run_id = none;
  job_id = none;
  name = none;
  trigger = none;
  script_path = none;
  args = none;
  started_at = none;
  finished_at = none;
  status = none;
  exit_code = none;
  duration_seconds = none;
  note = none;
  killed = none;
  reaped = none;
  pinned = none;
  dry_run = none;
  watchdog = none;
  watchdog_reason = none;
  pid = none;
  pid_create_time = none;
  mutex_group = none;
  mutex_blocked_by = none;
  chained_from = none;
  chain_spawn_error = none;
  trigger_source = none;
  params = none;
  cooldown_seconds = none;
  cooldown_remaining_seconds = none;
  cooldown_anchor_run_id = none;
  peak_rss_bytes = none;
  cpu_seconds = none;
}

-- Python's truth of an optional flag.
abbrev pub truthy : Option Bool → Bool
truthy (some true) = true
truthy _ = false

-- `status in ("running", "pending")`
abbrev pub is_live : Option Status → Bool
is_live (some running) = true
is_live (some pending) = true
is_live _ = false

abbrev pub is_queued : Option Status → Bool
is_queued (some queued) = true
is_queued _ = false

abbrev pub is_failed : Option Status → Bool
is_failed (some failed) = true
is_failed _ = false

-- `dict.update`, key by key: the later write wins where it has one.
abbrev pub or_else {ℓ} : {A : Type ℓ} → Option A → Option A → Option A
or_else (some a) _ = some a
or_else none b = b

-- `existing.update(incoming)`
unfoldable pub update : Run → Run → Run
update old new = record {
  run_id = or_else new.run_id old.run_id;
  job_id = or_else new.job_id old.job_id;
  name = or_else new.name old.name;
  trigger = or_else new.trigger old.trigger;
  script_path = or_else new.script_path old.script_path;
  args = or_else new.args old.args;
  started_at = or_else new.started_at old.started_at;
  finished_at = or_else new.finished_at old.finished_at;
  status = or_else new.status old.status;
  exit_code = or_else new.exit_code old.exit_code;
  duration_seconds = or_else new.duration_seconds old.duration_seconds;
  note = or_else new.note old.note;
  killed = or_else new.killed old.killed;
  reaped = or_else new.reaped old.reaped;
  pinned = or_else new.pinned old.pinned;
  dry_run = or_else new.dry_run old.dry_run;
  watchdog = or_else new.watchdog old.watchdog;
  watchdog_reason = or_else new.watchdog_reason old.watchdog_reason;
  pid = or_else new.pid old.pid;
  pid_create_time = or_else new.pid_create_time old.pid_create_time;
  mutex_group = or_else new.mutex_group old.mutex_group;
  mutex_blocked_by = or_else new.mutex_blocked_by old.mutex_blocked_by;
  chained_from = or_else new.chained_from old.chained_from;
  chain_spawn_error = or_else new.chain_spawn_error old.chain_spawn_error;
  trigger_source = or_else new.trigger_source old.trigger_source;
  params = or_else new.params old.params;
  cooldown_seconds = or_else new.cooldown_seconds old.cooldown_seconds;
  cooldown_remaining_seconds =
      or_else new.cooldown_remaining_seconds old.cooldown_remaining_seconds;
  cooldown_anchor_run_id = or_else new.cooldown_anchor_run_id old.cooldown_anchor_run_id;
  peak_rss_bytes = or_else new.peak_rss_bytes old.peak_rss_bytes;
  cpu_seconds = or_else new.cpu_seconds old.cpu_seconds;
}

-- `incoming.pop(key, None)` for the keys of `_KILL_OWNED_FIELDS`.
unfoldable pub drop_kill_owned : Run → Run
drop_kill_owned r = record r {
  status = none;
  exit_code = none;
  finished_at = none;
  duration_seconds = none;
}

-- The merge of `write_run_json`: a write that is not itself a kill does not touch what a kill owns.
unfoldable pub merge : Run → Run → Run
unfolding update drop_kill_owned
merge existing incoming =
    if truthy existing.killed && not (truthy incoming.killed)
    then update existing (drop_kill_owned incoming)
    else update existing incoming
