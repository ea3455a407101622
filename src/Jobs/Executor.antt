-- ===== src/Jobs/Executor.antt =====
-- app/cli/commands/run_job_cmd.py: the executor of one fire. It runs in two parts, before and after
-- the child: in between other processes may change the state, as the kill route does.
pub mod Laws
use app_launcher_lite.Prelude.{
  ℕ, zero, suc, ◌+◌, String, ◌==◌, Bool, true, false, not, ◌&&◌, ◌||◌, Option, none, some, List, [],
  ◌∷◌, ◌++◌, ltb, eqb, if◌then◌else◌, is_some,
}
use app_launcher_lite.Prelude.Int.{ℤ, pos, negsuc}
use app_launcher_lite.Jobs.Record.{
  Run, Status, queued, running, success, failed, skipped, no_fields, truthy, is_failed,
}
use app_launcher_lite.Jobs.Registry.{get_by_id}
use app_launcher_lite.Jobs.Job.{Job}
use app_launcher_lite.Jobs.World.{World, Host}
use app_launcher_lite.Jobs.History.{
  stamp, read_run, write_run_json, base_run_meta, mark_run_failed, prune_runs, max_runs_per_job,
}
use app_launcher_lite.Jobs.Naming.{new_run_dir}
use app_launcher_lite.Jobs.Queue.{drain_mutex_queue}
use app_launcher_lite.Jobs.Reap.{invalidate_stats_cache, group_of}
use app_launcher_lite.Jobs.Stats.{cooldown_check, consecutive_failed_runs}
use app_launcher_lite.Jobs.Admission.{
  mutex_collision, queued_meta, entry_for, enqueue_for, dispatch_chain_run,
}

-- The arguments of `run-job`: an empty `--run-id` is falsy, as a missing one is.
pub record Args : Type 0 where
  pub trigger : String
  pub run_id : Option String
  pub dry_run : Bool

abbrev pub given : Option String → Bool
given none = false
given (some i) = not (i == "")

-- `prune_runs(job.id, keep=MAX_RUNS_PER_JOB)` and `invalidate_stats_cache(job.id)`
unfoldable pub tidy : Host → World → Job → World
tidy h w job = invalidate_stats_cache (prune_runs h w job.id max_runs_per_job).1 job.id

-- `_finalize_cooldown_skip`: `some` is the exit code of a fire that was skipped.
unfoldable pub finalize_cooldown_skip : Host → World → Job → Args → String → Option ℕ × World
unfolding tidy
finalize_cooldown_skip h w job args rid =
    if not (args.trigger == "scheduled") || given args.run_id
    then (none, w)
    else elim (cooldown_check w job h.now) [
      | none ↦ (none, w)
      | some (remaining, cooldown, anchor) ↦
          let fields = record (base_run_meta job args.trigger (stamp h.now) rid) {
            finished_at = some (stamp h.now);
            status = some skipped;
            note = some "cooldown";
            cooldown_seconds = some cooldown;
            cooldown_remaining_seconds = some remaining;
            cooldown_anchor_run_id = if anchor == "" then none else some anchor;
          } in
          (some 0, tidy h (write_run_json w job.id rid fields) job)
    ]

-- `_finalize_mutex_queue`: `some` is the exit code of a fire that was queued.
unfoldable pub finalize_mutex_queue :
    Host → World → Job → List Job → Args → Option String → String → Option ℕ × World
finalize_mutex_queue h w job jobs args params rid =
    if not (args.trigger == "scheduled") || not (is_some (group_of job)) || given args.run_id
    then (none, w)
    else let (holder, w1) = mutex_collision h w jobs job in
      elim holder [
        | none ↦ (none, w1)
        | some other ↦
            let (run_id, w2) = new_run_dir w1 job.id rid in
            let meta = record (base_run_meta job args.trigger (stamp h.now) run_id) {
              trigger_source = some "schtasks";
              params = params;
            } in
            (
              some 0,
              enqueue_for (write_run_json w2 job.id run_id (queued_meta meta job other)) job
                  (entry_for job run_id args.trigger params),
            )
      ]

-- `_record_failed_run`
unfoldable pub record_failed_run : Host → World → Job → Args → String → String → World
unfolding tidy
record_failed_run h w job args run_id note_text =
    tidy h
      (mark_run_failed w h.now job.id run_id (some (stamp h.now))
        (record (base_run_meta job args.trigger (stamp h.now) run_id) { note = some note_text }))
      job

-- `_write_running_record`
unfoldable pub write_running_record : Host → World → Job → Args → String → Option String → World
write_running_record h w job args run_id params =
    write_run_json w job.id run_id (record (base_run_meta job args.trigger (stamp h.now) run_id) {
      status = some running;
      params = params;
      trigger_source = if args.trigger == "scheduled" then some "schtasks" else none;
      dry_run = if args.dry_run then some true else none;
    })

-- What ends the first part: an exit code, or a child of the run that is about to be spawned.
pub data Begun : Type 0 where
  exits : ℕ → Begun
  runs : String → Begun

-- `if args.run_id:`: the pre-created directory, or a new one.
unfoldable pub run_dir_for : World → Job → Args → String → String × World
run_dir_for w job args rid = elim args.run_id [
  | none ↦ new_run_dir w job.id rid
  | some i ↦ if i == "" then new_run_dir w job.id rid else (i, write_run_json w job.id i no_fields)
]

-- `execute` from the run's directory on. `refusal` is the text of an error in building the invocation
-- or in resolving the environment, which end the run with exit code 2.
unfoldable pub begin_in :
    Host → Job → Args → Option String → Option String → String × World → Begun × World
unfolding record_failed_run write_running_record
begin_in h job args params (some text) (run_id, w) =
    (exits 2, record_failed_run h w job args run_id text)
begin_in h job args params none (run_id, w) =
    (runs run_id, write_running_record h w job args run_id params)

-- `execute` from the answer of `_finalize_mutex_queue` on.
unfoldable pub begin_waited :
    Host → Job → Args → Option String → Option String → String → Option ℕ × World → Begun × World
unfolding run_dir_for begin_in
begin_waited h job args params refusal rid (some code, w) = (exits code, w)
begin_waited h job args params refusal rid (none, w) =
    begin_in h job args params refusal (run_dir_for w job args rid)

-- `execute` from the answer of `_finalize_cooldown_skip` on.
unfoldable pub begin_checked :
    Host
    → Job
    → List Job
    → Args
    → Option String
    → Option String
    → String
    → Option ℕ × World
    → Begun × World
unfolding finalize_mutex_queue begin_waited
begin_checked h job jobs args params refusal rid (some code, w) = (exits code, w)
begin_checked h job jobs args params refusal rid (none, w) =
    begin_waited h job args params refusal rid (finalize_mutex_queue h w job jobs args params rid)

-- `execute` up to the spawn.
unfoldable pub begin_run :
    Host → World → Job → List Job → Args → Option String → Option String → String → Begun × World
unfolding finalize_cooldown_skip begin_checked
begin_run h w job jobs args params refusal rid =
    begin_checked h job jobs args params refusal rid (finalize_cooldown_skip h w job args rid)

-- The write of `_spawn_and_wait` once the child has a pid.
unfoldable pub record_pid : World → Job → String → ℕ → ℕ → World
record_pid w job run_id pid create_time =
    write_run_json w job.id run_id
      (record no_fields { pid = some pid; pid_create_time = some create_time })

-- How the child ended. `watchdog` is the reason and the note of a watchdog that fired.
pub record Child : Type 0 where
  pub exit_code : ℤ
  pub duration : ℕ
  pub usage : Option (ℕ × ℕ)
  pub watchdog : Option (String × String)

abbrev pub is_zero : ℤ → Bool
is_zero (pos zero) = true
is_zero _ = false

-- The status that `_spawn_and_wait` returns: a watchdog kill is a failure whatever the exit code.
unfoldable pub child_status : Child → Status
child_status c = elim c.watchdog [
  | some _ ↦ failed
  | none ↦ if is_zero c.exit_code then success else failed
]

-- The settings that `_maybe_notify_failure` reads; the flags say that the channel has credentials.
pub record NotifyConfig : Type 0 where
  pub notify_on_failure : Bool
  pub notify_failure_streak : ℕ
  pub has_pushover : Bool
  pub has_telegram : Bool

pub data Notification : Type 0 where
  pushed_failure : Notification
  pushed_streak : ℕ → Notification
  telegram_failure : Notification

-- `_maybe_notify_failure`: the notifications that it sends, in order; their texts are left out.
unfoldable pub notify_failure : NotifyConfig → World → Job → Status → List Notification
notify_failure cfg w job status =
    if is_failed (some status)
    then (let streak = consecutive_failed_runs w job.id in
        let push =
          if cfg.notify_on_failure && cfg.has_pushover
          then pushed_failure
            ∷ (if ltb 1 cfg.notify_failure_streak && eqb streak cfg.notify_failure_streak
                then pushed_streak streak ∷ []
                else [])
          else [] in
        push ++ (if job.alert_on_failure && cfg.has_telegram then telegram_failure ∷ [] else []))
    else []

-- `_finalize_run`
unfoldable pub finalize_run :
    Host → NotifyConfig → World → Job → String → Child → List Notification × World
unfolding child_status tidy notify_failure
finalize_run h cfg w job run_id c =
    let fields = record no_fields {
      finished_at = some (stamp h.now);
      exit_code = some c.exit_code;
      status = some (child_status c);
      duration_seconds = some (pos c.duration);
      peak_rss_bytes = elim c.usage [ none ↦ none | some (rss, _) ↦ some rss ];
      cpu_seconds = elim c.usage [ none ↦ none | some (_, cpu) ↦ some cpu ];
      watchdog = elim c.watchdog [ none ↦ none | some _ ↦ some true ];
      watchdog_reason = elim c.watchdog [ none ↦ none | some (reason, _) ↦ some reason ];
      note = elim c.watchdog [ none ↦ none | some (_, text) ↦ some text ];
    } in
    let w' = tidy h (write_run_json w job.id run_id fields) job in
    (notify_failure cfg w' job (child_status c), w')

-- The loop of `_dispatch_chain`; an unknown downstream is skipped.
unfoldable pub dispatch_each : Host → World → List Job → Job → List String → String → World
unfolding get_by_id
dispatch_each h w jobs job [] rid = w
dispatch_each h w jobs job (id ∷ ids) rid =
    let w' : World = elim (get_by_id jobs id) [
      | none ↦ w
      | some downstream ↦ (dispatch_chain_run h w jobs downstream job.id rid).2
    ] in
    dispatch_each h w' jobs job ids rid

-- `_dispatch_chain`
unfoldable pub dispatch_chain : Host → World → List Job → Job → Status → String → World
unfolding dispatch_each
dispatch_chain h w jobs job success rid = dispatch_each h w jobs job job.on_success rid
dispatch_chain h w jobs job failed rid = dispatch_each h w jobs job job.on_failure rid
dispatch_chain h w jobs job _ rid = w

-- `_drain_mutex_queue_for`
unfoldable pub drain_for : Host → World → Job → World
drain_for h w job = elim (group_of job) [ none ↦ w | some g ↦ (drain_mutex_queue h w g).1 ]

-- `_finish_run`: `false` if the run was killed. The clean-up of one-shot schedules, which changes
-- only the registry and the task scheduler, is not modelled.
unfoldable pub finish_run :
    Host
    → NotifyConfig
    → World
    → List Job
    → Job
    → String
    → Child
    → String
    → Bool × List Notification × World
unfolding finalize_run dispatch_chain drain_for
finish_run h cfg w jobs job run_id c rid =
    if truthy (read_run w job.id run_id).killed
    then (false, [], w)
    else let (sent, w1) = finalize_run h cfg w job run_id c in
      (true, sent, drain_for h (dispatch_chain h w1 jobs job (child_status c) rid) job)

-- The exit code of `execute` after the child.
unfoldable pub exit_status : Bool → Child → ℕ
unfolding child_status
exit_status finished c =
    if finished && not (is_failed (some (child_status c))) && is_zero c.exit_code then 0 else 1
