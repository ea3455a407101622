-- ===== src/Jobs/Executor/Laws.antt =====
-- The executor of app/cli/commands/run_job_cmd.py: what begins, and how it ends.
use app_launcher_lite.Prelude.{
  ℕ, zero, suc, ◌&&◌, String, ◌==◌, ◌≡◌, refl, ◌∙◌, ap, Bool, true, false, not, some, none, Option,
  List, [], ◌||◌, ◌↔◌, is_some, if◌then◌else◌, arith,
}
use app_launcher_lite.Prelude.Int.{ℤ, pos, negsuc}
use app_launcher_lite.Jobs.Record.{no_fields, truthy, Status, is_failed, failed, success}
use app_launcher_lite.Jobs.History.{read_run, write_run_json}
use app_launcher_lite.Jobs.Naming.{new_run_dir}
use app_launcher_lite.Jobs.Reap.{group_of}
use app_launcher_lite.Jobs.World.{World, Host}
use app_launcher_lite.Jobs.Job.{Job}
use app_launcher_lite.Jobs.Executor.{
  Args, given, finalize_cooldown_skip, finalize_mutex_queue, begin_in, begin_waited, begin_checked,
  begin_run, run_dir_for, NotifyConfig, Child, finish_run, exit_status, child_status, is_zero,
}

taken : {A : Type 0} (b : Bool) (x y : A) → b ≡ true → (if b then x else y) ≡ x
taken true x y e = refl
taken false x y e = cc

or_true : (a b : Bool) → b ≡ true → (a || b) ≡ true
or_true true b e = refl
or_true false b e = e

no_skip :
    (h : Host) (w : World) (job : Job) (args : Args) (rid : String)
    → given args.run_id ≡ true
    → finalize_cooldown_skip h w job args rid ≡ (none, w)
unfolding finalize_cooldown_skip
no_skip h w job args rid e =
    taken (not (args.trigger == "scheduled") || given args.run_id) _ _
      (or_true (not (args.trigger == "scheduled")) (given args.run_id) e)

no_wait :
    (h : Host) (w : World) (job : Job) (jobs : List Job) (args : Args) (params : Option String)
    (rid : String)
    → given args.run_id ≡ true
    → finalize_mutex_queue h w job jobs args params rid ≡ (none, w)
unfolding finalize_mutex_queue
no_wait h w job jobs args params rid e =
    taken (not (args.trigger == "scheduled") || not (is_some (group_of job)) || given args.run_id) _
      _
      (or_true (not (args.trigger == "scheduled") || not (is_some (group_of job)))
        (given args.run_id) e)

own_dir :
    (w : World) (job : Job) (args : Args) (rid i : String)
    → args.run_id ≡ some i
    → (i == "") ≡ false
    → run_dir_for w job args rid ≡ (i, write_run_json w job.id i no_fields)
unfolding run_dir_for
own_dir w job args rid i e ne =
    ap
      (λ o. elim o as (λ _. String × World) [
        | none ↦ new_run_dir w job.id rid
        | some k ↦
            if k == "" then new_run_dir w job.id rid else (k, write_run_json w job.id k no_fields)
      ])
      e
    ∙ rw ne refl

-- A fire with a run id that is not empty, such as one released from the queue, is neither skipped
-- by its cooldown nor queued again: it goes on in its own directory, and only a refused invocation
-- ends it.
pub begin_run-given :
    (h : Host) (w : World) (job : Job) (jobs : List Job) (args : Args)
    (params refusal : Option String) (rid i : String)
    → args.run_id ≡ some i
    → (i == "") ≡ false
    → let dir = write_run_json w job.id i no_fields in
      begin_run h w job jobs args params refusal rid ≡ begin_in h job args params refusal (i, dir)
unfolding begin_run begin_checked begin_waited
begin_run-given h w job jobs args params refusal rid i e ne =
    let g : given args.run_id ≡ true = ap given e ∙ rw ne refl in
    ap (begin_checked h job jobs args params refusal rid) (no_skip h w job args rid g)
    ∙ ap (begin_waited h job args params refusal rid) (no_wait h w job jobs args params rid g)
    ∙ ap (begin_in h job args params refusal) (own_dir w job args rid i e ne)

-- The executor of a killed run leaves everything to the kill: no record, no notification, no
-- chained run and no release, and its exit code is 1.
pub finish_run-killed :
    (h : Host) (cfg : NotifyConfig) (w : World) (jobs : List Job) (job : Job) (run_id : String)
    (c : Child) (rid : String)
    → truthy (read_run w job.id run_id).killed ≡ true
    → let out = finish_run h cfg w jobs job run_id c rid in
      (out ≡ (false, [], w)) × (exit_status out.0 c ≡ 1)
unfolding finish_run exit_status
finish_run-killed h cfg w jobs job run_id c rid k = rw k (refl, refl)

exit_cases :
    (finished : Bool) (watchdog : Option (String × String)) (code : ℤ)
    → let result : ℕ =
        if finished
          && not (
              is_failed (
                some (elim watchdog as (λ _. Status) [
                  | some _ ↦ failed
                  | none ↦ if is_zero code then success else failed
                ])))
          && is_zero code
        then 0
        else 1 in
      (result ≡ 0) ↔ ((finished ≡ true) × (watchdog ≡ none) × (code ≡ pos 0))
exit_cases false watchdog code = (λ e. absurd (omega arith), λ e. cc)
exit_cases true (some x) code = (λ e. absurd (omega arith), λ e. cc)
exit_cases true none (pos zero) = (λ e. (refl, refl, refl), λ e. refl)
exit_cases true none (pos (suc n)) = (λ e. absurd (omega arith), λ e. cc)
exit_cases true none (negsuc n) = (λ e. absurd (omega arith), λ e. cc)

-- The exit code is 0 exactly if the run was not killed, no watchdog fired and the child exited
-- with 0.
pub exit_status_zero :
    (finished : Bool) (c : Child)
    → (exit_status finished c ≡ 0)
      ↔ ((finished ≡ true) × (c.watchdog ≡ none) × (c.exit_code ≡ pos 0))
unfolding exit_status child_status
exit_status_zero finished c = exit_cases finished c.watchdog c.exit_code
