-- ===== src/Lib.antt =====
-- App Launcher Lite: the login lock-out, the job runner with its schedules and webhooks, the bearer
-- tokens and the search path.
--
-- The program is a web application on one Windows machine. It launches apps and terminal sessions
-- and runs registered jobs; a password protects it, and executors are separate processes that share
-- files with it. This library models the lock-out, the registry and the runs of jobs, and the
-- bearer tokens, and the executor up to its input and output.
--
-- The lock-out (Lockout, src/login_lockout.py). The state is `LoginLockout`: the settings, the
-- ordered table of streaks, the last alert and the count of alerts held back. `init`,
-- `record_failure`, `retry_after` and `reset` are the methods of the class; the lock makes each one
-- step, so a method takes the state and the clock's reading and returns its answer with the new
-- state. `Histories.run` folds a list of calls. Instants and delays are whole ticks in place of the
-- source's float seconds, except that the OverflowError of a float conversion is kept as an outcome
-- of its own.
--
-- The jobs (Jobs, src/jobs/ and app/cli/commands/run_job_cmd.py). The webapp and the executors
-- share the `World`: the run directories with their run.json, the mutex queue file, the stats cache
-- and the executors spawned so far. What the operating system answers is a `Host`, a parameter:
-- which processes live, which spawns succeed, which directories can be removed, and the clock.
--   Jobs/Record, Jobs/History   src/jobs/history.py: the merge of run.json, the listing, the pruning
--   Jobs/Naming                 src/jobs/history.py: the names of run directories
--   Jobs/Queue                  src/jobs/queue.py: the queue file and its release
--   Jobs/Reap                   src/jobs/reap.py: records of processes that are gone
--   Jobs/Stats                  src/jobs/stats.py: cooldowns, percentiles, thresholds, streaks
--   Jobs/Trigger                src/jobs/trigger.py: the vocabulary of triggers
--   Jobs/Admission              mutex_collision and dispatch_chain_run of src/jobs/queue.py, and
--                               _admit_and_spawn of app/webapp/routers/jobs_run.py
--   Jobs/Executor               app/cli/commands/run_job_cmd.py: one fire, before and after its child
--   Jobs/Watchdog               src/run_supervision.py: the watchdog, over what each poll sees
--   Jobs/Secrets                src/jobs/secrets.py: the references to secrets, the overlay
--   Jobs/Webhook                src/jobs/webhook.py: signatures, events and mapped payloads;
--                               app/webapp/routers/jobs_webhook_routes.py: the route (Webhook/Hook)
-- The schedules (Jobs/Schtasks) and their coverage (Jobs/Coverage) work on `Tasks`: the task
-- scheduler of Windows, the cached bulk query and the cached coverage. The scheduler is a parameter:
-- a type of states and a function that runs one command line of schtasks.exe.
--   Jobs/Schtasks/Fires         src/jobs/schtasks.py: next_fire, upcoming_fires
--   Jobs/Schtasks/Tasks, Sync   src/jobs/schtasks.py: task names and owners, sync and deletion
--   Jobs/Schtasks/Records       src/jobs/schtasks.py: the bulk query, its parsing and its cache
--   Jobs/Coverage               src/jobs/coverage.py: missed fires, verdicts, scans
--   Jobs/Coverage/Alerts        src/jobs/coverage.py: check_and_alert and its file
-- A computed fire is an instant in microseconds from the first midnight of the calendar, a Monday;
-- the ends of the calendar, where the source's arithmetic raises OverflowError, are not cut off. The
-- record `Readers` has Python's `int` and `datetime.fromisoformat`, `Signing` has UTF-8 and the
-- HMAC, `Codec` the JSON texts, each a parameter.
-- The registry of jobs (Jobs/Registry) stands beside the `World`: `Registry` holds the list of jobs
-- in memory and the list that the file holds, and an edit answers the new registry with what it
-- returns or the `ValueError` that it raises. A row of the file or of a request is a `Json` value.
-- A route loads the file anew, and `load_jobs` skips the rows that it refuses, so the two lists of a
-- `Registry` need not be equal; the loading itself is not one of the edits.
--   Jobs/Job                    src/jobs/config_models.py: the dataclasses
--   Jobs/Registry/Chain         src/jobs/config_chain.py: the search for a cycle, the references
--   Jobs/Registry/Edits         src/jobs/config.py: add_job, pause_job, resume_job, remove_by_id
--   Jobs/Registry/Updates       src/jobs/config.py: update_job, field by field
--   Jobs/Registry/Requests      the edits as app/webapp/routers/jobs.py calls them
--   Jobs/Registry/Python        the texts and regular expressions of config_models.py
--   Jobs/Registry/Fields, Schedules, Params, Rows, Written
--                               the checks of config_models.py, from a JSON value to a job, and
--                               back; the webhook block of src/jobs/webhook.py
--   Jobs/Registry/Argv          src/jobs/argv.py: arguments and environment from parameters
-- The record `Python` has what rests on the tables of Unicode or on the platform: the case of a
-- text, the digits of `\d`, the text of a list or an object, `==` of two decoded values,
-- `Path.suffix`; the integer that a text of digits stands for is an argument of the composition. A
-- write of run.json, and each operation on the queue file, holds a file lock in the source, so it
-- is one step on the `World`. The executor is cut at its child: in between, other processes act.
-- The bearer tokens (Tokens, src/api_tokens.py): parsing, minting, matching and scopes, with the
-- standard library's SHA-256, hexadecimal test and upper case as the parameter `Library`.
--
-- The search path (Environment, src/env_path.py): the merge of the inherited path with the values of
-- the registry of Windows, which are a parameter, and the cache of the latter.
--
-- Prelude holds the dictionaries, JSON values, the splitting of texts, membership, the Boolean
-- tests, the decimal printing and the signed integers that the parts share; Examples applies the
-- theorems to concrete states.
--
-- Bounds. The search of a free directory name has fuel for one more round than there are
-- directories: the names it tries differ, and each that is taken uses up a directory. The search
-- for a chain cycle has fuel for as many nested visits as there are ids: each turns a white id
-- gray. The upcoming fires are listed up to the source's own cap. All other recursion is on the
-- lists themselves.
--
-- Not modelled: the derived SQLite index of runs, whose failures the source swallows; the texts of
-- notifications and logs; the building of the command line from the kind of a job and of its whole
-- environment, which enter as the text of a refusal; the child process, which enters as its exit
-- code, its duration and its usage; the clean-up of one-shot schedules, which changes only the
-- registry and the task scheduler; the file of a webhook's payload; the JSON text of the registry's
-- file, between the rows and the bytes; corrupt files, which the source reads as empty; and the
-- other routers, the tray, the session host, the board and the front end.
mod Prelude
pub mod Lockout
pub mod Jobs
pub mod Tokens
pub mod Environment
mod Examples
