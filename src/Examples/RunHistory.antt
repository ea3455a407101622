-- ===== src/Examples/RunHistory.antt =====
-- The theorems on src/jobs/history.py, naming, stats.py, trigger.py and reap.py at concrete records.
use mathlib.Core.List.{Memᴰ}
use app_launcher_lite.Prelude.{
  eqb, ℕ, ◌+◌, ◌*◌, ◌-◌, ◌≤◌, ◌<◌, String, ◌≡◌, refl, Bool, true, some, none, Option, [], ◌∷◌,
  length, inl, inr, ◌++◌, ap,
}
use app_launcher_lite.Prelude.Dict.{get, NodupKeys}
use app_launcher_lite.Prelude.Int.{pos, negsuc}
use app_launcher_lite.Jobs.Record.{Run, at, no_fields, running, failed, success, skipped}
use app_launcher_lite.Jobs.World.{World, Host, runs_of}
use app_launcher_lite.Jobs.Job.{Job, new_job}
use app_launcher_lite.Jobs.History.{
  read_run, list_runs, sort_desc, insert_desc, unpinned, prune_runs,
}
use app_launcher_lite.Jobs.History.Kills.{outcome, Write, write_all, killed-write_all}
use app_launcher_lite.Jobs.History.Pruning.{KeptOrOld, pinned-prune_runs, prune_runs-removes}
use app_launcher_lite.Jobs.Naming.{new_run_dir}
use app_launcher_lite.Jobs.Naming.Fresh.{new_run_dir_is_new}
use app_launcher_lite.Jobs.Stats.{cooldown_check}
use app_launcher_lite.Jobs.Stats.Cooldown.{NoFire, cooldown_check_lem}
use app_launcher_lite.Jobs.Reap.{finalize_dead_runs, dead_pid}
use app_launcher_lite.Jobs.Reap.Laws.{finalize_dead_runs_spares, finalize_dead_runs_closes}

abbrev killed_run : Run
killed_run = record no_fields {
  run_id = some "r1";
  status = some failed;
  exit_code = some (negsuc 0);
  finished_at = some (at 9_000_000);
  started_at = some (at 5_000_000);
  killed = some true;
}

abbrev pinned_run : Run
pinned_run = record no_fields { run_id = some "r0"; status = some success; pinned = some true }

abbrev live_run : Run
live_run = record no_fields { run_id = some "r2"; status = some running; pid = some 44 }

abbrev lost_run : Run
lost_run = record no_fields { run_id = some "r3"; status = some running; pid = some 45 }

abbrev history : World
history = record {
  runs =
      ("backup", ("r0", pinned_run) ∷ ("r1", killed_run) ∷ ("r2", live_run) ∷ ("r3", lost_run) ∷ [])
      ∷ [];
  queue = [];
  stats_cache = [];
  spawned = [];
}

abbrev backup : Job
backup = record (new_job "backup" "Backup" "backup.py") { cooldown_seconds = some 60 }

abbrev alive : ℕ → Option ℕ → Bool
alive pid _ = eqb pid 44

abbrev machine : Host
machine = record {
  is_pid_alive = alive;
  can_spawn = λ _. true;
  spawn_error = "";
  can_remove = λ _ _. true;
  now = 12_000_000;
}

killed_record : (read_run history "backup" "r1").killed ≡ some true
unfolding read_run runs_of get
killed_record = refl

late_success : Write
late_success = record {
  job_id = "backup";
  run_id = "r1";
  fields = record no_fields { status = some success; exit_code = some (pos 0) };
}

killed-write_all_example :
    outcome (read_run (write_all history (late_success ∷ [])) "backup" "r1")
    ≡ outcome (read_run history "backup" "r1")
unfolding late_success
killed-write_all_example =
    killed-write_all history "backup" "r1" (late_success ∷ []) killed_record ((λ _. refl), tt)

backup-NodupKeys : NodupKeys (runs_of history "backup")
unfolding runs_of get
backup-NodupKeys = (refl, (refl, (refl, (refl, tt))))

pinned_record : get "r0" (runs_of history "backup") ≡ some pinned_run
unfolding runs_of get
pinned_record = refl

pinned-prune_runs_example :
    get "r0" (runs_of (prune_runs machine history "backup" 1).1 "backup") ≡ some pinned_run
pinned-prune_runs_example =
    pinned-prune_runs machine history "backup" 1 "r0" pinned_run backup-NodupKeys pinned_record refl

prune_runs-removes_example :
    let d = runs_of history "backup" in
    let d' = runs_of (prune_runs machine history "backup" 2).1 "backup" in
    ((prune_runs machine history "backup" 2).0 ≡ length (unpinned d) - 2)
    × (length (unpinned d') + (prune_runs machine history "backup" 2).0 ≡ length (unpinned d))
    × ((k : String) (r : Run) → get k d ≡ some r → KeptOrOld d' k r)
    × ((k : String) → get k d ≡ none → get k d' ≡ none)
prune_runs-removes_example =
    prune_runs-removes machine history "backup" 2 backup-NodupKeys (λ _. refl)

new_run_dir_is_new_example :
    get (new_run_dir history "backup" "r1").0 (runs_of history "backup") ≡ none
new_run_dir_is_new_example = new_run_dir_is_new history "backup" "r1"

abbrev cooled_history : World
cooled_history = record history {
  runs =
      (
        "backup",
        ("r1", killed_run)
            ∷ ("r4", record no_fields { run_id = some "r4"; status = some skipped })
            ∷ [],
      )
      ∷ [];
}

abbrev skipped_run : Run
skipped_run = record no_fields { run_id = some "r4"; status = some skipped }

cooled_runs : list_runs cooled_history "backup" ≡ (skipped_run ∷ []) ++ killed_run ∷ []
unfolding list_runs sort_desc insert_desc runs_of get
cooled_runs = refl

only_skipped : (r : Run) → Memᴰ r (skipped_run ∷ []) → NoFire r
only_skipped r (Memᴰ.head e) = inl (ap (λ (x : Run). x.status) e)
only_skipped r (Memᴰ.tail m) = elim m [ ]

killed_is_fire : NoFire killed_run → ⊥
killed_is_fire h = elim h [ inl e ↦ cc e | inr (inl e) ↦ cc e | inr (inr e) ↦ cc e ]

cooldown_check_lem_example :
    let over = 5_000_000 + 60 * 1_000_000 in
    (over ≤ 12_500_000 → cooldown_check cooled_history backup 12_500_000 ≡ none)
    × (12_500_000 < over
        → (n : ℕ) × (cooldown_check cooled_history backup 12_500_000 ≡ some (n, 60, "r1"))
          × (over ≤ 12_500_000 + n * 1_000_000)
          × (12_500_000 + n * 1_000_000 < over + 1_000_000)
          × (5_000_000 ≤ 12_500_000 → n ≤ 60))
cooldown_check_lem_example =
    cooldown_check_lem cooled_history backup 12_500_000 59 (skipped_run ∷ []) [] killed_run
      5_000_000 refl cooled_runs only_skipped killed_is_fire refl

abbrev calm_history : World
calm_history = record history {
  runs = ("backup", ("r0", pinned_run) ∷ ("r1", killed_run) ∷ ("r2", live_run) ∷ []) ∷ [];
}

finalize_dead_runs_spares_example :
    read_run (finalize_dead_runs machine calm_history backup).1 "backup" "r2"
    ≡ read_run calm_history "backup" "r2"
unfolding dead_pid list_runs sort_desc insert_desc runs_of get
finalize_dead_runs_spares_example =
    finalize_dead_runs_spares machine calm_history backup "r2"
      ((λ _. refl), ((λ _. refl), ((λ _. refl), tt)))

finalize_dead_runs_closes_example :
    let after = read_run (finalize_dead_runs machine history backup).1 "backup" "r3" in
    (after.status ≡ some failed) × (after.reaped ≡ some true)
unfolding dead_pid list_runs sort_desc insert_desc runs_of get read_run
finalize_dead_runs_closes_example =
    finalize_dead_runs_closes machine history backup "r3" lost_run (Memᴰ.head refl) refl refl refl
      refl
