-- ===== src/Examples/Covered.antt =====
-- The theorems on the coverage of jobs at concrete runs and scans.
use app_launcher_lite.Prelude.{
  ℕ, ◌+◌, ◌*◌, ◌<◌, ◌==◌, ◌≡◌, refl, Bool, true, false, not, ◌&&◌, ◌||◌, length, is_some, Option,
  some, none, List, [], ◌∷◌, eqb, if◌then◌else◌, ◌-◌, ◌≤◌, arith, ltb,
}
use app_launcher_lite.Prelude.Dict.{Dict, get}
use app_launcher_lite.Prelude.Member.{member}
use app_launcher_lite.Jobs.Record.{Run, at, no_fields}
use app_launcher_lite.Jobs.Executor.{NotifyConfig}
use app_launcher_lite.Jobs.Registry.{ids, UniqueIds}
use app_launcher_lite.Jobs.Registry.Edits.{is_paused}
use app_launcher_lite.Jobs.Schtasks.State.{Coverage, problem, task_missing}
use app_launcher_lite.Jobs.Schtasks.Fires.{
  minute, hour, day, next_fire, is_frequent, upcoming_fires,
}
use app_launcher_lite.Jobs.Schtasks.Fires.Named.{fires}
use app_launcher_lite.Jobs.Schtasks.Fires.Window.{has}
use app_launcher_lite.Jobs.Schtasks.Tasks.{task_names_for}
use app_launcher_lite.Jobs.Coverage.{
  window, grace, stamp_of, starts_of, missed_fires, coverage_for, any_in, window_start, has_run,
  fires_cap,
}
use app_launcher_lite.Jobs.Coverage.Window.{NotBefore, IsBound, missed_fires_lem}
use app_launcher_lite.Jobs.Coverage.Verdicts.{
  is_exempt, is_absent, is_disabled, is_problem, is_unknown, coverage_for_lem,
}
use app_launcher_lite.Jobs.Coverage.Alerts.{signature_of}
use app_launcher_lite.Jobs.Coverage.Alerts.Standing.{
  Pass, StandsIn, alert_times, daily_pings, last_alert, alert_times-daily_pings,
}
use app_launcher_lite.Examples.Scheduled.{readers, install, backup}

-- The fifth day at noon; the last run is that of the day before.
abbrev noon : ℕ
noon = 5 * day + 12 * hour

abbrev slot : ℕ → ℕ
slot d = d * day + 6 * hour + 30 * minute

abbrev history : List Run
history =
    record no_fields { started_at = some (at (slot 4 + 2 * minute)) }
    ∷ record no_fields { started_at = some (at (slot 3)) }
    ∷ []

missed_today : has (slot 5) (missed_fires readers backup noon history) ≡ true
unfolding missed_fires next_fire has
missed_today = refl

sparse : is_frequent backup.schedule ≡ false
unfolding is_frequent
sparse = refl

few_expected :
    length (
      upcoming_fires readers backup.schedule
        (window_start readers backup noon history)
        (noon - grace)
        fires_cap)
    < fires_cap
unfolding upcoming_fires next_fire window_start
few_expected = omega arith

missed_fires_lem_example :
    let start = window_start readers backup noon history in
    (has (slot 5) (missed_fires readers backup noon history) ≡ (
      fires readers backup.schedule (slot 5)
      && ltb start (slot 5)
      && ltb (slot 5) (noon - grace)
      && not (has_run (slot 5) (starts_of history))))
    × (noon ≤ start + window)
    × NotBefore (stamp_of readers backup.added_at) start
    × NotBefore (stamp_of readers backup.schedule_changed_at) start
    × IsBound readers backup noon history start
missed_fires_lem_example = missed_fires_lem readers backup noon history (slot 5) sparse few_expected

abbrev registered : Option (Dict (Option Bool))
registered = some (("\\N\\other", some true) ∷ [])

coverage_for_lem_example :
    let c = coverage_for readers install backup registered noon history in
    let active = not (is_paused backup || (backup.schedule.type == "none")) in
    let named = active && member "\\N\\backup" (task_names_for install backup) in
    (is_exempt c.state ≡ not active)
    × (member "\\N\\backup" c.missing_tasks ≡ (named && is_absent registered "\\N\\backup"))
    × (member "\\N\\backup" c.disabled_tasks ≡ (named && is_disabled registered "\\N\\backup"))
    × (c.missed_count ≡ (if active then length (missed_fires readers backup noon history) else 0))
    × (is_problem c.state
        ≡ (any_in c.missing_tasks || any_in c.disabled_tasks || not (eqb c.missed_count 0)))
    × (is_unknown c.state ≡ (
        active
        && not (is_some registered)
        && eqb (length (missed_fires readers backup noon history)) 0))
coverage_for_lem_example =
    coverage_for_lem readers install backup registered noon history "\\N\\backup"

abbrev unregistered : Coverage
unregistered = record {
  state = problem;
  problems = task_missing ∷ [];
  missing_tasks = "\\N\\backup" ∷ [];
  disabled_tasks = [];
  missed_count = 0;
  missed_fires = [];
}

abbrev pass_at : ℕ → Pass
pass_at wall = record {
  round = record { wall = wall; stamp = wall; delivers = λ j. true };
  results = ("backup", unregistered) ∷ [];
  can_write = true;
}

abbrev passes : List Pass
passes = pass_at hour ∷ pass_at (2 * hour) ∷ pass_at (26 * hour) ∷ []

abbrev channels : NotifyConfig
channels = record {
  notify_on_failure = true;
  notify_failure_streak = 0;
  has_pushover = true;
  has_telegram = false;
}

stands_at : (wall : ℕ) → StandsIn "backup" (signature_of unregistered) (pass_at wall)
unfolding get
stands_at wall = record {
  coverage = unregistered;
  found = refl;
  broken = refl;
  signed = refl;
  delivered = λ j. refl;
  stored = refl;
}

there : member "backup" (ids (backup ∷ [])) ≡ true
unfolding member ids
there = refl

alone : UniqueIds (backup ∷ [])
unfolding member ids
alone = (refl, tt)

alert_times-daily_pings_example :
    alert_times channels (backup ∷ []) "backup" [] passes
    ≡ daily_pings (last_alert (get "backup" []) (signature_of unregistered)) passes
alert_times-daily_pings_example =
    alert_times-daily_pings channels (backup ∷ []) "backup" (signature_of unregistered) [] passes
      alone there (stands_at hour, (stands_at (2 * hour), (stands_at (26 * hour), tt)))

pinged_twice : daily_pings none passes ≡ hour ∷ (26 * hour) ∷ []
unfolding daily_pings
pinged_twice = refl
