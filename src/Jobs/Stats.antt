-- ===== src/Jobs/Stats.antt =====
-- src/jobs/stats.py: cooldowns, duration percentiles, thresholds and failure streaks, from the run
-- history. Durations and instants are ticks.
pub mod Cooldown
pub mod Percentiles
pub mod Caching
use Prim.Native.Nat.{max, min, ◌/◌, ◌%◌, ◌*◌, ◌-◌}
use app_launcher_lite.Prelude.{
  ℕ, zero, suc, ◌+◌, String, Bool, true, false, not, ◌&&◌, ◌||◌, Option, none, some, List, [], ◌∷◌,
  ◌++◌, map, ltb, leb, eqb, if◌then◌else◌, length,
}
use mathlib.Core.List.{reverse}
use app_launcher_lite.Prelude.Dict
use app_launcher_lite.Prelude.Int.{ℤ, pos, negsuc}
use app_launcher_lite.Jobs.Record.{
  Run, Stamp, at, unreadable, Status, running, success, failed, skipped, dry_run_success,
  dry_run_failed, is_failed, or_else,
}
use app_launcher_lite.Jobs.Job.{Job}
use app_launcher_lite.Jobs.World.{World, RunStats}
use app_launcher_lite.Jobs.History.{second, list_runs, latest_run}

-- `_parse_iso`
abbrev pub parse_iso : Option Stamp → Option ℕ
parse_iso (some (at t)) = some t
parse_iso _ = none

-- The runs that do not anchor a cooldown.
abbrev pub is_no_fire : Option Status → Bool
is_no_fire (some skipped) = true
is_no_fire (some dry_run_success) = true
is_no_fire (some dry_run_failed) = true
is_no_fire _ = false

-- The most recent run that was a real fire.
unfoldable pub anchor_of : List Run → Option Run
anchor_of [] = none
anchor_of (r ∷ rs) = if is_no_fire r.status then anchor_of rs else some r

abbrev pub text_or_empty : Option String → String
text_or_empty none = ""
text_or_empty (some s) = s

-- The answer of `cooldown_check` from the remaining time on: the seconds left, rounded up, the
-- cooldown, and the anchor's run id.
abbrev pub cooling : ℕ → ℕ → Run → Option (ℕ × ℕ × String)
cooling remaining c anchor =
    if eqb remaining 0
    then none
    else some ((remaining + (second - 1)) / second, c, text_or_empty anchor.run_id)

-- The answer for a start of the anchor that can be read, or not.
abbrev pub cooling_since : Option ℕ → ℕ → Run → ℕ → Option (ℕ × ℕ × String)
cooling_since none c anchor now = none
cooling_since (some started) c anchor now = cooling (started + c * second - now) c anchor

abbrev pub cooling_from : Option Run → ℕ → ℕ → Option (ℕ × ℕ × String)
cooling_from none c now = none
cooling_from (some anchor) c now = cooling_since (parse_iso anchor.started_at) c anchor now

-- `cooldown_check`
unfoldable pub cooldown_check : World → Job → ℕ → Option (ℕ × ℕ × String)
unfolding anchor_of list_runs
cooldown_check w job now = elim job.cooldown_seconds [
  | none ↦ none
  | some zero ↦ none
  | some (suc c) ↦ cooling_from (anchor_of (list_runs w job.id)) (suc c) now
]

-- `_duration_for`
unfoldable pub duration_for : Run → Option ℕ
duration_for r = elim r.duration_seconds [
  | some (pos d) ↦ some d
  | _ ↦ elim (parse_iso r.started_at) [
    | none ↦ none
    | some s ↦ elim (parse_iso r.finished_at) [
      | none ↦ none
      | some f ↦ if leb s f then some (f - s) else none
    ]
  ]
]

unfoldable pub insert : ℕ → List ℕ → List ℕ
insert x [] = x ∷ []
insert x (y ∷ ys) = if leb x y then x ∷ y ∷ ys else y ∷ insert x ys

-- `sorted`
unfoldable pub sort : List ℕ → List ℕ
unfolding insert
sort [] = []
sort (x ∷ xs) = insert x (sort xs)

abbrev pub get_elem? : List ℕ → ℕ → Option ℕ
get_elem? [] i = none
get_elem? (x ∷ xs) zero = some x
get_elem? (x ∷ xs) (suc i) = get_elem? xs i

-- Python's `round` of `a / 100`: to the nearest whole number, a half to the even one.
unfoldable pub round_hundredths : ℕ → ℕ
round_hundredths a =
    let q = a / 100 in
    let r = a % 100 in
    if ltb r 50 then q else if ltb 50 r then q + 1 else if eqb (q % 2) 0 then q else q + 1

-- `_percentile`, with `pct` in hundredths.
unfoldable pub percentile : List ℕ → ℕ → Option ℕ
unfolding sort round_hundredths
percentile [] pct = none
percentile (v ∷ vs) pct =
    let s = sort (v ∷ vs) in
    get_elem? s (max 0 (min (length s - 1) (round_hundredths (pct * (length s - 1)))))

-- `status in {"success", "failed"}`
abbrev pub is_completed : Option Status → Bool
is_completed (some success) = true
is_completed (some failed) = true
is_completed _ = false

abbrev pub is_success : Option Status → Bool
is_success (some success) = true
is_success _ = false

-- The durations of the completed runs.
unfoldable pub completed_durations : List Run → List ℕ
unfolding duration_for
completed_durations [] = []
completed_durations (r ∷ rs) =
    let rest = completed_durations rs in
    if is_completed r.status
    then elim (duration_for r) [ none ↦ rest | some d ↦ d ∷ rest ]
    else rest

-- `started and started >= cutoff`
abbrev pub started_since : Run → ℕ → Bool
started_since r cutoff = elim (parse_iso r.started_at) [ none ↦ false | some s ↦ leb cutoff s ]

-- The completed runs of the window that pass a test.
unfoldable pub count_recent : (Option Status → Bool) → ℕ → List Run → ℕ
count_recent test cutoff [] = 0
count_recent test cutoff (r ∷ rs) =
    (if test r.status && started_since r cutoff then 1 else 0) + count_recent test cutoff rs

abbrev pub take {ℓ} : {A : Type ℓ} → ℕ → List A → List A
take zero xs = []
take (suc n) [] = []
take (suc n) (x ∷ xs) = x ∷ take n xs

abbrev pub days30 : ℕ
days30 = 30 * 86_400 * second

-- `_compute_stats`
unfoldable pub compute_stats : World → String → ℕ → RunStats
unfolding list_runs completed_durations percentile count_recent
compute_stats w job_id now =
    let runs = list_runs w job_id in
    let durations = completed_durations runs in
    record {
      p50 = percentile durations 50;
      p95 = percentile durations 95;
      success_recent = count_recent is_success (now - days30) runs;
      total_recent = count_recent is_completed (now - days30) runs;
      completed_count = length durations;
      last7 = reverse (map (λ (r : Run). (r.status, r.run_id)) (take 7 runs));
    }

abbrev pub stats_ttl : ℕ
stats_ttl = 30 * second

-- A cached answer younger than the TTL serves, unless `fresh`.
abbrev pub served : Option (ℕ × RunStats) → Bool → ℕ → World → RunStats × World → RunStats × World
served none fresh now w computed = computed
served (some (then_, hit)) fresh now w computed =
    if not fresh && ltb now (then_ + stats_ttl) then (hit, w) else computed

-- `run_stats`
unfoldable pub run_stats : World → String → Bool → ℕ → RunStats × World
unfolding compute_stats
run_stats w job_id fresh now =
    let stats = compute_stats w job_id now in
    let w' = record w { stats_cache = Dict.put job_id (now, stats) w.stats_cache } in
    served (Dict.get job_id w.stats_cache) fresh now w (stats, w')

-- `_threshold_from_stats`, with the default factor 3 and floor of 300 seconds.
unfoldable pub threshold_from_stats : RunStats → ℕ
threshold_from_stats stats = max (elim stats.p95 [ none ↦ 0 | some p ↦ p * 3 ]) (300 * second)

-- `stuck_threshold_seconds`
unfoldable pub stuck_threshold : World → String → ℕ → ℕ
unfolding threshold_from_stats run_stats compute_stats
stuck_threshold w job_id now = threshold_from_stats (run_stats w job_id true now).0

abbrev pub watchdog_min_completed_runs : ℕ
watchdog_min_completed_runs = 5

-- `derived_runtime_ceiling_seconds`
unfoldable pub derived_runtime_ceiling : World → String → ℕ → Option ℕ
unfolding threshold_from_stats run_stats compute_stats
derived_runtime_ceiling w job_id now =
    let stats = (run_stats w job_id true now).0 in
    if ltb stats.completed_count watchdog_min_completed_runs
    then none
    else some (threshold_from_stats stats)

-- `is_stuck`
unfoldable pub is_stuck : World → String → ℕ → Bool
unfolding stuck_threshold latest_run
is_stuck w job_id now = elim (latest_run w job_id) [
  | none ↦ false
  | some r ↦ elim r.status [
    | some running ↦ elim (parse_iso r.started_at) [
      | none ↦ false
      | some s ↦ ltb (s + stuck_threshold w job_id now) now
    ]
    | _ ↦ false
  ]
]

-- The failed runs at the head of a history.
unfoldable pub failed_prefix : List Run → ℕ
failed_prefix [] = 0
failed_prefix (r ∷ rs) = if is_failed r.status then suc (failed_prefix rs) else 0

-- `consecutive_failed_runs`
unfoldable pub consecutive_failed_runs : World → String → ℕ
unfolding failed_prefix list_runs
consecutive_failed_runs w job_id = failed_prefix (list_runs w job_id)
