-- ===== src/Jobs/Stats/Caching.antt =====
-- The cache in front of `_compute_stats` of src/jobs/stats.py.
use app_launcher_lite.Prelude.{ℕ, String, ◌≡◌, refl, ◌∙◌, ap, Bool, none}
use app_launcher_lite.Prelude.Dict
use app_launcher_lite.Prelude.Dict.{NodupKeys, get, get-del_self}
use app_launcher_lite.Jobs.World.{World}
use app_launcher_lite.Jobs.Stats.{compute_stats, served, run_stats}
use app_launcher_lite.Jobs.World.{runs_of}
use app_launcher_lite.Jobs.History.{list_runs}
use app_launcher_lite.Jobs.Reap.{invalidate_stats_cache}

compute_stats-invalidate :
    (w : World) (j : String) (now : ℕ)
    → compute_stats (invalidate_stats_cache w j) j now ≡ compute_stats w j now
unfolding compute_stats invalidate_stats_cache list_runs runs_of
compute_stats-invalidate w j now = refl

missed :
    (w : World) (j : String) (fresh : Bool) (now : ℕ)
    → get j w.stats_cache ≡ none
    → (run_stats w j fresh now).0 ≡ compute_stats w j now
unfolding run_stats
missed w j fresh now e =
    let stats = compute_stats w j now in
    let w' = record w { stats_cache = Dict.put j (now, stats) w.stats_cache } in
    ap (λ o. (served o fresh now w (stats, w')).0) e

gone :
    (w : World) (j : String)
    → NodupKeys w.stats_cache
    → get j (invalidate_stats_cache w j).stats_cache ≡ none
unfolding invalidate_stats_cache
gone w j nd = get-del_self j w.stats_cache nd

-- When no job is cached twice, after the invalidation of a job's statistics, the next request for
-- them is computed from the history, however young the cached answer was.
pub run_stats-invalidate_stats_cache :
    (w : World) (j : String) (fresh : Bool) (now : ℕ)
    → NodupKeys w.stats_cache
    → (run_stats (invalidate_stats_cache w j) j fresh now).0 ≡ compute_stats w j now
run_stats-invalidate_stats_cache w j fresh now nd =
    missed (invalidate_stats_cache w j) j fresh now (gone w j nd) ∙ compute_stats-invalidate w j now
