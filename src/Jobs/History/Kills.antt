-- ===== src/Jobs/History/Kills.antt =====
-- The precedence of a kill in src/jobs/history.py: the kill and the executor write the same record in
-- either order.
use app_launcher_lite.Prelude.{
  String, ◌==◌, ◌≡◌, refl, ◌∙◌, true, ◌&&◌, none, some, Option, List, [], ◌∷◌,
}
use app_launcher_lite.Prelude.Int.{ℤ}
use app_launcher_lite.Jobs.Record.{Run, Status, Stamp, merge, update, drop_kill_owned}
use app_launcher_lite.Jobs.World.{World}
use app_launcher_lite.Jobs.History.{write_run_json, read_run}
use app_launcher_lite.Jobs.History.Writes.{after_write}

-- What a kill owns: the status, the exit code, the end and the duration.
abbrev pub outcome : Run → Option Status × Option ℤ × Option Stamp × Option ℤ
outcome r = (r.status, r.exit_code, r.finished_at, r.duration_seconds)

-- One write of any process.
pub record Write : Type 0 where
  pub job_id : String
  pub run_id : String
  pub fields : Run

unfoldable pub write_all : World → List Write → World
write_all w [] = w
write_all w (x ∷ xs) = write_all (write_run_json w x.job_id x.run_id x.fields) xs

-- No write to the run says anything of `killed`.
abbrev pub NoKill : String → String → List Write → Type 0
NoKill j i [] = Unit
NoKill j i (x ∷ xs) =
    (((x.job_id == j) && (x.run_id == i)) ≡ true → x.fields.killed ≡ none) × NoKill j i xs

merge_killed :
    (old new : Run)
    → old.killed ≡ some true
    → new.killed ≡ none
    → (outcome (merge old new) ≡ outcome old) × ((merge old new).killed ≡ some true)
unfolding merge update drop_kill_owned
merge_killed old new k n = rw (k, n) (refl, refl)

killed_write :
    (w : World) (j i : String) (x : Write)
    → (read_run w j i).killed ≡ some true
    → (((x.job_id == j) && (x.run_id == i)) ≡ true → x.fields.killed ≡ none)
    → let w' = write_run_json w x.job_id x.run_id x.fields in
      (outcome (read_run w' j i) ≡ outcome (read_run w j i))
      × ((read_run w' j i).killed ≡ some true)
killed_write w j i x k n =
    after_write (λ r. (outcome r ≡ outcome (read_run w j i)) × (r.killed ≡ some true)) w x.job_id
      x.run_id j i x.fields (refl, k) (λ on. merge_killed (read_run w j i) x.fields k (n on))

-- Once a run is recorded as killed, no sequence of writes of any processes that leaves `killed`
-- alone changes the status, the exit code, the end or the duration that the kill recorded.
pub killed-write_all :
    (w : World) (j i : String) (xs : List Write)
    → (read_run w j i).killed ≡ some true
    → NoKill j i xs
    → outcome (read_run (write_all w xs) j i) ≡ outcome (read_run w j i)
unfolding write_all
killed-write_all w j i [] k n = refl
killed-write_all w j i (x ∷ xs) k n =
    let (same, still) = killed_write w j i x k n.0 in
    killed-write_all (write_run_json w x.job_id x.run_id x.fields) j i xs still n.1 ∙ same
