-- ===== src/Jobs/Reap/Frames.antt =====
-- What the reaping of src/jobs/reap.py leaves alone.
use app_launcher_lite.Prelude.{
  String, ◌==◌, ◌≡◌, refl, ◌∙◌, true, false, some, Option-cases, Bool-cases, inl, inr, List, [],
  ◌∷◌,
}
use app_launcher_lite.Jobs.Record.{Run, is_live}
use app_launcher_lite.Jobs.World.{World, Host, runs_of, set_runs}
use app_launcher_lite.Jobs.History.{write_run_json}
use app_launcher_lite.Jobs.History.Writes.{runs_of-set_runs}
use app_launcher_lite.Jobs.Job.{Job}
use app_launcher_lite.Jobs.Reap.{
  dead_pid, run_id_of, reaped_fields, invalidate_stats_cache, reap_one, finalize_each,
  finalize_dead_runs,
}

-- The queue, the spawned executors and the runs of other jobs.
pub record Framed (j : String) (w w' : World) : Type 0 where
  pub queue : w'.queue ≡ w.queue
  pub spawned : w'.spawned ≡ w.spawned
  pub others : (k : String) → (j == k) ≡ false → runs_of w' k ≡ runs_of w k

pub no_step-Framed : (j : String) (w : World) → Framed j w w
no_step-Framed j w = record { queue = refl; spawned = refl; others = λ k e. refl }

pub two_steps-Framed : (j : String) (u v w : World) → Framed j u v → Framed j v w → Framed j u w
two_steps-Framed j u v w f g = record {
  queue = g.queue ∙ f.queue;
  spawned = g.spawned ∙ f.spawned;
  others = λ k e. g.others k e ∙ f.others k e;
}

pub write_run_json-Framed :
    (w : World) (j i : String) (r : Run) → Framed j w (write_run_json w j i r)
unfolding write_run_json set_runs
write_run_json-Framed w j i r = record {
  queue = refl;
  spawned = refl;
  others = λ k e. runs_of-set_runs w j k _ ∙ rw e refl;
}

invalidate-Framed :
    (w w' : World) (j k : String) → Framed j w w' → Framed j w (invalidate_stats_cache w' k)
unfolding invalidate_stats_cache runs_of
invalidate-Framed w w' j k f = record { queue = f.queue; spawned = f.spawned; others = f.others }

-- What holds before, and after the write of a run that is to be reaped, holds after `_reap_one`.
pub after_reap_one {ℓ} :
    (P : World → Type ℓ) (h : Host) (w : World) (j : String) (r : Run)
    → P w
    → ((i : String)
        → dead_pid h r ≡ true
        → run_id_of r ≡ some i
        → P (invalidate_stats_cache (write_run_json w j i (reaped_fields h r)) j))
    → P (reap_one h w j r).1
unfolding reap_one
after_reap_one P h w j r stays writes = elim (Bool-cases (dead_pid h r)) [
  | inr alive ↦ rw alive stays
  | inl dead ↦ rw dead (elim (Option-cases (run_id_of r)) [
    | inl e ↦ rw e stays
    | inr (i, e) ↦ rw e (writes i dead e)
  ])
]

-- What one reaping keeps, all keep.
pub after_finalize_each {ℓ} :
    (P : World → Type ℓ) (h : Host) (w : World) (j : String) (rs : List Run)
    → ((u : World) (r : Run) → P u → P (reap_one h u j r).1)
    → P w
    → P (finalize_each h w j rs).1
unfolding finalize_each
after_finalize_each P h w j [] step p = p
after_finalize_each P h w j (r ∷ rs) step p = elim (Bool-cases (is_live r.status)) [
  | inl live ↦ rw live (after_finalize_each P h (reap_one h w j r).1 j rs step (step w r p))
  | inr over ↦ rw over (after_finalize_each P h w j rs step p)
]

pub finalize_dead_runs-Framed :
    (h : Host) (w : World) (job : Job) → Framed job.id w (finalize_dead_runs h w job).1
unfolding finalize_dead_runs
finalize_dead_runs-Framed h w job =
    after_finalize_each (Framed job.id w) h w job.id _
      (λ u r f. after_reap_one (Framed job.id w) h u job.id r f (λ i d e.
        invalidate-Framed w _ job.id job.id
          (two_steps-Framed job.id w u _ f (write_run_json-Framed u job.id i (reaped_fields h r)))))
      (no_step-Framed job.id w)
