-- ===== src/Jobs/Reap/Laws.antt =====
-- Which records the reaping of src/jobs/reap.py closes, and which it does not touch.
use mathlib.Core.List.{Memᴰ}
use app_launcher_lite.Prelude.{
  String, ◌≡◌, refl, ◌∙◌, ap, sym, Bool, true, false, ◌&&◌, some, List, [], ◌∷◌, arith, eq_iff,
  eq_refl, Bool-cases, inl, inr, subst,
}
use app_launcher_lite.Jobs.Record.{Run, failed, is_live, truthy, merge, update, drop_kill_owned}
use app_launcher_lite.Jobs.World.{World, Host}
use app_launcher_lite.Jobs.Job.{Job}
use app_launcher_lite.Jobs.History.{read_run, write_run_json, list_runs}
use app_launcher_lite.Jobs.History.Writes.{after_write, read_run-write_run_json}
use app_launcher_lite.Jobs.Reap.{
  dead_pid, run_id_of, reaped_fields, invalidate_stats_cache, reap_one, finalize_each,
  finalize_dead_runs,
}
use app_launcher_lite.Jobs.Reap.Frames.{after_reap_one, after_finalize_each}

-- The record is to be reaped: it says running or pending, and its process is gone.
abbrev pub to_reap : Host → Run → Bool
to_reap h r = is_live r.status && dead_pid h r

-- No listed record under the id is to be reaped.
abbrev pub Spared : Host → String → List Run → Type 0
Spared h i [] = Unit
Spared h i (r ∷ rs) = (run_id_of r ≡ some i → to_reap h r ≡ false) × Spared h i rs

read_run-invalidate :
    (w : World) (j k i : String) → read_run (invalidate_stats_cache w j) k i ≡ read_run w k i
unfolding invalidate_stats_cache read_run
read_run-invalidate w j k i = refl

spared_one :
    (h : Host) (w u : World) (j i : String) (r : Run)
    → (run_id_of r ≡ some i → dead_pid h r ≡ false)
    → read_run u j i ≡ read_run w j i
    → read_run (reap_one h u j r).1 j i ≡ read_run w j i
spared_one h w u j i r alive e =
    after_reap_one (λ u'. read_run u' j i ≡ read_run w j i) h u j r e
      (λ k dead name.
        read_run-invalidate _ j j i
        ∙ after_write (λ x. x ≡ read_run w j i) u j k j i (reaped_fields h r) e
            (λ on. absurd (ground (arith, alive, dead, name, on, eq_iff k i, eq_iff j j))))

spared :
    (h : Host) (w u : World) (j i : String) (rs : List Run)
    → Spared h i rs
    → read_run u j i ≡ read_run w j i
    → read_run (finalize_each h u j rs).1 j i ≡ read_run w j i
unfolding finalize_each
spared h w u j i [] s e = e
spared h w u j i (r ∷ rs) s e = elim (Bool-cases (is_live r.status)) [
  | inr over ↦ rw over (spared h w u j i rs s.1 e)
  | inl live ↦ rw live (
      spared h w (reap_one h u j r).1 j i rs s.1
        (spared_one h w u j i r (λ name. ground (arith, s.0 name, live)) e))
]

-- A run with no recorded process, with a living one, or with a final status keeps its whole record
-- when the job's dead runs are reaped.
pub finalize_dead_runs_spares :
    (h : Host) (w : World) (job : Job) (i : String)
    → Spared h i (list_runs w job.id)
    → read_run (finalize_dead_runs h w job).1 job.id i ≡ read_run w job.id i
unfolding finalize_dead_runs
finalize_dead_runs_spares h w job i s = spared h w w job.id i (list_runs w job.id) s refl

-- The record of a reaped run.
record Reaped (r : Run) : Type 0 where
  failed_status : r.status ≡ some failed
  marked : r.reaped ≡ some true

merge-Reaped :
    (h : Host) (old r : Run) → truthy old.killed ≡ false → Reaped (merge old (reaped_fields h r))
unfolding merge update drop_kill_owned
merge-Reaped h old r k = rw k (record { failed_status = refl; marked = refl })

again-Reaped : (h : Host) (old r : Run) → Reaped old → Reaped (merge old (reaped_fields h r))
unfolding merge update drop_kill_owned
again-Reaped h old r p = elim (Bool-cases (truthy old.killed)) [
  | inl k ↦ rw k (record { failed_status = p.failed_status; marked = refl })
  | inr k ↦ rw k (record { failed_status = refl; marked = refl })
]

unkilled-merge :
    (h : Host) (old r : Run)
    → truthy old.killed ≡ false
    → truthy (merge old (reaped_fields h r)).killed ≡ false
unfolding merge update drop_kill_owned
unkilled-merge h old r k = rw k k

kept :
    (P : Run → Type 0) (h : Host) (u : World) (j i : String) (rs : List Run)
    → ((old r : Run) → P old → P (merge old (reaped_fields h r)))
    → P (read_run u j i)
    → P (read_run (finalize_each h u j rs).1 j i)
kept P h u j i rs step p =
    after_finalize_each (λ v. P (read_run v j i)) h u j rs
      (λ v r q.
        after_reap_one (λ v'. P (read_run v' j i)) h v j r q
          (λ k dead name.
            subst P (sym (read_run-invalidate _ j j i))
              (after_write P v j k j i (reaped_fields h r) q (λ on. step _ r q))))
      p

reap_one-reaps :
    (h : Host) (u : World) (j i : String) (r : Run)
    → dead_pid h r ≡ true
    → run_id_of r ≡ some i
    → (reap_one h u j r).1 ≡ invalidate_stats_cache (write_run_json u j i (reaped_fields h r)) j
unfolding reap_one
reap_one-reaps h u j i r dead name = rw dead (rw name refl)

first-Reaped :
    (h : Host) (u : World) (j i : String) (r : Run)
    → dead_pid h r ≡ true
    → run_id_of r ≡ some i
    → truthy (read_run u j i).killed ≡ false
    → Reaped (read_run (reap_one h u j r).1 j i)
first-Reaped h u j i r dead name k =
    rw
      (
        reap_one-reaps h u j i r dead name,
        read_run-invalidate (write_run_json u j i (reaped_fields h r)) j j i,
        read_run-write_run_json u j i j i (reaped_fields h r),
        eq_refl j,
        eq_refl i,
      )
      (merge-Reaped h (read_run u j i) r k)

listed-Reaped :
    (h : Host) (u : World) (j i : String) (r : Run) (rs : List Run)
    → Memᴰ r rs
    → is_live r.status ≡ true
    → dead_pid h r ≡ true
    → run_id_of r ≡ some i
    → truthy (read_run u j i).killed ≡ false
    → Reaped (read_run (finalize_each h u j rs).1 j i)
unfolding finalize_each
listed-Reaped h u j i r [] m live dead name k = elim m [ ]
listed-Reaped h u j i r (x ∷ rs) (Memᴰ.head e) live dead name k =
    rw (ap (λ (y : Run). is_live y.status) (sym e) ∙ live) (
      kept Reaped h (reap_one h u j x).1 j i rs (again-Reaped h) (
        subst (λ y. Reaped (read_run (reap_one h u j y).1 j i)) e
          (first-Reaped h u j i r dead name k)))
listed-Reaped h u j i r (x ∷ rs) (Memᴰ.tail m) live dead name k =
    elim (Bool-cases (is_live x.status)) [
      | inr over ↦ rw over (listed-Reaped h u j i r rs m live dead name k)
      | inl also ↦ rw also (
          listed-Reaped h (reap_one h u j x).1 j i r rs m live dead name (
            after_reap_one (λ v. truthy (read_run v j i).killed ≡ false) h u j x k
              (λ n d e.
                subst (λ y. truthy y.killed ≡ false) (sym (read_run-invalidate _ j j i))
                  (after_write (λ y. truthy y.killed ≡ false) u j n j i (reaped_fields h x) k
                    (λ on. unkilled-merge h _ x k)))))
    ]

-- A listed run that says running or pending, whose recorded process is gone and that no one
-- killed, ends as failed and marked as reaped.
pub finalize_dead_runs_closes :
    (h : Host) (w : World) (job : Job) (i : String) (r : Run)
    → Memᴰ r (list_runs w job.id)
    → is_live r.status ≡ true
    → dead_pid h r ≡ true
    → run_id_of r ≡ some i
    → truthy (read_run w job.id i).killed ≡ false
    → let after = read_run (finalize_dead_runs h w job).1 job.id i in
      (after.status ≡ some failed) × (after.reaped ≡ some true)
unfolding finalize_dead_runs
finalize_dead_runs_closes h w job i r m live dead name k =
    let p = listed-Reaped h w job.id i r (list_runs w job.id) m live dead name k in
    (p.failed_status, p.marked)
