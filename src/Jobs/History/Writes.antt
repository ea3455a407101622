-- ===== src/Jobs/History/Writes.antt =====
-- What reads of src/jobs/history.py see after a write.
use app_launcher_lite.Prelude.{
  String, ◌==◌, ◌≡◌, sym, subst, ap, inl, inr, Bool-cases, ◌∙◌, true, ◌&&◌, none, some, Option,
  if◌then◌else◌, arith, eq_iff,
}
use app_launcher_lite.Prelude.Dict.{Dict, get, put, get-put}
use app_launcher_lite.Jobs.Record.{Run, merge, no_fields}
use app_launcher_lite.Jobs.World.{World, runs_of, set_runs}
use app_launcher_lite.Jobs.History.{write_run_json, read_run}

pub runs_of-set_runs :
    (w : World) (i j : String) (d : Dict Run)
    → runs_of (set_runs w i d) j ≡ (if i == j then d else runs_of w j)
unfolding runs_of set_runs
runs_of-set_runs w i j d = ground (arith, get-put i j d w.runs)

or_empty : Option Run → Run
or_empty o = elim o [ none ↦ no_fields | some r ↦ r ]

read_in-put :
    (j i k l : String) (r : Run) (d e : Dict Run)
    → (j ≡ k → d ≡ e)
    → or_empty (get l (if j == k then put i r d else e))
      ≡ (if (j == k) && (i == l) then r else or_empty (get l e))
unfolding or_empty
read_in-put j i k l r d e h = ground (arith, h, get-put i l r d, eq_iff j k)

-- A write merges into the run it names, and no other read changes.
pub read_run-write_run_json :
    (w : World) (j i k l : String) (f : Run)
    → read_run (write_run_json w j i f) k l
      ≡ (if (j == k) && (i == l) then merge (read_run w j i) f else read_run w k l)
unfolding read_run write_run_json or_empty
read_run-write_run_json w j i k l f =
    ap (λ d. or_empty (get l d))
      (runs_of-set_runs w j k (put i (merge (read_run w j i) f) (runs_of w j)))
    ∙ read_in-put j i k l (merge (read_run w j i) f) (runs_of w j) (runs_of w k) (ap (runs_of w))

both :
    (w : World) (j i k l : String) → ((j == k) && (i == l)) ≡ true → read_run w j i ≡ read_run w k l
both w j i k l h = ground (arith, eq_iff j k, eq_iff i l)

-- What holds of a record, and of its merge with a write to it, holds after any write.
pub after_write {ℓ} :
    (P : Run → Type ℓ) (w : World) (j i k l : String) (f : Run)
    → P (read_run w k l)
    → (((j == k) && (i == l)) ≡ true → P (merge (read_run w k l) f))
    → P (read_run (write_run_json w j i f) k l)
after_write P w j i k l f keeps hits =
    subst P (sym (read_run-write_run_json w j i k l f)) (elim (Bool-cases ((j == k) && (i == l))) [
      | inr off ↦ rw off keeps
      | inl on ↦ rw (on, both w j i k l on) (hits on)
    ])
