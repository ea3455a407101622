-- ===== src/Jobs/Naming/Fresh.antt =====
-- The name that `new_run_dir` of src/jobs/history.py picks, and the end of its loop.
use text.Mathlib.TextLemmas.{
  append-nil as text_append-nil, append_cancel_left, cons-ne-nil, tail-eq_of_cons-eq,
}
use app_launcher_lite.Prelude.{
  ℕ, zero, suc, ◌+◌, ◌≤◌, ◌<◌, String, ◌==◌, ◌≡◌, refl, sym, ap, ◌∙◌, ◌≢◌, false, none, arith,
  eq_iff, length, Bool-cases, Option-cases, inl, inr,
}
use app_launcher_lite.Prelude.Decimal.{show, show_injective}
use app_launcher_lite.Prelude.Dict
use app_launcher_lite.Prelude.Dict.{Dict, get-del_ne, length-del}
use app_launcher_lite.Jobs.Record.{Run}
use app_launcher_lite.Jobs.World.{World, runs_of}
use app_launcher_lite.Jobs.Naming.{name_at, free_index, fresh_name, new_run_dir}

suffix-ne : (rid : String) (k : ℕ) → name_at rid (suc k) ≢ rid
unfolding name_at
suffix-ne rid k e = cons-ne-nil "-" (show (k + 2)) (
    append_cancel_left rid (String.◌∷◌ "-" (show (k + 2))) String.[]
      (e ∙ sym (text_append-nil rid)))

name_at_injective : (rid : String) (j k : ℕ) → name_at rid j ≡ name_at rid k → j ≡ k
unfolding name_at
name_at_injective rid zero zero e = refl
name_at_injective rid zero (suc k) e = absurd (suffix-ne rid k (sym e))
name_at_injective rid (suc j) zero e = absurd (suffix-ne rid j e)
name_at_injective rid (suc j) (suc k) e =
    omega
      (arith, show_injective (j + 2) (k + 2) (tail-eq_of_cons-eq (append_cancel_left rid _ _ e)))

name_at-ne : (rid : String) (j k : ℕ) → j < k → (name_at rid j == name_at rid k) ≡ false
name_at-ne rid j k h = elim (Bool-cases (name_at rid j == name_at rid k)) [
  | inl e ↦ absurd (omega (arith, name_at_injective rid j k ((eq_iff _ _).0 e)))
  | inr e ↦ e
]

free_index-ge : (fuel k : ℕ) (rid : String) (d : Dict Run) → k ≤ free_index fuel k rid d
unfolding free_index
free_index-ge zero k rid d = omega arith
free_index-ge (suc fuel) k rid d = ground (arith, free_index-ge fuel (suc k) rid d)

-- A directory with an earlier name does not matter.
free_index-del :
    (fuel j k : ℕ) (rid : String) (d : Dict Run)
    → j < k
    → free_index fuel k rid (Dict.del (name_at rid j) d) ≡ free_index fuel k rid d
unfolding free_index
free_index-del zero j k rid d h = refl
free_index-del (suc fuel) j k rid d h = ground (
  arith,
  get-del_ne (name_at rid j) (name_at rid k) d (name_at-ne rid j k h),
  free_index-del fuel j (suc k) rid d,
)

free_index-absent :
    (fuel k : ℕ) (rid : String) (d : Dict Run)
    → length d < fuel
    → Dict.get (name_at rid (free_index fuel k rid d)) d ≡ none
unfolding free_index
free_index-absent zero k rid d h = absurd (omega arith)
free_index-absent (suc fuel) k rid d h = elim (Option-cases (Dict.get (name_at rid k) d)) [
  | inl e ↦ rw e e
  | inr (r, e) ↦
      let less = length-del (name_at rid k) r d e in
      let i = free_index fuel (suc k) rid d in
      let rest =
        free_index-absent fuel (suc k) rid (Dict.del (name_at rid k) d) (omega (arith, less)) in
      rw e (
        sym (
          get-del_ne (name_at rid k) (name_at rid i) d
            (name_at-ne rid k i (free_index-ge fuel (suc k) rid d)))
        ∙ ap (λ n. Dict.get (name_at rid n) (Dict.del (name_at rid k) d))
            (sym (free_index-del fuel k (suc k) rid d (omega arith)))
        ∙ rest)
]

-- The search for a free run directory always ends with a name that no run of the job has, however
-- many were started in the same second.
pub new_run_dir_is_new :
    (w : World) (job_id rid : String)
    → Dict.get (new_run_dir w job_id rid).0 (runs_of w job_id) ≡ none
unfolding new_run_dir fresh_name
new_run_dir_is_new w job_id rid =
    free_index-absent (suc (length (runs_of w job_id))) 0 rid (runs_of w job_id) (omega arith)
