-- ===== src/Jobs/Coverage/Verdicts.antt =====
-- What `coverage_for` of src/jobs/coverage.py says, against the lists that it is made from.
use app_launcher_lite.Prelude.{
  ℕ, eqb, length, String, ◌==◌, ◌≡◌, refl, ◌∙◌, ap, Bool, true, false, not, ◌&&◌, ◌||◌, inl, inr,
  Bool-cases, Option, none, some, is_some, List, [], ◌∷◌, eq_iff, if◌then◌else◌, arith,
}
use app_launcher_lite.Prelude.Dict
use app_launcher_lite.Prelude.Dict.{Dict}
use app_launcher_lite.Prelude.Member.{member}
use app_launcher_lite.Jobs.Record.{Run}
use app_launcher_lite.Jobs.Job.{Job}
use app_launcher_lite.Jobs.Registry.Edits.{is_paused}
use app_launcher_lite.Jobs.Schtasks.State.{Coverage, CoverageState, problem, unknown, exempt}
use app_launcher_lite.Jobs.Schtasks.Fires.{Readers}
use app_launcher_lite.Jobs.Schtasks.Tasks.{Install, task_names_for}
use app_launcher_lite.Jobs.Coverage.{
  missed_fires, result, missing_names, disabled_names, is_off, missing_in, disabled_in, any_in,
  verdict_of, coverage_for,
}

-- The query answered, and the task is not among the registered ones; or it is there, and disabled.
abbrev pub is_absent : Option (Dict (Option Bool)) → String → Bool
is_absent none n = false
is_absent (some d) n = not (is_some (Dict.get n d))

abbrev pub is_disabled : Option (Dict (Option Bool)) → String → Bool
is_disabled none n = false
is_disabled (some d) n = is_off (Dict.get n d)

member-missing_names :
    (d : Dict (Option Bool)) (n : String) (names : List String)
    → member n (missing_names d names) ≡ (member n names && not (is_some (Dict.get n d)))
unfolding member missing_names
member-missing_names d n [] = refl
member-missing_names d n (m ∷ names) = elim (Bool-cases (m == n)) [
  | inl same ↦
      let e : Dict.get m d ≡ Dict.get n d = ap (λ k. Dict.get k d) ((eq_iff m n).0 same) in
      ground (arith, member-missing_names d n names, ap is_some e)
  | inr differs ↦ ground (arith, member-missing_names d n names)
]

member-disabled_names :
    (d : Dict (Option Bool)) (n : String) (names : List String)
    → member n (disabled_names d names) ≡ (member n names && is_off (Dict.get n d))
unfolding member disabled_names
member-disabled_names d n [] = refl
member-disabled_names d n (m ∷ names) = elim (Bool-cases (m == n)) [
  | inl same ↦
      let e : is_off (Dict.get m d) ≡ is_off (Dict.get n d) =
        ap (λ k. is_off (Dict.get k d)) ((eq_iff m n).0 same) in
      ground (arith, member-disabled_names d n names, e)
  | inr differs ↦ ground (arith, member-disabled_names d n names)
]

member-missing_in :
    (o : Option (Dict (Option Bool))) (n : String) (names : List String)
    → member n (missing_in o names) ≡ (member n names && is_absent o n)
unfolding member
member-missing_in none n names = ground arith
member-missing_in (some d) n names = member-missing_names d n names

member-disabled_in :
    (o : Option (Dict (Option Bool))) (n : String) (names : List String)
    → member n (disabled_in o names) ≡ (member n names && is_disabled o n)
unfolding member
member-disabled_in none n names = ground arith
member-disabled_in (some d) n names = member-disabled_names d n names

abbrev pub is_exempt : CoverageState → Bool
is_exempt exempt = true
is_exempt _ = false

abbrev pub is_problem : CoverageState → Bool
is_problem problem = true
is_problem _ = false

abbrev pub is_unknown : CoverageState → Bool
is_unknown unknown = true
is_unknown _ = false

-- What a verdict says of the job, and of the task `n`, for a job that is active or not, from the
-- three lists, and whether the query answered.
record Says (active answered : Bool) (missing disabled : List String) (missed : List ℕ) (n : String)
    (c : Coverage) : Type 0 where
  pub exempted : is_exempt c.state ≡ not active
  pub flagged :
      is_problem c.state
      ≡ (any_in c.missing_tasks || any_in c.disabled_tasks || not (eqb c.missed_count 0))
  pub unsettled :
      is_unknown c.state
      ≡ (active && not answered && not (any_in missing || any_in disabled || any_in missed))
  pub listed : member n c.missing_tasks ≡ (active && member n missing)
  pub off : member n c.disabled_tasks ≡ (active && member n disabled)
  pub counted : c.missed_count ≡ (if active then length missed else 0)

verdict_of-Says :
    (answered : Bool) (missing disabled : List String) (missed : List ℕ) (n : String)
    → Says true answered missing disabled missed n (verdict_of answered missing disabled missed)
unfolding verdict_of result member
verdict_of-Says true [] [] [] n = record {
  exempted = refl;
  flagged = refl;
  unsettled = refl;
  listed = refl;
  off = refl;
  counted = refl;
}
verdict_of-Says false [] [] [] n = record {
  exempted = refl;
  flagged = refl;
  unsettled = refl;
  listed = refl;
  off = refl;
  counted = refl;
}
verdict_of-Says answered [] [] (t ∷ l) n = record {
  exempted = refl;
  flagged = ground arith;
  unsettled = ground arith;
  listed = refl;
  off = refl;
  counted = refl;
}
verdict_of-Says answered [] (d ∷ ds) l n = record {
  exempted = refl;
  flagged = ground arith;
  unsettled = ground arith;
  listed = refl;
  off = refl;
  counted = refl;
}
verdict_of-Says answered (m ∷ ms) ds l n = record {
  exempted = refl;
  flagged = ground arith;
  unsettled = ground arith;
  listed = refl;
  off = refl;
  counted = refl;
}

exempt-Says :
    (answered : Bool) (missing disabled : List String) (missed : List ℕ) (n : String)
    → Says false answered missing disabled missed n (result exempt [] [] [] [])
unfolding result member
exempt-Says answered missing disabled missed n = record {
  exempted = refl;
  flagged = refl;
  unsettled = refl;
  listed = refl;
  off = refl;
  counted = refl;
}

no_fires : (missed : List ℕ) → not (any_in missed) ≡ eqb (length missed) 0
no_fires [] = refl
no_fires (t ∷ l) = ground arith

-- A failed query leaves both lists of tasks empty.
unanswered :
    (active : Bool) (states : Option (Dict (Option Bool))) (names : List String) (missed : List ℕ)
    → (active
        && not (is_some states)
        && not (
            any_in (missing_in states names) || any_in (disabled_in states names) || any_in missed))
      ≡ (active && not (is_some states) && eqb (length missed) 0)
unanswered active none names missed = ap (λ b. active && true && b) (no_fires missed)
unanswered active (some d) names missed = ground arith

coverage_for-Says :
    (r : Readers) (i : Install) (job : Job) (states : Option (Dict (Option Bool))) (now : ℕ)
    (runs : List Run) (n : String)
    → Says
        (not (is_paused job || (job.schedule.type == "none")))
        (is_some states)
        (missing_in states (task_names_for i job))
        (disabled_in states (task_names_for i job))
        (missed_fires r job now runs)
        n
        (coverage_for r i job states now runs)
unfolding coverage_for
coverage_for-Says r i job states now runs n = go (is_paused job || (job.schedule.type == "none"))
  where
    go :
        (idle : Bool)
        → Says
            (not idle)
            (is_some states)
            (missing_in states (task_names_for i job))
            (disabled_in states (task_names_for i job))
            (missed_fires r job now runs)
            n
            (if idle
              then result exempt [] [] [] []
              else verdict_of
                  (is_some states)
                  (missing_in states (task_names_for i job))
                  (disabled_in states (task_names_for i job))
                  (missed_fires r job now runs))
    go true = exempt-Says _ _ _ _ n
    go false = verdict_of-Says _ _ _ _ n

-- The verdict on a job is exempt exactly if it is paused or has no schedule. Else it lists as
-- missing those of its task names that an answered query has not, as disabled those that it has as
-- disabled, and counts the missed fires; it is a problem exactly if one of the three is not empty,
-- and unknown exactly if the query failed and no fire was missed.
pub coverage_for_lem :
    (r : Readers) (i : Install) (job : Job) (states : Option (Dict (Option Bool))) (now : ℕ)
    (runs : List Run) (n : String)
    → let c = coverage_for r i job states now runs in
      let active = not (is_paused job || (job.schedule.type == "none")) in
      let named = active && member n (task_names_for i job) in
      (is_exempt c.state ≡ not active)
      × (member n c.missing_tasks ≡ (named && is_absent states n))
      × (member n c.disabled_tasks ≡ (named && is_disabled states n))
      × (c.missed_count ≡ (if active then length (missed_fires r job now runs) else 0))
      × (is_problem c.state
          ≡ (any_in c.missing_tasks || any_in c.disabled_tasks || not (eqb c.missed_count 0)))
      × (is_unknown c.state
          ≡ (active && not (is_some states) && eqb (length (missed_fires r job now runs)) 0))
coverage_for_lem r i job states now runs n =
    let names = task_names_for i job in
    let missed = missed_fires r job now runs in
    let said = coverage_for-Says r i job states now runs n in
    (
      said.exempted,
      ground (arith, said.listed, member-missing_in states n names),
      ground (arith, said.off, member-disabled_in states n names),
      said.counted,
      said.flagged,
      said.unsettled
          ∙ unanswered (not (is_paused job || (job.schedule.type == "none"))) states names missed,
    )
