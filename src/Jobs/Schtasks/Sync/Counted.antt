-- ===== src/Jobs/Schtasks/Sync/Counted.antt =====
-- A checked schedule has as many `/SC` portions as tasks, by src/jobs/schtasks.py.
use app_launcher_lite.Prelude.{
  ℕ, suc, length, String, ◌==◌, ◌≡◌, ◌⊎◌, refl, sym, ap, ◌∙◌, true, false, List, [], ◌∷◌, eq_iff,
  inl, inr, Bool-cases, arith,
}
use app_launcher_lite.Prelude.Json.{Json, Items, nil, cons}
use app_launcher_lite.Prelude.Member.{member}
use app_launcher_lite.Jobs.Job.{Job}
use app_launcher_lite.Jobs.Registry.Checked.{Checked, ok, err, ◌>>=◌, need-true, ok-injective}
use app_launcher_lite.Jobs.Registry.Python.{Python, str_of}
use app_launcher_lite.Jobs.Registry.Schedules.{
  validate_schedule, is_times, is_moment, schedule_types,
}
use app_launcher_lite.Jobs.Schtasks.Tasks.{
  slot_names, daily_parts, moment_parts, once_schtasks_parts, names_at, times_parts, base_name,
  Install, task_names_for, day_text, schedule_argv_parts,
}

-- A checked schedule that is not `none` has one `/SC` portion for each of its tasks.
length-times :
    (py : Python) (base : String) (n : ℕ) (times : Items)
    → length (slot_names base n times) ≡ length (daily_parts py times)
unfolding slot_names daily_parts
length-times py base n nil = refl
length-times py base n (cons t rest) = ap suc (length-times py base (suc n) rest)

member_one :
    (k x : String) (xs : List String) → member k (x ∷ xs) ≡ true → (x ≡ k) ⊎ (member k xs ≡ true)
unfolding member
member_one k x xs e = elim (Bool-cases (x == k)) [
  | inl same ↦ inl ((eq_iff x k).0 same)
  | inr differs ↦ inr (ground arith)
]

no_member : (k : String) → member k [] ≡ true → ⊥
unfolding member
no_member k e = cc

one_part :
    (x : List String) (parts : List (List String)) → ok (x ∷ []) ≡ ok parts → 1 ≡ length parts
one_part x parts e = ap length (ok-injective (x ∷ []) parts e)

times_counted :
    (py : Python) (base : String) (at : Json) (parts : List (List String))
    → is_times py at ≡ true
    → times_parts py at ≡ ok parts
    → length (names_at base at) ≡ length parts
unfolding is_times
times_counted py base (Json.array times) parts valid e =
    length-times py base 1 times ∙ ap length (ok-injective (daily_parts py times) parts e)
times_counted py base Json.null parts valid e = absurd (cc valid)
times_counted py base (Json.bool b) parts valid e = absurd (cc valid)
times_counted py base (Json.int n) parts valid e = absurd (cc valid)
times_counted py base (Json.real x) parts valid e = absurd (cc valid)
times_counted py base (Json.str s) parts valid e = absurd (cc valid)
times_counted py base (Json.object d) parts valid e = absurd (cc valid)

moment_counted :
    (py : Python) (at : Json) (parts : List (List String))
    → is_moment py at ≡ true
    → moment_parts at ≡ ok parts
    → 1 ≡ length parts
unfolding is_moment moment_parts
moment_counted py (Json.str s) parts valid e = go (once_schtasks_parts s) e
  where
    go : (o : Checked (List String)) → (o >>= λ l. ok (l ∷ [])) ≡ ok parts → 1 ≡ length parts
    go (ok l) f = one_part l parts f
    go (err x) f = absurd (cc f)
moment_counted py Json.null parts valid e = absurd (cc valid)
moment_counted py (Json.bool b) parts valid e = absurd (cc valid)
moment_counted py (Json.int n) parts valid e = absurd (cc valid)
moment_counted py (Json.real x) parts valid e = absurd (cc valid)
moment_counted py (Json.array xs) parts valid e = absurd (cc valid)
moment_counted py (Json.object d) parts valid e = absurd (cc valid)

module _ (i : Install) (py : Python) (job : Job) (parts : List (List String))
    (valid : validate_schedule py job.schedule ≡ ok tt)
    (scheduled : (job.schedule.type == "none") ≡ false)
    (e : schedule_argv_parts py job.schedule ≡ ok parts) where
  abbrev pub Counted : Type 0
  Counted = length (task_names_for i job) ≡ length parts

  of_times : job.schedule.type ≡ "daily_times" → Counted
  unfolding task_names_for schedule_argv_parts validate_schedule member
  of_times q = rw q (
      times_counted py (base_name i job.id) job.schedule.at parts
        (need-true (is_times py job.schedule.at) _ (rw q at valid)) (rw q at e))

  of_one :
      (x : List String)
      → (job.schedule.type == "daily_times") ≡ false
      → schedule_argv_parts py job.schedule ≡ ok (x ∷ [])
      → Counted
  unfolding task_names_for
  of_one x single f = rw single (one_part x parts (sym f ∙ e))

  of_once : job.schedule.type ≡ "once" → Counted
  unfolding task_names_for schedule_argv_parts validate_schedule member
  of_once q = rw q (
      moment_counted py job.schedule.at parts
        (need-true (is_moment py job.schedule.at) _ (rw q at valid)) (rw q at e))

  known_type : member job.schedule.type schedule_types ≡ true
  unfolding validate_schedule
  known_type = ground arith

  pub length-task_names_for : Counted
  unfolding schedule_argv_parts
  length-task_names_for = elim (member_one job.schedule.type _ _ known_type) [
    | inl q ↦ absurd (cc (scheduled, (eq_iff _ _).1 (sym q)))
    | inr rest ↦ elim (member_one job.schedule.type _ _ rest) [
      | inl q ↦
          of_one ("/SC" ∷ "MINUTE" ∷ "/MO" ∷ str_of py job.schedule.every ∷ []) (rw (sym q) refl)
            (rw (sym q) refl)
      | inr rest ↦ elim (member_one job.schedule.type _ _ rest) [
        | inl q ↦
            of_one ("/SC" ∷ "HOURLY" ∷ "/MO" ∷ str_of py job.schedule.every ∷ []) (rw (sym q) refl)
              (rw (sym q) refl)
        | inr rest ↦ elim (member_one job.schedule.type _ _ rest) [
          | inl q ↦
              of_one ("/SC" ∷ "DAILY" ∷ "/ST" ∷ str_of py job.schedule.at ∷ []) (rw (sym q) refl)
                (rw (sym q) refl)
          | inr rest ↦ elim (member_one job.schedule.type _ _ rest) [
            | inl q ↦ of_times (sym q)
            | inr rest ↦ elim (member_one job.schedule.type _ _ rest) [
              | inl q ↦
                  of_one
                    ("/SC"
                      ∷ "WEEKLY"
                      ∷ "/D"
                      ∷ day_text job.schedule.day
                      ∷ "/ST"
                      ∷ str_of py job.schedule.at
                      ∷ [])
                    (rw (sym q) refl) (rw (sym q) refl)
              | inr rest ↦ elim (member_one job.schedule.type _ _ rest) [
                | inl q ↦ of_once (sym q)
                | inr rest ↦ absurd (no_member _ rest)
              ]
            ]
          ]
        ]
      ]
    ]
  ]
