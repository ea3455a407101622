-- ===== src/Jobs/Registry/Updates/Kept.antt =====
-- `update_job` of src/jobs/config.py: the id never changes, and the chain lists change only in their
-- own block.
use app_launcher_lite.Prelude.{
  String, ◌≡◌, refl, ◌∙◌, false, ◌||◌, none, some, List, [], ◌∷◌, arith, Bool-cases, inl, inr,
}
use app_launcher_lite.Prelude.Json.{Json, Members, lookup, has_key, truth}
use app_launcher_lite.Jobs.Job.{Job, Schedule}
use app_launcher_lite.Jobs.Registry.Checked.{Checked, ok, err}
use app_launcher_lite.Jobs.Registry.Fields.{
  validate_chain_list, validate_cooldown, validate_watchdog_seconds, validate_mutex_group,
  env_from_dict,
}
use app_launcher_lite.Jobs.Registry.Schedules.{schedule_from_dict}
use app_launcher_lite.Jobs.Registry.Params.{params_from_dict, webhook_from_dict}
use app_launcher_lite.Jobs.Registry.Edits.{stamp_schedule_change}
use app_launcher_lite.Jobs.Registry.Python.{Python, text_of}
use app_launcher_lite.Jobs.Registry.Updates.{
  Draft, assign, edit_field, and_then, same_schedule, set_schedule, edit_name, simple_update_fields,
  edit_rows, edit_simple, effective_shape, set_shape, edit_shape, edit_lists,
}

-- The id and the chain lists are those of before.
pub record Kept (a b : Job) : Type 0 where
  pub same_id : b.id ≡ a.id
  pub same_success : b.on_success ≡ a.on_success
  pub same_failure : b.on_failure ≡ a.on_failure

copied :
    (a b : Job) → b.id ≡ a.id → b.on_success ≡ a.on_success → b.on_failure ≡ a.on_failure → Kept a b
copied a b e s f = record { same_id = e; same_success = s; same_failure = f }

same_job : (j : Job) → Kept j j
same_job j = copied j j refl refl refl

assign-Kept {ℓ} :
    {A : Type ℓ} (set : A → Job → Job) (m : Checked A) (j : Job)
    → ((v : A) → Kept j (set v j))
    → Kept j (assign set m j).0
unfolding assign
assign-Kept set (ok v) j h = h v
assign-Kept set (err f) j h = same_job j

edit_field-Kept {ℓ} :
    {A : Type ℓ} (d : Members) (key : String) (parse : Json → Checked A) (set : A → Job → Job)
    (j : Job)
    → ((v : A) → Kept j (set v j))
    → Kept j (edit_field d key parse set j).0
unfolding edit_field
edit_field-Kept d key parse set j h = elim (Bool-cases (has_key key d)) [
  | inl e ↦ rw e (assign-Kept set (parse (lookup key d)) j h)
  | inr e ↦ rw e (same_job j)
]

pub and_then-Kept :
    (job : Job) (x : Draft) (next : Job → Draft)
    → Kept job x.0
    → ((j : Job) → Kept j (next j).0)
    → Kept job (and_then x next).0
unfolding and_then
and_then-Kept job (j, none) next h step =
    let n = step j in
    record {
      same_id = n.same_id ∙ h.same_id;
      same_success = n.same_success ∙ h.same_success;
      same_failure = n.same_failure ∙ h.same_failure;
    }
and_then-Kept job (j, some f) next h step = h

set_schedule-Kept :
    (py : Python) (now : String) (s : Schedule) (j : Job) → Kept j (set_schedule py now s j)
unfolding set_schedule stamp_schedule_change
set_schedule-Kept py now s j = elim (Bool-cases (same_schedule py s j.schedule)) [
  | inl e ↦ rw e (copied _ _ refl refl refl)
  | inr e ↦ rw e (copied _ _ refl refl refl)
]

edit_name-Kept : (py : Python) (d : Members) (j : Job) → Kept j (edit_name py d j).0
unfolding edit_name
edit_name-Kept py d j = elim (Bool-cases (truth (lookup "name" d))) [
  | inl e ↦ rw e (copied _ _ refl refl refl)
  | inr e ↦ rw e (same_job j)
]

-- Every row of the table keeps them.
abbrev AllKept : List (Members → Job → Draft) → Type 0
AllKept [] = Unit
AllKept (row ∷ rows) = ((d : Members) (j : Job) → Kept j (row d j).0) × AllKept rows

edit_rows-Kept :
    (rows : List (Members → Job → Draft)) (d : Members) (job : Job)
    → AllKept rows
    → Kept job (edit_rows rows d job).0
unfolding edit_rows
edit_rows-Kept [] d job h = same_job job
edit_rows-Kept (row ∷ rows) d job h =
    and_then-Kept job (row d job) (edit_rows rows d) (h.0 d job) (λ j. edit_rows-Kept rows d j h.1)

simple_update_fields-AllKept : (py : Python) (now : String) → AllKept (simple_update_fields py now)
unfolding simple_update_fields
simple_update_fields-AllKept py now = (
  edit_name-Kept py,
  (
    λ d j.
        edit_field-Kept d "args" (λ v. ok (text_of py v)) (λ v i. record i { args = v }) j
          (λ v. copied _ _ refl refl refl),
    (
      λ d j.
          edit_field-Kept d "schedule" (schedule_from_dict py) (set_schedule py now) j
            (λ s. set_schedule-Kept py now s j),
      (
        λ d j.
            edit_field-Kept d "params" (params_from_dict py) (λ v i. record i { params = v }) j
              (λ v. copied _ _ refl refl refl),
        (
          λ d j.
              edit_field-Kept d "cooldown_seconds" validate_cooldown
                (λ v i. record i { cooldown_seconds = v }) j (λ v. copied _ _ refl refl refl),
          (
            λ d j.
                edit_field-Kept d "max_runtime_seconds" validate_watchdog_seconds
                  (λ v i. record i { max_runtime_seconds = v }) j (λ v. copied _ _ refl refl refl),
            (
              λ d j.
                  edit_field-Kept d "no_output_seconds" validate_watchdog_seconds
                    (λ v i. record i { no_output_seconds = v }) j (λ v. copied _ _ refl refl refl),
              (
                λ d j.
                    edit_field-Kept d "mutex_group" validate_mutex_group
                      (λ v i. record i { mutex_group = v }) j (λ v. copied _ _ refl refl refl),
                (
                  λ d j.
                      edit_field-Kept d "confirm" (λ v. ok (truth v))
                        (λ v i. record i { confirm = v }) j (λ v. copied _ _ refl refl refl),
                  (
                    λ d j.
                        edit_field-Kept d "alert_on_failure" (λ v. ok (truth v))
                          (λ v i. record i { alert_on_failure = v }) j
                          (λ v. copied _ _ refl refl refl),
                    (
                      λ d j.
                          edit_field-Kept d "visible" (λ v. ok (truth v))
                            (λ v i. record i { visible = v }) j (λ v. copied _ _ refl refl refl),
                      (
                        λ d j.
                            edit_field-Kept d "elevated" (λ v. ok (truth v))
                              (λ v i. record i { elevated = v }) j (λ v. copied _ _ refl refl refl),
                        (
                          λ d j.
                              edit_field-Kept d "webhook" (webhook_from_dict py)
                                (λ v i. record i { webhook = v }) j
                                (λ v. copied _ _ refl refl refl),
                          (
                            λ d j.
                                edit_field-Kept d "env" env_from_dict (λ v i. record i { env = v })
                                  j (λ v. copied _ _ refl refl refl),
                            tt,
                          ),
                        ),
                      ),
                    ),
                  ),
                ),
              ),
            ),
          ),
        ),
      ),
    ),
  ),
)

pub edit_simple-Kept :
    (py : Python) (now : String) (d : Members) (job : Job) → Kept job (edit_simple py now d job).0
unfolding edit_simple
edit_simple-Kept py now d job =
    edit_rows-Kept (simple_update_fields py now) d job (simple_update_fields-AllKept py now)

pub edit_shape-Kept : (py : Python) (d : Members) (j : Job) → Kept j (edit_shape py d j).0
unfolding edit_shape
edit_shape-Kept py d j =
    elim (Bool-cases (has_key "kind" d || has_key "script_path" d || has_key "kind_config" d)) [
      | inl e ↦
          rw e (assign-Kept set_shape (effective_shape py d j) j (λ v. copied _ _ refl refl refl))
      | inr e ↦ rw e (same_job j)
    ]

assign-id {ℓ} :
    {A : Type ℓ} (set : A → Job → Job) (m : Checked A) (j : Job)
    → ((v : A) → (set v j).id ≡ j.id)
    → (assign set m j).0.id ≡ j.id
unfolding assign
assign-id set (ok v) j h = h v
assign-id set (err f) j h = refl

edit_field-id {ℓ} :
    {A : Type ℓ} (d : Members) (key : String) (parse : Json → Checked A) (set : A → Job → Job)
    (j : Job)
    → ((v : A) → (set v j).id ≡ j.id)
    → (edit_field d key parse set j).0.id ≡ j.id
unfolding edit_field
edit_field-id d key parse set j h = elim (Bool-cases (has_key key d)) [
  | inr e ↦ rw e refl
  | inl e ↦ rw e (assign-id set (parse (lookup key d)) j h)
]

and_then-id :
    (x : Draft) (next : Job → Draft)
    → ((j : Job) → (next j).0.id ≡ j.id)
    → (and_then x next).0.id ≡ x.0.id
unfolding and_then
and_then-id (j, none) next step = step j
and_then-id (j, some f) next step = refl

pub edit_lists-id : (d : Members) (j : Job) → (edit_lists d j).0.id ≡ j.id
unfolding edit_lists
edit_lists-id d j =
    and_then-id _ _ (λ k. edit_field-id d "on_failure" validate_chain_list _ k (λ v. refl))
    ∙ edit_field-id d "on_success" validate_chain_list _ j (λ v. refl)

pub no_lists :
    (d : Members) (j : Job)
    → (has_key "on_success" d || has_key "on_failure" d) ≡ false
    → edit_lists d j ≡ (j, none)
unfolding edit_lists and_then edit_field
no_lists d j e =
    let s : has_key "on_success" d ≡ false = ground arith in
    let f : has_key "on_failure" d ≡ false = ground arith in rw (s, f) refl
