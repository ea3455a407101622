-- ===== src/Jobs/Registry/Written/Parts.antt =====
-- The single fields of `Job.to_dict` in src/jobs/config_models.py, as `job_from_dict` reads them.
use app_launcher_lite.Prelude.{
  ℕ, zero, suc, String, ◌==◌, ◌≡◌, refl, sym, ◌∙◌, ap, subst, Bool, true, false, Option, none, some,
  List, [], ◌∷◌, arith, eq_iff, eq_refl, ◌++◌, ◌⊎◌, Bool-cases, inl, inr,
}
use app_launcher_lite.Prelude.Dict.{Dict, get, put, get-append, NodupKeys}
use app_launcher_lite.Prelude.Member.{member, member-append}
use app_launcher_lite.Prelude.Lists.{append_nil, append_assoc}
use app_launcher_lite.Prelude.Json.{Json, Members, end, field, lookup, truth, equals_zero}
use app_launcher_lite.Jobs.Job.{Job, Schedule}
use app_launcher_lite.Jobs.Registry.Checked.{ok}
use app_launcher_lite.Jobs.Registry.Python.{
  Python, strip, str_of, text_of, is_mutex_group, is_env_name,
}
use app_launcher_lite.Jobs.Registry.Fields.{
  validate_cooldown, validate_watchdog_seconds, seconds_up_to, validate_chain_list, chain_entry,
  chain_entries, validate_mutex_group, env_value, env_entries, env_from_dict, kind_config_from_dict,
  max_cooldown_seconds, max_watchdog_seconds,
}
use app_launcher_lite.Jobs.Registry.Schedules.{validate_schedule}
use app_launcher_lite.Jobs.Registry.Schedules.RoundTrip.{
  lookup-add_field, schedule_from_dict-schedule_to_dict,
}
use app_launcher_lite.Jobs.Registry.Rows.{parked_of}
use app_launcher_lite.Jobs.Registry.Rows.Ranges.{InRange, Distinct}
use app_launcher_lite.Jobs.Registry.Written.{
  row_of, text_items, text_members, texts_json, dict_json, config_json, text_json, option_json,
  flag_json, seconds_json, limit_json, parked_json, job_fields, job_to_dict,
}

-- d.get(k), of the pairs of a payload.
unfoldable pub value_or_null : Option Json → Json
value_or_null none = Json.null
value_or_null (some v) = v

pub lookup-row_of :
    (k : String) (d : Dict Json) → NodupKeys d → lookup k (row_of d) ≡ value_or_null (get k d)
unfolding row_of get value_or_null lookup
lookup-row_of k [] h = refl
lookup-row_of k ((j, v) ∷ d) h =
    lookup-add_field k j v (row_of d) (lookup-row_of j d h.1 ∙ ap value_or_null h.0)
    ∙ elim (Bool-cases (j == k)) [ inl e ↦ rw e refl | inr e ↦ rw e (lookup-row_of k d h.1) ]

job_fields-NodupKeys : (j : Job) → NodupKeys (job_fields j)
unfolding job_fields get
job_fields-NodupKeys j = (
  refl,
  (
    refl,
    (
      refl,
      (
        refl,
        (
          refl,
          (
            refl,
            (
              refl,
              (
                refl,
                (
                  refl,
                  (
                    refl,
                    (
                      refl,
                      (
                        refl,
                        (
                          refl,
                          (
                            refl,
                            (
                              refl,
                              (refl, (refl, (refl, (refl, (refl, (refl, (refl, (refl, tt)))))))),
                            ),
                          ),
                        ),
                      ),
                    ),
                  ),
                ),
              ),
            ),
          ),
        ),
      ),
    ),
  ),
)

pub found : (j : Job) (k : String) → lookup k (job_to_dict j) ≡ value_or_null (get k (job_fields j))
unfolding job_to_dict
found j k = lookup-row_of k (job_fields j) (job_fields-NodupKeys j)

pub text_back : (py : Python) (s : String) → text_of py (Json.str s) ≡ s
unfolding text_of truth str_of
text_back py s = elim (Bool-cases (s == "")) [
  | inl e ↦ rw e (sym ((eq_iff s "").0 e))
  | inr e ↦ rw e refl
]

text_none : (py : Python) → text_of py Json.null ≡ ""
unfolding text_of truth
text_none py = refl

pub text_json_back : (py : Python) (s : String) → text_of py (text_json s) ≡ s
unfolding text_json
text_json_back py s = elim (Bool-cases (s == "")) [
  | inl e ↦ rw e (text_none py ∙ sym ((eq_iff s "").0 e))
  | inr e ↦ rw e (text_back py s)
]

pub config_back : (d : Members) → kind_config_from_dict (config_json d) ≡ ok d
unfolding kind_config_from_dict config_json
config_back end = refl
config_back (field k v d) = refl

pub flag_back : (b : Bool) → truth (flag_json b) ≡ b
unfolding truth flag_json
flag_back true = refl
flag_back false = refl

pub cooldown_back :
    (o : Option ℕ) → InRange 1 max_cooldown_seconds o → validate_cooldown (seconds_json o) ≡ ok o
unfolding validate_cooldown seconds_json seconds_up_to equals_zero
cooldown_back none h = refl
cooldown_back (some zero) h = absurd (omega (arith, h.0))
cooldown_back (some (suc n)) h = ground (arith, h.1)

pub limit_back :
    (o : Option ℕ)
    → InRange 0 max_watchdog_seconds o
    → validate_watchdog_seconds (limit_json o) ≡ ok o
unfolding validate_watchdog_seconds limit_json seconds_up_to
limit_back none h = refl
limit_back (some n) h = ground (arith, h.1)

-- No group, or one that passes its pattern.
abbrev pub IsGroup : Option String → Type 0
IsGroup none = Unit
IsGroup (some g) = ((g == "") ≡ false) × (strip g ≡ g) × (is_mutex_group g ≡ true)

pub group_back : (o : Option String) → IsGroup o → validate_mutex_group (option_json o) ≡ ok o
unfolding validate_mutex_group option_json text_json
group_back none h = refl
group_back (some g) (full, same, passes) = rw full (rw same (rw full (rw passes refl)))

abbrev pub AllStripped : List String → Type 0
AllStripped [] = Unit
AllStripped (x ∷ xs) = (strip x ≡ x) × AllStripped xs

entry_back : (x : String) → (x == "") ≡ false → strip x ≡ x → chain_entry (Json.str x) ≡ ok x
unfolding chain_entry
entry_back x full same = rw same (rw full refl)

entries_back :
    (out xs : List String)
    → Distinct xs
    → AllStripped xs
    → ((k : String) → member k xs ≡ true → member k out ≡ false)
    → chain_entries out (text_items xs) ≡ ok (out ++ xs)
unfolding chain_entries text_items member
entries_back out [] h stripped apart = ap (λ l. ok l) (sym (append_nil out))
entries_back out (x ∷ xs) (new, full, later) (same, rest) apart =
    rw (entry_back x full same, apart x (rw (eq_refl x) refl))
      (entries_back (out ++ x ∷ []) xs later rest
          (λ k m. ground (arith, apart k, member-append k out (x ∷ []), eq_iff x k, new))
        ∙ ap (λ l. ok l) (append_assoc out (x ∷ []) xs))

pub chain_back :
    (xs : List String) → Distinct xs → AllStripped xs → validate_chain_list (texts_json xs) ≡ ok xs
unfolding validate_chain_list texts_json member
chain_back [] h stripped = refl
chain_back (x ∷ xs) h stripped = entries_back [] (x ∷ xs) h stripped (λ k m. refl)

-- The day of the schedule, if it has one, is a text in upper case.
abbrev pub DayIsUpper : Python → Schedule → Type 0
DayIsUpper py s = (d : String) → s.day ≡ some d → ((d == "") ≡ false) × (py.upper d ≡ d)

abbrev pub IsParked : Python → Option Schedule → Type 0
IsParked py none = Unit
IsParked py (some s) = (validate_schedule py s ≡ ok tt) × DayIsUpper py s

pub parked_back :
    (py : Python) (o : Option Schedule) → IsParked py o → parked_of py (parked_json o) ≡ ok o
unfolding parked_of parked_json
parked_back py none h = refl
parked_back py (some s) (valid, day) = rw (schedule_from_dict-schedule_to_dict py s valid day) refl

-- Every name of the overlay passes the pattern.
abbrev pub AllEnvNames : Dict String → Type 0
AllEnvNames [] = Unit
AllEnvNames ((k, v) ∷ d) = (is_env_name k ≡ true) × AllEnvNames d

pub put_absent : (k v : String) (d : Dict String) → get k d ≡ none → put k v d ≡ d ++ (k, v) ∷ []
unfolding get put
put_absent k v [] h = refl
put_absent k v ((j, w) ∷ d) h = ground (arith, put_absent k v d)

pub moved :
    (i k v : String) (out d : Dict String)
    → get k d ≡ none
    → get i ((k, v) ∷ d) ≡ none ⊎ (get i out ≡ none)
    → get i d ≡ none ⊎ (get i (out ++ (k, v) ∷ []) ≡ none)
unfolding get
moved i k v out d new apart = elim (Bool-cases (k == i)) [
  | inl e ↦ inl (subst (λ j. get j d ≡ none) ((eq_iff k i).0 e) new)
  | inr e ↦ ground (arith, apart, e, get-append i out ((k, v) ∷ []))
]

variables_back :
    (out d : Dict String)
    → NodupKeys d
    → AllEnvNames d
    → ((k : String) → get k d ≡ none ⊎ (get k out ≡ none))
    → env_entries out (text_members d) ≡ ok (out ++ d)
unfolding env_entries env_value text_members get
variables_back out [] h names apart = ap (λ l. ok l) (sym (append_nil out))
variables_back out ((k, v) ∷ d) (new, later) (passes, rest) apart =
    let here : get k out ≡ none = ground (arith, apart k, eq_refl k) in
    let longer : Dict String = out ++ (k, v) ∷ [] in
    rw passes (
      rw (put_absent k v out here) (
        variables_back longer d later rest (λ i. moved i k v out d new (apart i))
        ∙ ap (λ l. ok l) (append_assoc out ((k, v) ∷ []) d)))

pub env_back : (d : Dict String) → NodupKeys d → AllEnvNames d → env_from_dict (dict_json d) ≡ ok d
unfolding env_from_dict dict_json get
env_back [] h names = refl
env_back (e ∷ d) h names = variables_back [] (e ∷ d) h names (λ k. inr refl)
