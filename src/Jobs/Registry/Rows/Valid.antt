-- ===== src/Jobs/Registry/Rows/Valid.antt =====
-- What every job has that `job_from_dict` of src/jobs/config_models.py builds.
use app_launcher_lite.Prelude.{
  ℕ, String, ◌==◌, ◌≡◌, refl, sym, ◌∙◌, ap, subst, Bool, true, false, not, Option, List,
}
use app_launcher_lite.Prelude.Member.{member}
use app_launcher_lite.Prelude.Dict.{Dict}
use app_launcher_lite.Prelude.Json.{Json, Members, lookup}
use app_launcher_lite.Jobs.Job.{Job, Schedule, Param, WebhookConfig, no_schedule}
use app_launcher_lite.Jobs.Registry.Checked.{ok, need, >>=-ok, need-true, ok-injective}
use app_launcher_lite.Jobs.Registry.Python.{Python, strip, text_of}
use app_launcher_lite.Jobs.Registry.Fields.{
  validate_cooldown, validate_watchdog_seconds, validate_chain_list, validate_kind_shape,
  kind_config_from_dict, validate_mutex_group, max_cooldown_seconds, max_watchdog_seconds,
}
use app_launcher_lite.Jobs.Registry.Schedules.{
  validate_schedule, checked_schedule, schedule_from_dict, schedule_of,
}
use app_launcher_lite.Jobs.Registry.Params.{params_from_dict}
use app_launcher_lite.Jobs.Registry.Rows.Ranges.{
  InRange, Distinct, validate_cooldown-InRange, validate_watchdog_seconds-InRange,
  validate_chain_list-Distinct,
}
use app_launcher_lite.Jobs.Registry.Rows.{
  read_shape, read_timing, read_chains, read_extras, read_limits, named_job, built_job,
  job_from_dict,
}

none_valid : (py : Python) → validate_schedule py no_schedule ≡ ok tt
unfolding validate_schedule member
none_valid py = refl

checked_schedule-valid :
    (py : Python) (s t : Schedule) → checked_schedule py s ≡ ok t → validate_schedule py t ≡ ok tt
unfolding checked_schedule
checked_schedule-valid py s t e =
    let (u, valid, rest) = >>=-ok (validate_schedule py s) _ e in
    ap (validate_schedule py) (sym (ok-injective s t rest)) ∙ valid

pub schedule_from_dict-valid :
    (py : Python) (raw : Json) (s : Schedule)
    → schedule_from_dict py raw ≡ ok s
    → validate_schedule py s ≡ ok tt
unfolding schedule_from_dict
schedule_from_dict-valid py Json.null s e =
    ap (validate_schedule py) (sym (ok-injective no_schedule s e)) ∙ none_valid py
schedule_from_dict-valid py (Json.object d) s e = checked_schedule-valid py (schedule_of py d) s e
schedule_from_dict-valid py (Json.int n) s e = absurd (cc e)
schedule_from_dict-valid py (Json.bool b) s e = absurd (cc e)
schedule_from_dict-valid py (Json.real r) s e = absurd (cc e)
schedule_from_dict-valid py (Json.str t) s e = absurd (cc e)
schedule_from_dict-valid py (Json.array xs) s e = absurd (cc e)

-- What the executor, the scheduler and the chains rely on.
pub record WellFormed (py : Python) (j : Job) : Type 0 where
  pub named : ((j.id == "") ≡ false) × ((j.name == "") ≡ false)
  pub shaped : validate_kind_shape py j.kind j.script_path j.kind_config ≡ ok tt
  pub scheduled : validate_schedule py j.schedule ≡ ok tt
  pub cooled : InRange 1 max_cooldown_seconds j.cooldown_seconds
  pub watched :
      InRange 0 max_watchdog_seconds j.max_runtime_seconds
      × InRange 0 max_watchdog_seconds j.no_output_seconds
  pub chained : Distinct j.on_success × Distinct j.on_failure

not-false : (b : Bool) → not b ≡ true → b ≡ false
not-false true e = cc e
not-false false e = refl

abbrev Shaped : Python → String × String × Members → Type 0
Shaped py t = validate_kind_shape py t.0 t.1 t.2 ≡ ok tt

read_shape-Shaped :
    (py : Python) (d : Members) (t : String × String × Members)
    → read_shape py d ≡ ok t
    → Shaped py t
unfolding read_shape
read_shape-Shaped py d t e =
    let k = strip (text_of py (lookup "kind" d)) in
    let s = strip (text_of py (lookup "script_path" d)) in
    let (c, c0, e1) = >>=-ok (kind_config_from_dict (lookup "kind_config" d)) _ e in
    let (u, shape, e2) = >>=-ok (validate_kind_shape py k s c) _ e1 in
    subst (Shaped py) (ok-injective (k, s, c) t e2) shape

-- The fields that are read together are good.
abbrev Timed : Python → Schedule × List Param × Option ℕ × Option String → Type 0
Timed py t = (validate_schedule py t.0 ≡ ok tt) × InRange 1 max_cooldown_seconds t.2

read_timing-Timed :
    (py : Python) (d : Members) (t : Schedule × List Param × Option ℕ × Option String)
    → read_timing py d ≡ ok t
    → Timed py t
unfolding read_timing
read_timing-Timed py d t e =
    let (s, sched, e1) = >>=-ok (schedule_from_dict py (lookup "schedule" d)) _ e in
    let (params, c1, e2) = >>=-ok (params_from_dict py (lookup "params" d)) _ e1 in
    let (n, cool, e3) = >>=-ok (validate_cooldown (lookup "cooldown_seconds" d)) _ e2 in
    let (group, c3, e4) = >>=-ok (validate_mutex_group (lookup "mutex_group" d)) _ e3 in
    subst (Timed py) (ok-injective (s, params, n, group) t e4) (
      schedule_from_dict-valid py (lookup "schedule" d) s sched,
      validate_cooldown-InRange (lookup "cooldown_seconds" d) n cool,
    )

abbrev BothDistinct : List String × List String → Type 0
BothDistinct t = Distinct t.0 × Distinct t.1

read_chains-Distinct :
    (d : Members) (t : List String × List String) → read_chains d ≡ ok t → BothDistinct t
unfolding read_chains
read_chains-Distinct d t e =
    let (s, succ, e1) = >>=-ok (validate_chain_list (lookup "on_success" d)) _ e in
    let (f, fail, e2) = >>=-ok (validate_chain_list (lookup "on_failure" d)) _ e1 in
    subst BothDistinct (ok-injective (s, f) t e2) (
      validate_chain_list-Distinct (lookup "on_success" d) s succ,
      validate_chain_list-Distinct (lookup "on_failure" d) f fail,
    )

abbrev BothInRange : Option ℕ × Option ℕ → Type 0
BothInRange t = InRange 0 max_watchdog_seconds t.0 × InRange 0 max_watchdog_seconds t.1

read_limits-InRange : (d : Members) (t : Option ℕ × Option ℕ) → read_limits d ≡ ok t → BothInRange t
unfolding read_limits
read_limits-InRange d t e =
    let (m, runtime, e1) =
      >>=-ok (validate_watchdog_seconds (lookup "max_runtime_seconds" d)) _ e in
    let (n, output, e2) = >>=-ok (validate_watchdog_seconds (lookup "no_output_seconds" d)) _ e1 in
    subst BothInRange (ok-injective (m, n) t e2) (
      validate_watchdog_seconds-InRange (lookup "max_runtime_seconds" d) m runtime,
      validate_watchdog_seconds-InRange (lookup "no_output_seconds" d) n output,
    )

named_job-same :
    (job j : Job)
    → named_job job ≡ ok j
    → (job ≡ j) × ((job.id == "") ≡ false) × ((job.name == "") ≡ false)
unfolding named_job
named_job-same job j e =
    let (u, i, e1) = >>=-ok (need (not (job.id == "")) "job id is required") _ e in
    let (v, n, e2) = >>=-ok (need (not (job.name == "")) "job name is required") _ e1 in
    (
      ok-injective job j e2,
      not-false (job.id == "") (need-true _ _ i),
      not-false (job.name == "") (need-true _ _ n),
    )

built_job-WellFormed :
    (py : Python) (d : Members) (shape : String × String × Members)
    (timing : Schedule × List Param × Option ℕ × Option String) (chains : List String × List String)
    (extras : Option Schedule × Option WebhookConfig × Dict String) (limits : Option ℕ × Option ℕ)
    → Shaped py shape
    → Timed py timing
    → BothDistinct chains
    → BothInRange limits
    → let job = built_job py d shape timing chains extras limits in
      (job.id == "") ≡ false → (job.name == "") ≡ false → WellFormed py job
unfolding built_job
built_job-WellFormed py d shape timing chains extras limits shaped timed distinct ranges i n =
    record {
      named = (i, n);
      shaped = shaped;
      scheduled = timed.0;
      cooled = timed.1;
      watched = ranges;
      chained = distinct;
    }

-- Every job that job_from_dict builds from a row has an id and a name, a kind with what it needs,
-- a schedule that its type allows, a cool-down of 1 to 86400 seconds if any, watchdog limits of at
-- most a week if any, and chain lists without empty or repeated ids.
pub job_from_dict-WellFormed :
    (py : Python) (d : Members) (j : Job) → job_from_dict py d ≡ ok j → WellFormed py j
unfolding job_from_dict
job_from_dict-WellFormed py d j e =
    let (shape, shapes, e1) = >>=-ok (read_shape py d) _ e in
    let (timing, times, e2) = >>=-ok (read_timing py d) _ e1 in
    let (chains, lists, e3) = >>=-ok (read_chains d) _ e2 in
    let (extras, c3, e4) = >>=-ok (read_extras py d) _ e3 in
    let (limits, seconds, e5) = >>=-ok (read_limits d) _ e4 in
    let named = named_job-same (built_job py d shape timing chains extras limits) j e5 in
    subst (WellFormed py) named.0 (
      built_job-WellFormed py d shape timing chains extras limits
        (read_shape-Shaped py d shape shapes) (read_timing-Timed py d timing times)
        (read_chains-Distinct d chains lists) (read_limits-InRange d limits seconds) named.1
        named.2)
