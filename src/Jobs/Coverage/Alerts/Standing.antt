-- ===== src/Jobs/Coverage/Alerts/Standing.antt =====
-- How often a standing problem is alerted on, by `check_and_alert` of src/jobs/coverage.py.
use app_launcher_lite.Prelude.{
  ℕ, String, ◌≡◌, refl, ap, ◌∙◌, Bool, true, false, not, inl, inr, Bool-cases, Option, none, some,
  List, [], ◌∷◌, eq_refl, if◌then◌else◌, arith,
}
use app_launcher_lite.Prelude.Dict
use app_launcher_lite.Prelude.Dict.{Dict, get-put, get-del_ne}
use app_launcher_lite.Prelude.Member.{member}
use app_launcher_lite.Jobs.Job.{Job}
use app_launcher_lite.Jobs.Executor.{NotifyConfig}
use app_launcher_lite.Jobs.Registry.{ids, UniqueIds}
use app_launcher_lite.Jobs.Schtasks.State.{Coverage}
use app_launcher_lite.Jobs.Coverage.Alerts.{
  AlertEntry, Checks, Round, signature_of, in_problem, same_signature, within_repeat,
  entry_or_empty, is_recent, alert_entry, check_each, written,
}
use app_launcher_lite.Jobs.Coverage.Alerts.Step.{names_job, problem_job, problem_marks}

-- One pass of the checks: what the clocks say, what the scan found, and whether the file is written.
pub record Pass : Type 0 where
  pub round : Round
  pub results : Dict Coverage
  pub can_write : Bool

-- The wall clock of each pass that alerts on the job.
unfoldable pub alert_times : NotifyConfig → List Job → String → Dict AlertEntry → List Pass → List ℕ
unfolding check_each written
alert_times cfg jobs id file [] = []
alert_times cfg jobs id file (p ∷ ps) =
    let c = check_each cfg p.round p.results jobs file false in
    let rest = alert_times cfg jobs id (written p.can_write file c) ps in
    if names_job id c.alerted then p.round.wall ∷ rest else rest

-- The scan of the pass found a problem of the job with this signature; what is sent is delivered,
-- and the file is written.
pub record StandsIn (id signature : String) (p : Pass) : Type 0 where
  pub coverage : Coverage
  pub found : Dict.get id p.results ≡ some coverage
  pub broken : in_problem coverage.state ≡ true
  pub signed : signature_of coverage ≡ signature
  pub delivered : (j : String) → p.round.delivers j ≡ true
  pub stored : p.can_write ≡ true

abbrev pub Standing : String → String → List Pass → Type 0
Standing id signature [] = Unit {0}
Standing id signature (p ∷ ps) = StandsIn id signature p × Standing id signature ps

-- The first pass, and then each first pass that is at least a day after the last one taken.
unfoldable pub daily_pings : Option ℕ → List Pass → List ℕ
daily_pings last [] = []
daily_pings last (p ∷ ps) =
    let wait = daily_pings last ps in
    let ping = p.round.wall ∷ daily_pings (some p.round.wall) ps in
    if within_repeat last p.round.wall then wait else ping

-- The last alert on this very problem that the file holds.
abbrev pub last_alert : Option AlertEntry → String → Option ℕ
last_alert none signature = none
last_alert (some e) signature =
    if same_signature e.signature signature then e.last_alert_epoch else none

recent-last_alert :
    (prior : Option AlertEntry) (signature : String) (wall : ℕ)
    → is_recent (entry_or_empty prior) signature wall
      ≡ within_repeat (last_alert prior signature) wall
unfolding is_recent
recent-last_alert none signature wall = refl
recent-last_alert (some e) signature wall =
    elim (Bool-cases (same_signature e.signature signature)) [
      | inl same ↦ rw same refl
      | inr differs ↦ rw differs refl
    ]

last_alert-alert_entry :
    (prior : Option AlertEntry) (signature : String) (wall stamp : ℕ)
    → let recent = is_recent (entry_or_empty prior) signature wall in
      last_alert (some (alert_entry recent (entry_or_empty prior) signature wall stamp)) signature
      ≡ (if recent then last_alert prior signature else some wall)
unfolding is_recent alert_entry
last_alert-alert_entry none signature wall stamp = rw (eq_refl signature) refl
last_alert-alert_entry (some e) signature wall stamp =
    rw (eq_refl signature) (elim (Bool-cases (same_signature e.signature signature)) [
      | inl same ↦ rw same refl
      | inr differs ↦ rw differs refl
    ])

ping_or_wait :
    (alerted waits : Bool) (last : Option ℕ) (wall : ℕ) (ps : List Pass) (rest : List ℕ)
    → alerted ≡ not waits
    → rest ≡ daily_pings (if waits then last else some wall) ps
    → (if alerted then wall ∷ rest else rest)
      ≡ (if waits then daily_pings last ps else wall ∷ daily_pings (some wall) ps)
ping_or_wait false true last wall ps rest p q = q
ping_or_wait true true last wall ps rest p q = cc
ping_or_wait false false last wall ps rest p q = cc
ping_or_wait true false last wall ps rest p q = ap (λ l. wall ∷ l) q

written-state :
    (can_write : Bool) (file : Dict AlertEntry) (c : Checks)
    → c.completed ≡ true
    → c.dirty ≡ true
    → can_write ≡ true
    → written can_write file c ≡ c.state
unfolding written
written-state can_write file c e d w = ground arith

-- For a registered job in a registry with unique ids, when every pass finds it with a problem of
-- one signature, every notification is delivered and every write of the file succeeds: the passes
-- that alert on it are the first one and then each first one that is at least a day after the last
-- alert, counted from the file's last alert on that signature, whatever the other jobs do.
pub alert_times-daily_pings :
    (cfg : NotifyConfig) (jobs : List Job) (id signature : String) (file : Dict AlertEntry)
    (passes : List Pass)
    → UniqueIds jobs
    → member id (ids jobs) ≡ true
    → Standing id signature passes
    → alert_times cfg jobs id file passes
      ≡ daily_pings (last_alert (Dict.get id file) signature) passes
unfolding alert_times daily_pings
alert_times-daily_pings cfg jobs id signature file [] u m h = refl
alert_times-daily_pings cfg jobs id signature file (p ∷ ps) u m h =
    let s = h.0 in
    let prior = Dict.get id file in
    let checks = check_each cfg p.round p.results jobs file false in
    let does =
      problem_job cfg p.round p.results id s.delivered s.coverage s.found s.broken jobs file false u
        m in
    let marks =
      problem_marks cfg p.round p.results id s.delivered s.coverage s.found s.broken jobs file false
        m in
    let waits =
      ap (λ k. is_recent (entry_or_empty prior) k p.round.wall) s.signed
      ∙ recent-last_alert prior signature p.round.wall in
    let entry = λ (k : String). some (
      alert_entry (is_recent (entry_or_empty prior) k p.round.wall) (entry_or_empty prior) k
        p.round.wall p.round.stamp) in
    let left : Dict.get id checks.state ≡ entry signature = does.left ∙ ap entry s.signed in
    let last =
      ap (λ o. last_alert o signature) left
      ∙ last_alert-alert_entry prior signature p.round.wall p.round.stamp
      ∙ ap (λ b. if b then last_alert prior signature else some p.round.wall)
          (recent-last_alert prior signature p.round.wall) in
    ping_or_wait (names_job id checks.alerted) _ (last_alert prior signature) p.round.wall ps
      (alert_times cfg jobs id (written p.can_write file checks) ps)
      (does.alerted_on ∙ ap not waits)
      (ap (λ f. alert_times cfg jobs id f ps)
          (written-state p.can_write file checks does.ended marks s.stored)
        ∙ alert_times-daily_pings cfg jobs id signature checks.state ps u m h.1
        ∙ ap (λ l. daily_pings l ps) last)
