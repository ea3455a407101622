-- ===== src/Jobs/Coverage/Alerts/Step.antt =====
-- What one pass of `check_and_alert` of src/jobs/coverage.py does for one job.
use app_launcher_lite.Prelude.{
  String, ◌==◌, ◌≡◌, refl, sym, ap, subst, ◌∙◌, Bool, true, false, not, ◌||◌, inl, inr, Bool-cases,
  Option, none, some, is_some, List, [], ◌∷◌, eq_iff, if◌then◌else◌, arith,
}
use app_launcher_lite.Prelude.Dict
use app_launcher_lite.Prelude.Dict.{Dict, get-put, get-del_ne}
use app_launcher_lite.Prelude.Member.{member}
use app_launcher_lite.Jobs.Job.{Job}
use app_launcher_lite.Jobs.Executor.{NotifyConfig}
use app_launcher_lite.Jobs.Registry.{ids, UniqueIds}
use app_launcher_lite.Jobs.Schtasks.State.{Coverage}
use app_launcher_lite.Jobs.Coverage.Alerts.{
  AlertEntry, CoverageAlert, Checks, Round, signature_of, in_problem, entry_or_empty, is_recent,
  alert_entry, alert_for, add_alert, check_job, check_found, check_each,
}

-- The job is among those alerted on.
abbrev pub names_job : String → List CoverageAlert → Bool
names_job id [] = false
names_job id (a ∷ l) = a.job_id == id || names_job id l

module _ (cfg : NotifyConfig) (round : Round) (results : Dict Coverage) (id : String)
    (deliver : (j : String) → round.delivers j ≡ true) where
  -- What the loop does for the job `id`: it ends, and leaves the entry, and alerts or not.
  pub record Does (entry : Option AlertEntry) (alerts : Bool) (c : Checks) : Type 0 where
    pub ended : c.completed ≡ true
    pub left : Dict.get id c.state ≡ entry
    pub alerted_on : names_job id c.alerted ≡ alerts

  moved :
      {e e' : Option AlertEntry} {a a' : Bool} {c : Checks}
      → e ≡ e'
      → a ≡ a'
      → Does e a c
      → Does e' a' c
  moved p q d = record { ended = d.ended; left = d.left ∙ p; alerted_on = d.alerted_on ∙ q }

  alerted_too :
      {e : Option AlertEntry} {a : Bool} {c : Checks} (n : CoverageAlert)
      → Does e a c
      → Does e (n.job_id == id || a) (add_alert n c)
  alerted_too n d = record {
    ended = d.ended;
    left = d.left;
    alerted_on = ap (λ b. n.job_id == id || b) d.alerted_on;
  }

  -- The three branches of the loop, when the notification is delivered.
  branches :
      (fine recent delivered : Bool) {e : Option AlertEntry} {a : Bool} (x y z w : Checks)
      → delivered ≡ true
      → (fine ≡ true → Does e a x)
      → (fine ≡ false → recent ≡ true → Does e a y)
      → (fine ≡ false → recent ≡ false → Does e a z)
      → Does e a (if fine then x else if recent then y else if delivered then z else w)
  branches true recent delivered x y z w d p q r = p refl
  branches false true delivered x y z w d p q r = q refl refl
  branches false false true x y z w d p q r = r refl refl
  branches false false false x y z w d p q r = cc

  -- The entry and the alert that a problem with the signature leaves.
  abbrev pub recent_of : Option AlertEntry → Coverage → Bool
  recent_of prior c = is_recent (entry_or_empty prior) (signature_of c) round.wall

  abbrev pub entry_of : Option AlertEntry → Coverage → AlertEntry
  entry_of prior c =
      alert_entry (recent_of prior c) (entry_or_empty prior) (signature_of c) round.wall round.stamp

  put_other :
      (k : String) (v : AlertEntry) (state : Dict AlertEntry)
      → (k == id) ≡ false
      → Dict.get id (Dict.put k v state) ≡ Dict.get id state
  put_other k v state differs = get-put k id v state ∙ rw differs refl

  put_same :
      (k : String) (v : AlertEntry) (state : Dict AlertEntry)
      → (k == id) ≡ true
      → Dict.get id (Dict.put k v state) ≡ some v
  put_same k v state same = get-put k id v state ∙ rw same refl

  -- A job other than `id` leaves its entry and its alert to the jobs behind.
  other_job :
      (job : Job) (o : Option Coverage) (next : Dict AlertEntry → Bool → Checks)
      (state : Dict AlertEntry) (dirty : Bool) {e : Option AlertEntry} {a : Bool}
      → (job.id == id) ≡ false
      → ((s : Dict AlertEntry) (d : Bool) → Dict.get id s ≡ Dict.get id state → Does e a (next s d))
      → Does e a (check_found cfg round job o next state dirty)
  unfolding check_job alert_for
  other_job job none next state dirty differs h = h state dirty refl
  other_job job (some c) next state dirty differs h =
      let prior = Dict.get job.id state in
      let state' = Dict.put job.id (entry_of prior c) state in
      let later = next state' true in
      let kept = h state' true (put_other job.id (entry_of prior c) state differs) in
      branches (not (in_problem c.state)) (recent_of prior c) (round.delivers job.id)
        (next (Dict.del job.id state) (dirty || is_some prior)) later
        (add_alert (alert_for cfg job) later)
        (record { completed = false; alerted = []; state = state'; dirty = true }) (deliver job.id)
        (λ p.
          h (Dict.del job.id state) (dirty || is_some prior) (get-del_ne job.id id state differs))
        (λ p q. kept) (λ p q. moved refl (rw differs refl) (alerted_too (alert_for cfg job) kept))

  -- The job `id` itself, with a problem, where no job behind has its id.
  this_job :
      (job : Job) (c : Coverage) (next : Dict AlertEntry → Bool → Checks) (state : Dict AlertEntry)
      (dirty : Bool)
      → (job.id == id) ≡ true
      → in_problem c.state ≡ true
      → ((s : Dict AlertEntry) → Does (Dict.get id s) false (next s true))
      → Does
          (some (entry_of (Dict.get id state) c))
          (not (recent_of (Dict.get id state) c))
          (check_job cfg round job c next state dirty)
  unfolding check_job alert_for
  this_job job c next state dirty same bad h =
      let path = (eq_iff job.id id).0 same in
      let prior = Dict.get job.id state in
      let state' = Dict.put job.id (entry_of prior c) state in
      let later = next state' true in
      let kept = moved (put_same job.id (entry_of prior c) state same) refl (h state') in
      moved (ap (λ k. some (entry_of (Dict.get k state) c)) path)
        (ap (λ k. not (recent_of (Dict.get k state) c)) path)
        (branches (not (in_problem c.state)) (recent_of prior c) (round.delivers job.id)
          (next (Dict.del job.id state) (dirty || is_some prior)) later
          (add_alert (alert_for cfg job) later)
          (record { completed = false; alerted = []; state = state'; dirty = true })
          (deliver job.id) (λ p. absurd (cc (ap not bad, p)))
          (λ p q. moved refl (sym (ap not q)) kept)
          (λ p q. moved refl (rw (same, q) refl) (alerted_too (alert_for cfg job) kept)))

  others_alone :
      (jobs : List Job) (state : Dict AlertEntry) (dirty : Bool)
      → member id (ids jobs) ≡ false
      → Does (Dict.get id state) false (check_each cfg round results jobs state dirty)
  unfolding member ids check_each
  others_alone [] state dirty h = record { ended = refl; left = refl; alerted_on = refl }
  others_alone (job ∷ jobs) state dirty h =
      other_job job (Dict.get job.id results) (check_each cfg round results jobs) state dirty
        (ground arith) (λ s d e. moved e refl (others_alone jobs s d (ground arith)))

  pub problem_job :
      (c : Coverage) (found : Dict.get id results ≡ some c) (bad : in_problem c.state ≡ true)
      (jobs : List Job) (state : Dict AlertEntry) (dirty : Bool)
      → UniqueIds jobs
      → member id (ids jobs) ≡ true
      → Does
          (some (entry_of (Dict.get id state) c))
          (not (recent_of (Dict.get id state) c))
          (check_each cfg round results jobs state dirty)
  unfolding member ids check_each
  problem_job c found bad [] state dirty u m = absurd (cc m)
  problem_job c found bad (job ∷ jobs) state dirty u m = elim (Bool-cases (job.id == id)) [
    | inl same ↦
        let path = (eq_iff job.id id).0 same in
        let alone = λ (s : Dict AlertEntry). others_alone jobs s true (rw path at u.0) in
        subst
          (λ o.
            Does (some (entry_of (Dict.get id state) c)) (not (recent_of (Dict.get id state) c))
              (check_found cfg round job o (check_each cfg round results jobs) state dirty))
          (sym (ap (λ k. Dict.get k results) path ∙ found))
          (this_job job c (check_each cfg round results jobs) state dirty same bad alone)
    | inr differs ↦
        other_job job (Dict.get job.id results) (check_each cfg round results jobs) state dirty
          differs
          (λ s d e.
            moved (ap (λ p. some (entry_of p c)) e) (ap (λ p. not (recent_of p c)) e)
              (problem_job c found bad jobs s d u.1 (ground arith)))
  ]

  -- The loop marks the file as changed: it never takes the mark back, and a problem sets it.
  marked :
      (job : Job) (o : Option Coverage) (next : Dict AlertEntry → Bool → Checks)
      (state : Dict AlertEntry) (dirty : Bool)
      → ((s : Dict AlertEntry) (d : Bool) → (next s d).dirty ≡ true)
      → (check_found cfg round job o next state dirty).dirty ≡ true
  unfolding check_job
  marked job none next state dirty h = h state dirty
  marked job (some c) next state dirty h =
      let state' = Dict.put job.id (entry_of (Dict.get job.id state) c) state in
      ground
        (arith, h state' true, h (Dict.del job.id state) (dirty || is_some (Dict.get job.id state)))

  mark_kept :
      (job : Job) (o : Option Coverage) (next : Dict AlertEntry → Bool → Checks)
      (state : Dict AlertEntry)
      → ((s : Dict AlertEntry) → (next s true).dirty ≡ true)
      → (check_found cfg round job o next state true).dirty ≡ true
  unfolding check_job
  mark_kept job none next state h = h state
  mark_kept job (some c) next state h =
      let state' = Dict.put job.id (entry_of (Dict.get job.id state) c) state in
      ground (arith, h state', h (Dict.del job.id state))

  mark_set :
      (job : Job) (c : Coverage) (next : Dict AlertEntry → Bool → Checks) (state : Dict AlertEntry)
      (dirty : Bool)
      → in_problem c.state ≡ true
      → ((s : Dict AlertEntry) → (next s true).dirty ≡ true)
      → (check_job cfg round job c next state dirty).dirty ≡ true
  unfolding check_job
  mark_set job c next state dirty bad h =
      let state' = Dict.put job.id (entry_of (Dict.get job.id state) c) state in
      ground (arith, h state')

  all_kept :
      (jobs : List Job) (state : Dict AlertEntry)
      → (check_each cfg round results jobs state true).dirty ≡ true
  unfolding check_each
  all_kept [] state = refl
  all_kept (job ∷ jobs) state =
      mark_kept job (Dict.get job.id results) (check_each cfg round results jobs) state
        (all_kept jobs)

  pub problem_marks :
      (c : Coverage) (found : Dict.get id results ≡ some c) (bad : in_problem c.state ≡ true)
      (jobs : List Job) (state : Dict AlertEntry) (dirty : Bool)
      → member id (ids jobs) ≡ true
      → (check_each cfg round results jobs state dirty).dirty ≡ true
  unfolding member ids check_each
  problem_marks c found bad [] state dirty m = absurd (cc m)
  problem_marks c found bad (job ∷ jobs) state dirty m = elim (Bool-cases (job.id == id)) [
    | inl same ↦
        subst
          (λ o.
            (check_found cfg round job o (check_each cfg round results jobs) state dirty).dirty
            ≡ true)
          (sym (ap (λ k. Dict.get k results) ((eq_iff job.id id).0 same) ∙ found))
          (mark_set job c (check_each cfg round results jobs) state dirty bad (all_kept jobs))
    | inr differs ↦
        marked job (Dict.get job.id results) (check_each cfg round results jobs) state dirty
          (λ s d. problem_marks c found bad jobs s d (ground arith))
  ]
