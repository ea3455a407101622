-- ===== src/Jobs/Schtasks/Sync/Present.antt =====
-- What `sync_schtasks` of src/jobs/schtasks.py leaves in the task scheduler, by what `schtasks.exe`
-- documents of its commands.
use app_launcher_lite.Prelude.{
  ℕ, length, eqb, String, ◌==◌, ◌≡◌, refl, ap, ◌∙◌, Bool, true, false, not, ◌&&◌, some, is_some,
  List, [], ◌∷◌, eq_iff, inl, inr, Bool-cases, if◌then◌else◌, arith,
}
use app_launcher_lite.Prelude.Member.{member}
use app_launcher_lite.Jobs.Job.{Job}
use app_launcher_lite.Jobs.Trigger.{after_prefix}
use app_launcher_lite.Jobs.Registry.Checked.{Checked, ok}
use app_launcher_lite.Jobs.Registry.Python.{Python}
use app_launcher_lite.Jobs.Schtasks.State.{Proc, Tasks, invalidate_next_run_cache}
use app_launcher_lite.Jobs.Registry.Schedules.{validate_schedule}
use app_launcher_lite.Jobs.Schtasks.Ownership.{Owned-prefixed, owns_task-Owned}
use app_launcher_lite.Jobs.Schtasks.Tasks.{
  Install, task_folder_prefix, task_names_for, task_run_command, known_tasks, owns_task,
  schedule_argv_parts,
}
use app_launcher_lite.Jobs.Schtasks.Sync.{
  query_argv, delete_argv, create_argv, execute, list_known_tasks, candidates, owned, delete_each,
  delete_schtasks, create_each, create_all, create_checked, sync_schtasks,
}
use app_launcher_lite.Jobs.Schtasks.Sync.Counted.{length-task_names_for}

-- What the commands do to the tasks that are there: a deletion removes the task that it names, a
-- forced creation that succeeds leaves the task that it names, one that fails changes nothing, and
-- no other task changes.
pub record Commands {S : Type 0} (run : S → List String → Proc × S) (present : S → String → Bool)
    : Type 0 where
  pub deletes :
      (s : S) (n m : String)
      → present (run s (delete_argv n)).1 m ≡ (if n == m then false else present s m)
  pub creates :
      (s : S) (n tr : String) (part : List String) (m : String)
      → present (run s (create_argv n tr part)).1 m
        ≡ (if (run s (create_argv n tr part)).0.succeeded && n == m then true else present s m)

-- Every creation succeeds.
abbrev pub AllCreated : {S : Type 0} → (S → List String → Proc × S) → Type 0
AllCreated {S} run =
    (s : S) (n tr : String) (part : List String)
    → (run s (create_argv n tr part)).0.succeeded ≡ true

-- The query of the tasks at `s` changes none of them, and lists those of the folder that are there.
pub record Queried {S : Type 0} (run : S → List String → Proc × S) (present : S → String → Bool)
    (prefix : String) (s : S) : Type 0 where
  pub names : List String
  pub answered : known_tasks prefix (run s query_argv).0 ≡ some names
  pub kept : (m : String) → present (run s query_argv).1 m ≡ present s m
  pub listed : (m : String) → is_some (after_prefix prefix m) ≡ true → member m names ≡ present s m

module _ {S : Type 0} (i : Install) (py : Python) (run : S → List String → Proc × S)
    (present : S → String → Bool) (commands : Commands run present) where
  -- Whether the task is there.
  abbrev there : Tasks S → String → Bool
  there t m = present t.scheduler m

  there-delete_each :
      (t : Tasks S) (names : List String) (m : String)
      → there (delete_each i py run t names).1 m ≡ (if member m names then false else there t m)
  unfolding delete_each execute member
  there-delete_each t [] m = refl
  there-delete_each t (n ∷ names) m =
      there-delete_each (execute i py run t (delete_argv n)).1 names m
      ∙ ground (arith, commands.deletes t.scheduler n m)

  there-create_each :
      (t : Tasks S) (tr : String) (names : List String) (parts : List (List String)) (m : String)
      → length names ≡ length parts
      → let (created, t') = create_each i py run t tr names parts in
        (there t' m ≡ (if member m created then true else there t m))
        × (member m created ≡ true → member m names ≡ true)
        × (AllCreated run → member m created ≡ member m names)
  unfolding create_each execute member
  there-create_each t tr [] parts m e = (refl, (λ h. h), λ h. refl)
  there-create_each t tr (n ∷ names) [] m e = absurd (omega (arith, e))
  there-create_each t tr (n ∷ names) (part ∷ parts) m e =
      let (left, among, all) =
        there-create_each (execute i py run t (create_argv n tr part)).1 tr names parts m
          (omega (arith, e)) in
      (
        left ∙ ground (arith, commands.creates t.scheduler n tr part m),
        λ h. ground (arith, among, h),
        λ h. ground (arith, all h, h t.scheduler n tr part),
      )

  member-owned :
      (m id : String) (others names : List String)
      → member m (owned i py run id others names)
        ≡ (member m names && owns_task i py.is_digit m id others)
  unfolding owned member
  member-owned m id others [] = refl
  member-owned m id others (n ∷ names) = elim (Bool-cases (n == m)) [
    | inl same ↦
        let q : owns_task i py.is_digit n id others ≡ owns_task i py.is_digit m id others =
          ap (λ k. owns_task i py.is_digit k id others) ((eq_iff n m).0 same) in
        ground (arith, q, member-owned m id others names)
    | inr differs ↦ ground (arith, member-owned m id others names)
  ]

  there-delete_schtasks :
      (t : Tasks S) (id : String) (others : List String) (m : String)
      → Queried run present (task_folder_prefix i) t.scheduler
      → there (delete_schtasks i py run t id others).1 m
        ≡ (if owns_task i py.is_digit m id others then false else there t m)
  unfolding delete_schtasks list_known_tasks candidates execute invalidate_next_run_cache
  there-delete_schtasks t id others m q = rw q.answered (
      there-delete_each (execute i py run t query_argv).1 (owned i py run id others q.names) m
      ∙ elim (Bool-cases (owns_task i py.is_digit m id others)) [
        | inl mine ↦
            let listed = q.listed m (
              Owned-prefixed i py.is_digit m id others
                (owns_task-Owned i py.is_digit m id others mine)) in
            ground (arith, member-owned m id others q.names, listed, q.kept m)
        | inr other ↦ ground (arith, member-owned m id others q.names, q.kept m)
      ])

same_length : {a b : ℕ} → a ≡ b → eqb a b ≡ true
same_length e = ground arith

-- What a sync leaves: the tasks whose creation it answers are there, of the others those that were
-- and are not owned. It creates only names of the job, and all of them if every creation succeeds.
abbrev pub Synced :
    {S : Type 0}
    → (S → List String → Proc × S)
    → (S → String → Bool)
    → Checked (List String) × Tasks S
    → (named mine before : Bool) (m : String) → Type 0
Synced run present out named mine before m =
    (created : List String) × (out.0 ≡ ok created)
    × (present out.1.scheduler m
        ≡ (if member m created then true else if mine then false else before))
    × (member m created ≡ true → named ≡ true)
    × (AllCreated run → member m created ≡ named)

-- The outcome of the deletions is final for a job that is not created.
settled :
    {S : Type 0} (run : S → List String → Proc × S) (present : S → String → Bool) (t : Tasks S)
    (made : Checked (List String) × Tasks S) (elevated idle named mine before : Bool) (m : String)
    → present t.scheduler m ≡ (if mine then false else before)
    → (idle ≡ false → Synced run present made named mine before m)
    → Synced run present
        (if elevated then (ok [], t) else if idle then (ok [], t) else made)
        (not elevated && not idle && named)
        mine
        before
        m
unfolding member
settled run present t made true idle named mine before m gone later =
    ([], refl, gone, (λ h. h), λ h. refl)
settled run present t made false true named mine before m gone later =
    ([], refl, gone, (λ h. h), λ h. refl)
settled run present t made false false named mine before m gone later = later refl

module _ {S : Type 0} (i : Install) (py : Python) (run : S → List String → Proc × S)
    (present : S → String → Bool) where
  there-create_checked :
      (commands : Commands run present) (t : Tasks S) (job : Job) (parts : List (List String))
      (mine before : Bool) (m : String)
      → schedule_argv_parts py job.schedule ≡ ok parts
      → length (task_names_for i job) ≡ length parts
      → present t.scheduler m ≡ (if mine then false else before)
      → Synced run present
          (create_checked i py run t job (schedule_argv_parts py job.schedule))
          (member m (task_names_for i job))
          mine
          before
          m
  unfolding create_all invalidate_next_run_cache
  there-create_checked commands t job parts mine before m e counted gone =
      let tr = task_run_command i job.id job.visible in
      let (left, among, all) =
        there-create_each i py run present commands t tr (task_names_for i job) parts m counted in
      rw (e, same_length counted)
        (
          (create_each i py run t tr (task_names_for i job) parts).0,
          refl,
          left
              ∙ ap
                  (λ b.
                    if member m (create_each i py run t tr (task_names_for i job) parts).0
                    then true
                    else b)
                  gone,
          among,
          all,
        )

  -- For a job with a checked schedule whose portions are computed, over a scheduler whose deletion
  -- removes the named task alone, whose forced creation leaves the named task alone if it succeeds
  -- and changes nothing if it fails, and whose query answers the tasks of the folder: a sync
  -- answers a list of names, and after it a task is there exactly if it is in that list, or it was
  -- there before and the job does not own it. Each listed name is one of the job's, and the list
  -- is empty if the job is elevated or has no schedule; if every creation succeeds, all the names
  -- of another job are listed.
  pub present-sync_schtasks :
      (t : Tasks S) (job : Job) (others : List String) (parts : List (List String)) (m : String)
      → Commands run present
      → Queried run present (task_folder_prefix i) t.scheduler
      → validate_schedule py job.schedule ≡ ok tt
      → schedule_argv_parts py job.schedule ≡ ok parts
      → Synced run present
          (sync_schtasks i py run t job others)
          (not job.elevated && not (job.schedule.type == "none") && member m (task_names_for i job))
          (owns_task i py.is_digit m job.id others)
          (present t.scheduler m)
          m
  unfolding sync_schtasks create_all invalidate_next_run_cache
  present-sync_schtasks t job others parts m commands q valid e =
      let t' = (delete_schtasks i py run t job.id others).1 in
      let gone = there-delete_schtasks i py run present commands t job.id others m q in
      settled run present t' (create_checked i py run t' job (schedule_argv_parts py job.schedule))
        job.elevated (job.schedule.type == "none") (member m (task_names_for i job))
        (owns_task i py.is_digit m job.id others) (present t.scheduler m) m gone
        (λ scheduled.
          there-create_checked commands t' job parts (owns_task i py.is_digit m job.id others)
            (present t.scheduler m) m e (length-task_names_for i py job parts valid scheduled e)
            gone)
