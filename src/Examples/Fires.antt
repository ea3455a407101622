-- ===== src/Examples/Fires.antt =====
-- The theorems on the admission and the executor of a fire at a concrete registry.
use mathlib.Core.List.{Memᴰ}
use app_launcher_lite.Prelude.{arith, is_some, ◌≡◌, refl, true, false, some, none, List, [], ◌∷◌}
use app_launcher_lite.Jobs.Record.{no_fields, running}
use app_launcher_lite.Jobs.World.{World, Host}
use app_launcher_lite.Jobs.Job.{Job, new_job}
use app_launcher_lite.Jobs.Trigger.{chain_trigger}
use app_launcher_lite.Jobs.Admission.{mutex_collision, dispatch_chain_run, admit_and_spawn}
use app_launcher_lite.Prelude.Member.{member}
use app_launcher_lite.Jobs.Registry.{ids, UniqueIds}
use app_launcher_lite.Jobs.Admission.Collision.{NoneStranded, mutex_collision_lem}
use app_launcher_lite.Jobs.Admission.Scan.{rival, live_latest}
use app_launcher_lite.Jobs.Admission.Endings.{Fired}
use app_launcher_lite.Jobs.Admission.Laws.{Answered, dispatch_chain_run_ends, admit_and_spawn_lem}
use app_launcher_lite.Jobs.Watchdog.{Limits, Poll, watch}
use app_launcher_lite.Jobs.Watchdog.Firing.{watch-kills}

abbrev render : Job
render = record (new_job "render" "Render" "render.py") { mutex_group = some "gpu" }

abbrev train : Job
train = record (new_job "train" "Train" "train.py") { mutex_group = some "gpu" }

abbrev registry : List Job
registry = render ∷ train ∷ []

abbrev busy : World
busy = record {
  runs =
      (
        "render",
        ("r1", record no_fields { run_id = some "r1"; status = some running; pid = some 44 }) ∷ [],
      )
      ∷ ("train", ("t1", record no_fields { run_id = some "t1"; killed = some true }) ∷ [])
      ∷ [];
  queue = [];
  stats_cache = [];
  spawned = [];
}

abbrev host : Host
host = record {
  is_pid_alive = λ _ _. true;
  can_spawn = λ _. true;
  spawn_error = "";
  can_remove = λ _ _. true;
  now = 12_000_000;
}

unique : UniqueIds registry
unfolding member ids
unique = (refl, (refl, tt))

mutex_collision_lem_example :
    let out = mutex_collision host busy registry train in
    ((o : Job)
      → out.0 ≡ some o
      → Memᴰ o registry
        × (rival train "gpu" o ≡ true)
        × (live_latest out.1 o.id ≡ true)
        × NoneStranded host busy out.1 o)
    × (out.0 ≡ none
        → (o : Job) → Memᴰ o registry
        → rival train "gpu" o ≡ true
        → live_latest out.1 o.id ≡ false)
mutex_collision_lem_example = mutex_collision_lem host busy registry train "gpu" unique refl

dispatch_chain_run_ends_example :
    let (run_id, ok, w') = dispatch_chain_run host busy registry train "render" "t2" in
    Fired busy registry train run_id
      (chain_trigger "render")
      none
      (mutex_collision host busy registry train).0
      ok
      w'
dispatch_chain_run_ends_example = dispatch_chain_run_ends host busy registry train "render" "t2" tt

admit_and_spawn_lem_example :
    let out = admit_and_spawn host busy registry train none "manual" no_fields "t2" in
    Answered busy registry train "manual" none
      (mutex_collision host busy registry train).0
      out.0
      out.1
admit_and_spawn_lem_example =
    admit_and_spawn_lem host busy registry train none "manual" no_fields "t2" tt refl

abbrev ceilings : Limits
ceilings = record { max_runtime = some 100; no_output = some 40 }

abbrev chatty : List Poll
chatty =
    record { now = 30; size = some 5; ended = false }
    ∷ record { now = 60; size = some 9; ended = false }
    ∷ record { now = 101; size = some 12; ended = false }
    ∷ []

watch-kills_example : is_some (watch ceilings 0 0 (some 0) chatty) ≡ true
watch-kills_example =
    watch-kills ceilings 0 0 100 (some 0) (record { now = 101; size = some 12; ended = false })
      chatty refl (Memᴰ.tail (Memᴰ.tail (Memᴰ.head refl))) (omega arith) (refl, (refl, (refl, tt)))
