-- ===== src/Examples/Queues.antt =====
-- The theorems on src/jobs/queue.py at concrete queues.
use app_launcher_lite.Prelude.{
  String, ◌==◌, ◌≡◌, refl, true, false, some, none, [], ◌∷◌, if◌then◌else◌,
}
use app_launcher_lite.Prelude.Dict.{get, NodupKeys}
use app_launcher_lite.Jobs.Record.{no_fields, queued}
use app_launcher_lite.Jobs.World.{World, Host, Entry}
use app_launcher_lite.Jobs.History.{head_of}
use app_launcher_lite.Jobs.Queue.{entries_of, drain_mutex_queue}
use app_launcher_lite.Jobs.Queue.Fifo.{
  enqueue, pop, performed_all, promised_all, performed_all-promised_all, Represents,
}
use app_launcher_lite.Jobs.Queue.Draining.{Release, tail_of, drain_mutex_queue_lem}

abbrev entry : String → Entry
entry i = record { job_id = some "report"; run_id = some i; trigger = some "manual"; params = none }

abbrev two_waiting : World
two_waiting = record {
  runs =
      (
        "report",
        ("q1", record no_fields { status = some queued })
            ∷ ("q2", record no_fields { status = some queued })
            ∷ [],
      )
      ∷ [];
  queue = ("gpu", entry "q1" ∷ entry "q2" ∷ []) ∷ [];
  stats_cache = [];
  spawned = [];
}

two_waiting-NodupKeys : NodupKeys two_waiting.queue
unfolding get
two_waiting-NodupKeys = (refl, tt)

two_waiting-Represents : Represents two_waiting (λ g. entries_of g two_waiting.queue)
two_waiting-Represents = record { distinct = two_waiting-NodupKeys; same = λ g. refl }

performed_all-promised_all_example :
    performed_all two_waiting (pop "gpu" ∷ enqueue "gpu" (entry "q3") ∷ pop "gpu" ∷ [])
    ≡ promised_all
        (λ g. entries_of g two_waiting.queue)
        (pop "gpu" ∷ enqueue "gpu" (entry "q3") ∷ pop "gpu" ∷ [])
performed_all-promised_all_example =
    performed_all-promised_all two_waiting (λ g. entries_of g two_waiting.queue)
      (pop "gpu" ∷ enqueue "gpu" (entry "q3") ∷ pop "gpu" ∷ []) two_waiting-Represents

abbrev ready : Host
ready = record {
  is_pid_alive = λ _ _. false;
  can_spawn = λ _. true;
  spawn_error = "";
  can_remove = λ _ _. true;
  now = 12_000_000;
}

drain_mutex_queue_lem_example :
    let out = drain_mutex_queue ready two_waiting "gpu" in
    Release two_waiting (head_of (entries_of "gpu" two_waiting.queue)) out.0 out.1
    × ((k : String)
        → entries_of k out.1.queue ≡ (
            if "gpu" == k
            then tail_of (entries_of "gpu" two_waiting.queue)
            else entries_of k two_waiting.queue))
drain_mutex_queue_lem_example = drain_mutex_queue_lem ready two_waiting "gpu" two_waiting-NodupKeys
