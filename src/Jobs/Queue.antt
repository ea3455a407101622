-- ===== src/Jobs/Queue.antt =====
-- src/jobs/queue.py: the queue file of the mutex groups, one FIFO list of entries per group. Each
-- operation holds the file lock, so it is one step.
pub mod Fifo
pub mod Draining
use app_launcher_lite.Prelude.{
  String, ◌==◌, Bool, true, false, Option, none, some, List, [], ◌∷◌, ◌++◌, if◌then◌else◌,
}
use app_launcher_lite.Prelude.Dict
use app_launcher_lite.Prelude.Dict.{Dict}
use app_launcher_lite.Jobs.Record.{Run, is_queued}
use app_launcher_lite.Jobs.World.{World, Entry, Spawn, Host, spawn_detached}
use app_launcher_lite.Jobs.History.{read_run}

-- `state.get(group) or []`
abbrev pub entries_of : String → Dict (List Entry) → List Entry
entries_of group q = elim (Dict.get group q) [ none ↦ [] | some l ↦ l ]

-- The pruning of `_write_queue_file`: groups whose list is empty are dropped.
unfoldable pub drop_empty : Dict (List Entry) → Dict (List Entry)
drop_empty [] = []
drop_empty ((g, []) ∷ q) = drop_empty q
drop_empty ((g, e ∷ l) ∷ q) = (g, e ∷ l) ∷ drop_empty q

-- `_write_queue_file`
unfoldable pub write_queue : World → Dict (List Entry) → World
unfolding drop_empty
write_queue w q = record w { queue = drop_empty q }

-- `enqueue_mutex`
unfoldable pub enqueue_mutex : World → String → Entry → World
enqueue_mutex w group entry =
    write_queue w (Dict.put group (entries_of group w.queue ++ entry ∷ []) w.queue)

-- `pop_mutex_entry`
unfoldable pub pop_mutex_entry : World → String → Option Entry × World
pop_mutex_entry w group = elim (entries_of group w.queue) [
  | [] ↦ (none, w)
  | head ∷ rest ↦ (some head, write_queue w (Dict.put group rest w.queue))
]

-- `peek_mutex_queue`
unfoldable pub peek_mutex_queue : World → String → List Entry
peek_mutex_queue w group = entries_of group w.queue

-- `str(entry.get("trigger") or "manual")`
abbrev pub trigger_or_manual : Option String → String
trigger_or_manual none = "manual"
trigger_or_manual (some t) = if t == "" then "manual" else t

-- The part of `drain_mutex_queue` after the pop: the entry that was spawned, if any.
unfoldable pub release_entry : Host → World → Option Entry → Option Entry × World
release_entry h w none = (none, w)
release_entry h w (some entry) = elim entry.job_id [
  | none ↦ (none, w)
  | some job_id ↦ elim entry.run_id [
    | none ↦ (none, w)
    | some run_id ↦
        if is_queued (read_run w job_id run_id).status
        then (let spawn : Spawn = record {
          job_id = job_id;
          run_id = run_id;
          trigger = trigger_or_manual entry.trigger;
          params = entry.params;
        } in
            let (ok, w') = spawn_detached h w spawn in if ok then (some entry, w') else (none, w'))
        else (none, w)
  ]
]

-- `drain_mutex_queue`
unfoldable pub drain_mutex_queue : Host → World → String → Option Entry × World
drain_mutex_queue h w group = let (entry, w') = pop_mutex_entry w group in release_entry h w' entry
