-- ===== src/Jobs/Queue/Fifo.antt =====
-- The queue file of src/jobs/queue.py against its contract: a first-in first-out queue per group.
use mathlib.Core.Path.{ap₂}
use app_launcher_lite.Prelude.{
  String, ◌==◌, ◌≡◌, refl, ap, ◌∙◌, none, some, Option, List, [], ◌∷◌, ◌++◌, if◌then◌else◌, arith,
  eq_iff,
}
use app_launcher_lite.Prelude.Dict.{Dict, get, put, get-put, NodupKeys, put-NodupKeys}
use app_launcher_lite.Jobs.World.{World, Entry}
use app_launcher_lite.Jobs.Queue.{
  entries_of, drop_empty, write_queue, enqueue_mutex, pop_mutex_entry,
}

get-drop_empty :
    (g : String) (q : Dict (List Entry))
    → NodupKeys q
    → (get g q ≡ none → get g (drop_empty q) ≡ none)
      × (entries_of g (drop_empty q) ≡ entries_of g q)
unfolding drop_empty get
get-drop_empty g [] h = (λ e. e, refl)
get-drop_empty g ((k, []) ∷ q) h = ground (arith, get-drop_empty g q h.1, eq_iff k g)
get-drop_empty g ((k, e ∷ l) ∷ q) h = ground (arith, get-drop_empty g q h.1, eq_iff k g)

drop_empty-NodupKeys : (q : Dict (List Entry)) → NodupKeys q → NodupKeys (drop_empty q)
unfolding drop_empty
drop_empty-NodupKeys [] h = tt
drop_empty-NodupKeys ((k, []) ∷ q) h = drop_empty-NodupKeys q h.1
drop_empty-NodupKeys ((k, e ∷ l) ∷ q) h =
    ((get-drop_empty k q h.1).0 h.0, drop_empty-NodupKeys q h.1)

-- What the file holds after one list was replaced.
pub entries_of-write_queue :
    (w : World) (g k : String) (l : List Entry)
    → NodupKeys w.queue
    → (entries_of k (write_queue w (put g l w.queue)).queue
        ≡ (if g == k then l else entries_of k w.queue))
      × NodupKeys (write_queue w (put g l w.queue)).queue
unfolding write_queue
entries_of-write_queue w g k l h =
    let nd = put-NodupKeys g l w.queue h in
    (
      (get-drop_empty k (put g l w.queue) nd).1 ∙ ground (arith, get-put g k l w.queue),
      drop_empty-NodupKeys (put g l w.queue) nd,
    )

-- The contract: a list of entries for each group.
pub data Op : Type 0 where
  enqueue : String → Entry → Op
  pop : String → Op

-- The other lists stay.
abbrev pub replace : (String → List Entry) → String → List Entry → String → List Entry
replace a g l k = if g == k then l else a k

-- One operation of the contract, and the entry that it answers.
unfoldable pub promised : (String → List Entry) → Op → Option Entry × (String → List Entry)
promised a (enqueue g e) = (none, replace a g (a g ++ e ∷ []))
promised a (pop g) = elim (a g) [ [] ↦ (none, a) | e ∷ l ↦ (some e, replace a g l) ]

unfoldable pub performed : World → Op → Option Entry × World
performed w (enqueue g e) = (none, enqueue_mutex w g e)
performed w (pop g) = pop_mutex_entry w g

unfoldable pub promised_all : (String → List Entry) → List Op → List (Option Entry)
unfolding promised
promised_all a [] = []
promised_all a (o ∷ ops) = (promised a o).0 ∷ promised_all (promised a o).1 ops

unfoldable pub performed_all : World → List Op → List (Option Entry)
unfolding performed
performed_all w [] = []
performed_all w (o ∷ ops) = (performed w o).0 ∷ performed_all (performed w o).1 ops

-- The file represents the lists.
pub record Represents (w : World) (a : String → List Entry) : Type 0 where
  pub distinct : NodupKeys w.queue
  pub same : (g : String) → entries_of g w.queue ≡ a g

-- The two answers of a pop, by the list of its group.
pub pop_mutex_entry_lem :
    (w : World) (g : String) (l : List Entry)
    → entries_of g w.queue ≡ l
    → pop_mutex_entry w g
      ≡ elim l [ [] ↦ (none, w) | e ∷ rest ↦ (some e, write_queue w (put g rest w.queue)) ]
unfolding pop_mutex_entry
pop_mutex_entry_lem w g l e =
    ap
      (λ (l : List Entry). elim l as (λ _. Option Entry × World) [
        | [] ↦ (none, w)
        | e ∷ rest ↦ (some e, write_queue w (put g rest w.queue))
      ])
      e

promised_pop :
    (a : String → List Entry) (g : String) (l : List Entry)
    → a g ≡ l
    → promised a (pop g) ≡ elim l [ [] ↦ (none, a) | e ∷ rest ↦ (some e, replace a g rest) ]
unfolding promised
promised_pop a g l e =
    ap
      (λ (l : List Entry). elim l as (λ _. Option Entry × (String → List Entry)) [
        | [] ↦ (none, a)
        | e ∷ rest ↦ (some e, replace a g rest)
      ])
      e

popped :
    (w : World) (a : String → List Entry) (g : String) (l : List Entry)
    → a g ≡ l
    → Represents w a
    → ((performed w (pop g)).0 ≡ (promised a (pop g)).0)
      × Represents (performed w (pop g)).1 (promised a (pop g)).1
unfolding performed
popped w a g [] e r =
    rw (pop_mutex_entry_lem w g [] (r.same g ∙ e), promised_pop a g [] e) (refl, r)
popped w a g (x ∷ l) e r =
    rw (pop_mutex_entry_lem w g (x ∷ l) (r.same g ∙ e), promised_pop a g (x ∷ l) e)
      (
        refl,
        record {
          distinct = (entries_of-write_queue w g g l r.distinct).1;
          same = λ k. (entries_of-write_queue w g k l r.distinct).0 ∙ ground (arith, r.same k);
        },
      )

performed-promised :
    (w : World) (a : String → List Entry) (o : Op)
    → Represents w a
    → ((performed w o).0 ≡ (promised a o).0) × Represents (performed w o).1 (promised a o).1
unfolding performed promised enqueue_mutex
performed-promised w a (enqueue g e) r = (
  refl,
  record {
    distinct = (entries_of-write_queue w g g (entries_of g w.queue ++ e ∷ []) r.distinct).1;
    same = λ k. ground (
      arith,
      (entries_of-write_queue w g k (entries_of g w.queue ++ e ∷ []) r.distinct).0,
      r.same k,
      r.same g,
    );
  },
)
performed-promised w a (pop g) r = popped w a g (a g) refl r

-- From a queue file that represents per-group lists, any sequence of enqueues and pops answers
-- what first-in first-out queues, one per group, answer.
pub performed_all-promised_all :
    (w : World) (a : String → List Entry) (ops : List Op)
    → Represents w a
    → performed_all w ops ≡ promised_all a ops
unfolding performed_all promised_all
performed_all-promised_all w a [] r = refl
performed_all-promised_all w a (o ∷ ops) r =
    let (out, next) = performed-promised w a o r in
    ap₂ (λ (x : Option Entry) xs. x ∷ xs) out
      (performed_all-promised_all (performed w o).1 (promised a o).1 ops next)
