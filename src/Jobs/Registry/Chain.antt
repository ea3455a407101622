-- ===== src/Jobs/Registry/Chain.antt =====
-- src/jobs/config_chain.py: the chain edges of the registry, the search for a cycle and the check
-- of the references.
pub mod Walks
pub mod Search
pub mod Cycles
pub mod References
use app_launcher_lite.Prelude.{
  ℕ, zero, suc, String, ◌==◌, Option, none, some, List, [], ◌∷◌, ◌++◌, map, if◌then◌else◌, length,
}
use app_launcher_lite.Prelude.Dict.{Dict, get, put}
use app_launcher_lite.Prelude.Member.{member, dedup}
use app_launcher_lite.Jobs.Job.{Job}
use app_launcher_lite.Jobs.Registry.{Fault, self_chain, unknown_downstream, chain_cycle, ids}

-- `graph` of `detect_chain_cycle`: a later job with an id that is there replaces its edges.
unfoldable pub edges_of : Job → List String
edges_of j = dedup (j.on_success ++ j.on_failure)

unfoldable pub graph_from : Dict (List String) → List Job → Dict (List String)
unfolding edges_of
graph_from g [] = g
graph_from g (j ∷ jobs) = graph_from (put j.id (edges_of j) g) jobs

-- `WHITE`, `GRAY`, `BLACK`
pub data Colour : Type 0 where
  white gray black : Colour

-- What a visit ends with: the cycle that it returns, or the colours when it returns `None`.
pub data Visit : Type 0 where
  cycle : List String → Visit
  done : Dict Colour → Visit
  out_of_fuel : Visit

-- `stack[stack.index(v):]`
unfoldable pub from : String → List String → List String
from v [] = []
from v (x ∷ xs) = if x == v then x ∷ xs else from v xs

unfoldable pub then_on : Visit → (Dict Colour → Visit) → Visit
then_on (done c) k = k c
then_on (cycle p) k = cycle p
then_on out_of_fuel k = out_of_fuel

-- What the loop of `visit` does with one edge to a target of a colour; `sub` visits it and `rest`
-- goes on with the other edges.
unfoldable pub at_target :
    Option Colour → String → List String → Visit → (Dict Colour → Visit) → Dict Colour → Visit
unfolding from then_on
at_target none v stack sub rest c = rest c
at_target (some Colour.gray) v stack sub rest c = cycle (from v stack ++ v ∷ [])
at_target (some Colour.white) v stack sub rest c = then_on sub rest
at_target (some Colour.black) v stack sub rest c = rest c

-- `for v in graph.get(u, ())`, with the stack that has `u` on top.
unfoldable pub look :
    (String → Dict Colour → Visit) → List String → List String → Dict Colour → Visit
unfolding at_target
look sub stack [] c = done c
look sub stack (v ∷ vs) c = at_target (get v c) v stack (sub v c) (look sub stack vs) c

unfoldable pub targets : Dict (List String) → String → List String
targets g u = elim (get u g) [ none ↦ [] | some vs ↦ vs ]

-- `visit`; the stack holds the ids from the root of the search down to the caller's, and the push
-- and the pop of `u` enclose the loop.
unfoldable pub visit : ℕ → Dict (List String) → List String → String → Dict Colour → Visit
unfolding look targets then_on
visit zero g stack u c = out_of_fuel
visit (suc fuel) g stack u c =
    then_on
      (look (visit fuel g (stack ++ u ∷ [])) (stack ++ u ∷ []) (targets g u) (put u Colour.gray c))
      (λ d. done (put u Colour.black d))

-- The loop over the nodes: only a white one is visited.
unfoldable pub from_root : Option Colour → Visit → (Dict Colour → Visit) → Dict Colour → Visit
unfolding then_on
from_root (some Colour.white) sub rest c = then_on sub rest
from_root _ sub rest c = rest c

unfoldable pub roots : ℕ → Dict (List String) → List String → Dict Colour → Visit
unfolding from_root visit
roots fuel g [] c = done c
roots fuel g (u ∷ us) c = from_root (get u c) (visit fuel g [] u c) (roots fuel g us) c

unfoldable pub all_white : Dict (List String) → Dict Colour
all_white [] = []
all_white ((u, _) ∷ g) = (u, Colour.white) ∷ all_white g

unfoldable pub nodes : Dict (List String) → List String
nodes [] = []
nodes ((u, _) ∷ g) = u ∷ nodes g

-- The search of a graph; a visit nests once per node at most.
unfoldable pub search : Dict (List String) → Visit
unfolding roots all_white nodes
search g = roots (length g) g (nodes g) (all_white g)

unfoldable pub found_cycle : Visit → Option (List String)
found_cycle (cycle p) = some p
found_cycle _ = none

-- `detect_chain_cycle`
unfoldable pub detect_chain_cycle : List Job → Option (List String)
unfolding graph_from search found_cycle
detect_chain_cycle jobs = found_cycle (search (graph_from [] jobs))

-- The first of two checks that finds a fault.
unfoldable pub first_fault : Option Fault → Option Fault → Option Fault
first_fault (some f) next = some f
first_fault none next = next

-- The inner loop of `_check_chain_references`, for one of the two lists of a job.
unfoldable pub check_edges : List String → String → String → List String → Option Fault
check_edges known id field [] = none
check_edges known id field (d ∷ ds) =
    if d == id
    then some (self_chain id field)
    else if member d known
    then check_edges known id field ds
    else some (unknown_downstream id field d)

unfoldable pub check_jobs : List String → List Job → Option Fault
unfolding first_fault check_edges
check_jobs known [] = none
check_jobs known (j ∷ jobs) =
    first_fault (check_edges known j.id "on_success" j.on_success)
      (first_fault (check_edges known j.id "on_failure" j.on_failure) (check_jobs known jobs))

-- `_check_chain_references`
unfoldable pub check_chain_references : List Job → Option Fault
unfolding check_jobs ids
check_chain_references jobs = check_jobs (ids jobs) jobs

unfoldable pub cycle_fault : Option (List String) → Option Fault
cycle_fault none = none
cycle_fault (some p) = some (chain_cycle p)

-- `_validate_chain_consistency`
unfoldable pub validate_chain_consistency : List Job → Option Fault
unfolding first_fault check_chain_references cycle_fault detect_chain_cycle
validate_chain_consistency jobs =
    first_fault (check_chain_references jobs) (cycle_fault (detect_chain_cycle jobs))
