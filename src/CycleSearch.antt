-- ===== src/CycleSearch.antt =====
-- src/ftllexengine/core/reference_graph.py: the depth-first search of `detect_cycles`.
pub mod Walks
pub mod Trails
pub mod Sound
pub mod Work
pub mod Ends
pub mod Report
use ftllex_engine.Base.{
  ℕ, zero, suc, ◌+◌, ◌*◌, Bool, true, false, not, ◌||◌, ◌&&◌, Option, none, some, List, [], ◌∷◌,
  ◌++◌, Text, text_eq, length, drop, leb, if◌then◌else◌, Dict, lookup, text_key, member, add,
  discard, without_last,
}
use ftllex_engine.ReferenceGraph.{index_of, canonicalize_cycle}

-- `Mapping[str, set[str]]`, the sets in the order in which they are read.
abbrev pub Graph : Type 0
Graph = Dict Text (List Text)

-- `dependencies.get(node, set())`.
unfoldable pub neighbors_of : Graph → Text → List Text
neighbors_of dependencies node = elim (lookup node dependencies) [
  | none ↦ []
  | some neighbors ↦ neighbors
]

-- MAX_DETECTED_CYCLES and MAX_GRAPH_DFS_STACK; shut, since no proof needs their values.
unfoldable pub max_detected_cycles : ℕ
max_detected_cycles = 1_000

unfoldable pub max_graph_dfs_stack : ℕ
max_graph_dfs_stack = 100_000

-- An item of the work stack, with `_ENTERING` and `_EXITING` as constructors.
pub data Frame : Type 0 where
  entering : Text → List Text → Frame
  exiting : Text → Frame

-- The variables of the search; the top of the work stack is its first item.
pub record Search : Type 0 where
  pub globally_visited : List Text
  pub path : List Text
  pub rec_stack : List Text
  pub stack : List Frame
  pub cycles : List (List Text)
  pub seen_canonical : List (List Text)

-- `==` of two tuples of strings.
unfoldable pub texts_eq : List Text → List Text → Bool
texts_eq [] [] = true
texts_eq (x ∷ xs) (y ∷ ys) = text_eq x y && texts_eq xs ys
texts_eq _ _ = false

unfoldable pub is_seen : List Text → List (List Text) → Bool
is_seen cycle [] = false
is_seen cycle (x ∷ seen) = if texts_eq x cycle then true else is_seen cycle seen

-- `[*path[path.index(neighbor):], neighbor]`; the neighbor is on the path, so that `index` finds it.
unfoldable pub cycle_at : Text → List Text → List Text
cycle_at neighbor path = drop (index_of neighbor path) path ++ neighbor ∷ []

unfoldable pub append_cycle : Text → Search → Search
append_cycle neighbor s =
    let cycle = cycle_at neighbor s.path in
    let canonical = canonicalize_cycle cycle in
    if is_seen canonical s.seen_canonical
    then s
    else record s { seen_canonical = canonical ∷ s.seen_canonical; cycles = s.cycles ++ cycle ∷ [] }

unfoldable pub queue_neighbor : Graph → Text → Search → Search
queue_neighbor dependencies neighbor s =
    if member neighbor s.rec_stack || leb max_graph_dfs_stack (length s.stack)
    then s
    else record s { stack = entering neighbor (neighbors_of dependencies neighbor) ∷ s.stack }

-- The loop over the neighbors of an entered node.
unfoldable pub visit_neighbors : Graph → List Text → Search → Search
visit_neighbors dependencies [] s = s
visit_neighbors dependencies (neighbor ∷ neighbors) s = elim (member neighbor s.rec_stack) [
  | true ↦ elim (leb max_detected_cycles (length (append_cycle neighbor s).cycles)) [
    | true ↦ append_cycle neighbor s
    | false ↦ visit_neighbors dependencies neighbors (append_cycle neighbor s)
  ]
  | false ↦ visit_neighbors dependencies neighbors (queue_neighbor dependencies neighbor s)
]

-- What `_visit_entering_node` does before its loop.
abbrev pub entered : Text → Search → Search
entered node s = record s {
  globally_visited = add node s.globally_visited;
  rec_stack = add node s.rec_stack;
  path = s.path ++ node ∷ [];
  stack = exiting node ∷ s.stack;
}

unfoldable pub visit_entering_node : Graph → Text → List Text → Search → Search
visit_entering_node dependencies node neighbors s =
    if member node s.rec_stack then s else visit_neighbors dependencies neighbors (entered node s)

unfoldable pub finish_node : Text → Search → Search
finish_node node s = record s { path = without_last s.path; rec_stack = discard node s.rec_stack }

-- One round of the `while` loop on the item that was popped.
unfoldable pub round_on : Graph → Frame → Search → Search
round_on dependencies (exiting node) s = finish_node node s
round_on dependencies (entering node neighbors) s =
    visit_entering_node dependencies node neighbors s

-- `while stack and len(cycles) < MAX_DETECTED_CYCLES`, on fuel.
unfoldable pub search : Graph → ℕ → Search → Search
search dependencies zero s = s
search dependencies (suc fuel) s = elim (leb max_detected_cycles (length s.cycles)) [
  | true ↦ s
  | false ↦ elim s.stack [
    | [] ↦ s
    | frame ∷ rest ↦
        search dependencies fuel (round_on dependencies frame (record s { stack = rest }))
  ]
]

-- The search from one start node, behind the searches before it.
abbrev pub started : Graph → Text → Search → Search
started dependencies node s = record s {
  path = [];
  rec_stack = [];
  stack = entering node (neighbors_of dependencies node) ∷ [];
}

-- `for start_node in dependencies`, each search on the same fuel.
unfoldable pub search_all : Graph → ℕ → List Text → Search → Search
search_all dependencies fuel [] s = s
search_all dependencies fuel (node ∷ nodes) s = elim (member node s.globally_visited) [
  | true ↦ search_all dependencies fuel nodes s
  | false ↦ elim (leb max_detected_cycles (length s.cycles)) [
    | true ↦ s
    | false ↦
        search_all dependencies fuel nodes (search dependencies fuel (started dependencies node s))
  ]
]

abbrev pub keys : Graph → List Text
keys [] = []
keys ((node, neighbors) ∷ dependencies) = node ∷ keys dependencies

-- All nodes that a search can meet, with repetitions.
abbrev pub nodes_of : Graph → List Text
nodes_of [] = []
nodes_of ((node, neighbors) ∷ dependencies) = node ∷ (neighbors ++ nodes_of dependencies)

-- The rounds that an item may cost if at most `depth` nodes can still be entered below one another,
-- each with at most `width` neighbors.
abbrev pub rounds : ℕ → ℕ → ℕ
rounds width zero = 1
rounds width (suc depth) = 2 + width * rounds width depth

unfoldable pub detect_cycles : Graph → List (List Text)
detect_cycles dependencies =
    let count = length (nodes_of dependencies) in
    (search_all dependencies (rounds count count) (keys dependencies) (record {
      globally_visited = [];
      path = [];
      rec_stack = [];
      stack = [];
      cycles = [];
      seen_canonical = [];
    })).cycles
