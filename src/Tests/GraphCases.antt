-- ===== src/Tests/GraphCases.antt =====
-- src/ftllexengine/core/reference_graph.py, core/depth_guard.py and runtime/resolution_context.py at
-- concrete inputs.
use ftllex_engine.Base.{
  add, true, All, discard, without_last, lookup, text_key, member, ◌+◌, ◌≡◌, refl, ◌⊎◌, false, List,
  [], ◌∷◌, ◌++◌, Text, codes, text_eq, leb, if◌then◌else◌, value_error, depth_limit, data_integrity,
  ok, raised, ℤ, arith,
}
use ftllex_engine.Depth.{
  DepthGuard, Block, finish, crash, inside, enter, run, Calls, returns, resolves, run_global,
}
use ftllex_engine.Depth.Balance.{levels, run_balanced, run-levels}
use ftllex_engine.Depth.Global.{nesting, run_global-nesting}
use ftllex_engine.Resolution.{ResolutionContext, push, pop, contains}
use ftllex_engine.Resolution.Stack.{pop-push}
use ftllex_engine.Resolution.History.{Reach, fresh, pushed, Reach-pop}
use ftllex_engine.ReferenceGraph.{
  closed, canonicalize_cycle, canonical_nodes, least, index_of, text_lt,
}
use ftllex_engine.CycleSearch.{
  Graph, Search, nodes_of, rounds, search, started, search_all, detect_cycles, round_on,
  visit_entering_node, visit_neighbors, queue_neighbor, append_cycle, finish_node, cycle_at,
  is_seen, texts_eq, neighbors_of, max_detected_cycles, max_graph_dfs_stack,
}
use ftllex_engine.CycleSearch.Walks.{IsCycle}
use ftllex_engine.CycleSearch.Work.{count_of}
use ftllex_engine.CycleSearch.Ends.{Ended, search-ends}
use ftllex_engine.CycleSearch.Report.{detect_cycles-IsCycle}
use ftllex_engine.ReferenceGraph.Rotation.{Below}
use ftllex_engine.ReferenceGraph.Canonical.{canonicalize-rotate, canonicalize-IsRotation}

-- Two levels, the inner part of which raises.
abbrev crashing : Block
crashing = inside (inside (crash value_error) finish) finish

abbrev calm : Block
calm = inside (inside finish finish) (inside finish finish)

abbrev shallow : DepthGuard
shallow = record { max_depth = ℤ.pos 1; current_depth = ℤ.pos 0 }

run_balanced_example : (run crashing shallow).1 ≡ shallow
run_balanced_example = run_balanced crashing shallow

run-levels_example :
    (run calm (record { max_depth = ℤ.pos 1; current_depth = ℤ.pos 0 })).0
    ≡ (if leb (0 + levels calm) 1 then ok tt else raised depth_limit)
run-levels_example = run-levels calm 1 0 (((tt, tt), (tt, tt))) (omega arith)

too_deep : (run calm shallow).0 ≡ raised depth_limit
unfolding run enter
too_deep = refl

abbrev calls : Calls
calls = resolves (ℤ.pos 3) (resolves (ℤ.pos 3) returns returns) returns

run_global-nesting_example :
    (run_global calls 2).0 ≡ (if leb (2 + nesting calls) 3 then ok tt else raised depth_limit)
run_global-nesting_example = run_global-nesting calls 3 2 (refl, (refl, tt, tt), tt) (omega arith)

abbrev context : ResolutionContext
context = record {
  stack = codes "a" ∷ [];
  seen = codes "a" ∷ [];
  max_depth = 100;
  max_expansion_size = 1000;
  total_chars = 0;
}

b_new : contains (codes "b") context ≡ false
unfolding contains member text_eq
b_new = refl

pop-push_example : pop (push (codes "b") context) ≡ (ok (codes "b"), context)
pop-push_example = pop-push (codes "b") context b_new

abbrev empty_context : ResolutionContext
empty_context = record {
  stack = [];
  seen = [];
  max_depth = 100;
  max_expansion_size = 1000;
  total_chars = 0;
}

nothing_seen : contains (codes "a") empty_context ≡ false
unfolding contains member
nothing_seen = refl

one_pushed : Reach (push (codes "a") empty_context)
one_pushed = pushed (codes "a") nothing_seen (fresh 100 1000)

Reach-pop_example :
    ((key : Text)
      → contains key (push (codes "a") empty_context)
        ≡ member key (push (codes "a") empty_context).stack)
    × ((((push (codes "a") empty_context).stack ≡ [])
          × (pop (push (codes "a") empty_context)
              ≡ (raised data_integrity, push (codes "a") empty_context)))
        ⊎ ((init : List Text) × (key : Text) × ((push (codes "a") empty_context).stack
              ≡ init ++ key ∷ [])
            × (pop (push (codes "a") empty_context)
                ≡ (ok key, record (push (codes "a") empty_context) { stack = init; seen = init }))
            × (member key init ≡ false)))
Reach-pop_example = Reach-pop one_pushed

abbrev front_part : List Text
front_part = codes "msg:c" ∷ codes "msg:a" ∷ []

abbrev back_part : List Text
back_part = codes "msg:b" ∷ []

canonicalize-rotate_example :
    canonicalize_cycle (closed (front_part ++ back_part))
    ≡ canonicalize_cycle (closed (back_part ++ front_part))
unfolding text_eq
canonicalize-rotate_example =
    canonicalize-rotate front_part back_part ((refl, (refl, tt)), ((refl, tt), (tt, tt)))

canonicalize-IsRotation_example :
    (a : List Text) × (m : Text) × (b : List Text) × (front_part ≡ a ++ m ∷ b)
    × Below m front_part
    × (canonicalize_cycle (closed front_part) ≡ closed ((m ∷ b) ++ a))
canonicalize-IsRotation_example = canonicalize-IsRotation (codes "msg:c") (codes "msg:a" ∷ [])

canonical_two :
    canonicalize_cycle (closed front_part) ≡ codes "msg:a" ∷ codes "msg:c" ∷ codes "msg:a" ∷ []
unfolding canonicalize_cycle canonical_nodes least index_of text_lt text_eq
canonical_two = refl

-- Two entries that refer to one another, and one that refers to the first.
abbrev graph : Graph
graph = (codes "a", codes "b" ∷ []) ∷ (codes "b", codes "a" ∷ []) ∷ (codes "c", codes "a" ∷ []) ∷ []

cycle_of_graph : detect_cycles graph ≡ (codes "a" ∷ codes "b" ∷ codes "a" ∷ []) ∷ []
unfolding detect_cycles search_all search round_on visit_entering_node visit_neighbors
    queue_neighbor append_cycle finish_node cycle_at is_seen texts_eq neighbors_of
    max_detected_cycles max_graph_dfs_stack canonicalize_cycle canonical_nodes least index_of
    text_lt text_eq member add discard without_last lookup
cycle_of_graph = refl

detect_cycles-IsCycle_example : All (IsCycle graph) (detect_cycles graph)
detect_cycles-IsCycle_example = detect_cycles-IsCycle graph

abbrev nothing_found : Search
nothing_found = record {
  globally_visited = [];
  path = [];
  rec_stack = [];
  stack = [];
  cycles = [];
  seen_canonical = [];
}

a_known : member (codes "a") (nodes_of graph) ≡ true
unfolding member text_eq
a_known = refl

search-ends_example : Ended graph (
    search graph
      (rounds (count_of graph) (count_of graph))
      (started graph (codes "a") nothing_found))
search-ends_example = search-ends graph (codes "a") nothing_found a_known tt
