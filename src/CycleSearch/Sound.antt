-- ===== src/CycleSearch/Sound.antt =====
-- Every cycle that the search reports is one.
use ftllex_engine.Base.{
  ◌≡◌, refl, ap, sym, ◌∙◌, subst, inl, inr, true, false, ◌||◌, List, [], ◌∷◌, ◌++◌, Text,
  text_eq_iff, length, leb, All, All-append, if-elim, Bool-cases, text_key, member, add, discard,
  without_last, arith,
}
use ftllex_engine.ReferenceGraph.{canonicalize_cycle}
use ftllex_engine.CycleSearch.{
  Graph, neighbors_of, max_detected_cycles, max_graph_dfs_stack, Frame, entering, exiting, Search,
  is_seen, cycle_at, append_cycle, queue_neighbor, visit_neighbors, entered, visit_entering_node,
  finish_node, round_on,
}
use ftllex_engine.CycleSearch.Walks.{
  Simple, IsCycle, Simple-append, Simple-front, add_new, discard-append, without_last-append,
  cycle_at-IsCycle,
}
use ftllex_engine.CycleSearch.Trails.{Trail, Trail-extend, Trail-front}

-- What the items of the work stack stand for: an item to enter continues the path by a node that is
-- not on it; an item to leave is the last node of the path, and what is below it belongs to the path
-- without that node.
abbrev pub Stacked : Graph → List Frame → List Text → Type 0
Stacked g [] path = path ≡ []
Stacked g (entering n neighbors ∷ rest) path =
    Trail g (path ++ n ∷ [])
    × (member n path ≡ false)
    × (neighbors ≡ neighbors_of g n)
    × Stacked g rest path
Stacked g (exiting n ∷ rest) path =
    (init : List Text) × (path ≡ init ++ n ∷ []) × Stacked g rest init

pub record Good (g : Graph) (path : List Text) (s : Search) : Type 0 where
  pub at_path : s.path ≡ path
  pub same : s.rec_stack ≡ path
  pub walk : Trail g path
  pub simple : Simple path
  pub stacked : Stacked g s.stack path
  pub found : All (IsCycle g) s.cycles

append_cycle-Good :
    (g : Graph) (path : List Text) (n : Text) (s : Search)
    → Good g path s
    → member n path ≡ true
    → Trail g (path ++ n ∷ [])
    → Good g path (append_cycle n s)
unfolding append_cycle
append_cycle-Good g path n s i on w =
    if-elim (Good g path) (is_seen (canonicalize_cycle (cycle_at n s.path)) s.seen_canonical) _ _ i
      (record {
        at_path = i.at_path;
        same = i.same;
        walk = i.walk;
        simple = i.simple;
        stacked = i.stacked;
        found = All-append (IsCycle g) s.cycles (cycle_at n s.path ∷ []) i.found (
          subst (λ p. IsCycle g (cycle_at n p)) (sym i.at_path)
              (cycle_at-IsCycle g n path on w.0 i.simple),
          tt,
        );
      })

queue_neighbor-Good :
    (g : Graph) (path : List Text) (n : Text) (s : Search)
    → Good g path s
    → member n path ≡ false
    → Trail g (path ++ n ∷ [])
    → Good g path (queue_neighbor g n s)
unfolding queue_neighbor
queue_neighbor-Good g path n s i off w =
    if-elim (Good g path) (member n s.rec_stack || leb max_graph_dfs_stack (length s.stack)) _ _ i
      (record {
        at_path = i.at_path;
        same = i.same;
        walk = i.walk;
        simple = i.simple;
        stacked = (w, off, refl, i.stacked);
        found = i.found;
      })

-- The three ways on from a neighbor.
pub visit-full :
    (g : Graph) (n : Text) (ns : List Text) (s : Search)
    → member n s.rec_stack ≡ true
    → leb max_detected_cycles (length (append_cycle n s).cycles) ≡ true
    → visit_neighbors g (n ∷ ns) s ≡ append_cycle n s
unfolding visit_neighbors
visit-full g n ns s h f = rw (h, visit_neighbors) (rw (f, visit_neighbors) refl)

pub visit-cycle :
    (g : Graph) (n : Text) (ns : List Text) (s : Search)
    → member n s.rec_stack ≡ true
    → leb max_detected_cycles (length (append_cycle n s).cycles) ≡ false
    → visit_neighbors g (n ∷ ns) s ≡ visit_neighbors g ns (append_cycle n s)
unfolding visit_neighbors
visit-cycle g n ns s h f = rw (h, visit_neighbors) (rw (f, visit_neighbors) refl)

pub visit-queue :
    (g : Graph) (n : Text) (ns : List Text) (s : Search)
    → member n s.rec_stack ≡ false
    → visit_neighbors g (n ∷ ns) s ≡ visit_neighbors g ns (queue_neighbor g n s)
unfolding visit_neighbors
visit-queue g n ns s h = rw (h, visit_neighbors) refl

visit_neighbors-Good :
    (g : Graph) (path ns : List Text) (s : Search)
    → Good g path s
    → All (λ n. Trail g (path ++ n ∷ [])) ns
    → Good g path (visit_neighbors g ns s)
unfolding visit_neighbors
visit_neighbors-Good g path [] s i w = i
visit_neighbors-Good g path (n ∷ ns) s i w = elim (Bool-cases (member n s.rec_stack)) [
  | inr off ↦
      let off_path : member n path ≡ false = ap (member n) (sym i.same) ∙ off in
      subst (Good g path) (sym (visit-queue g n ns s off)) (
        visit_neighbors-Good g path ns (queue_neighbor g n s)
          (queue_neighbor-Good g path n s i off_path w.0) w.1)
  | inl on ↦
      let j = append_cycle-Good g path n s i (ap (member n) (sym i.same) ∙ on) w.0 in
      elim (Bool-cases (leb max_detected_cycles (length (append_cycle n s).cycles))) [
        | inl full ↦ subst (Good g path) (sym (visit-full g n ns s on full)) j
        | inr room ↦
            subst (Good g path) (sym (visit-cycle g n ns s on room))
              (visit_neighbors-Good g path ns (append_cycle n s) j w.1)
      ]
]

All-members :
    (P : Text → Type 0) (xs : List Text) → ((y : Text) → member y xs ≡ true → P y) → All P xs
unfolding member
All-members P [] f = tt
All-members P (x ∷ xs) f =
    (f x (ground (arith, text_eq_iff x x)), All-members P xs (λ y h. f y (ground (arith, h))))

-- The state in which the neighbors of an entered node are looked at.
entered-Good :
    (g : Graph) (path rest : List Text) (n : Text) (s : Search)
    → Good g path s
    → Trail g (path ++ n ∷ [])
    → member n path ≡ false
    → Good g (path ++ n ∷ []) (entered n s)
entered-Good g path rest n s i w off = record {
  at_path = ap (λ p. p ++ n ∷ []) i.at_path;
  same = ap (add n) i.same ∙ add_new n path off;
  walk = w;
  simple = Simple-append n path off i.simple;
  stacked = (path, refl, i.stacked);
  found = i.found;
}

pub enter-node :
    (g : Graph) (n : Text) (ns : List Text) (s : Search)
    → member n s.rec_stack ≡ false
    → visit_entering_node g n ns s ≡ visit_neighbors g ns (entered n s)
unfolding visit_entering_node
enter-node g n ns s h = rw h refl

-- The search before an item is popped, and the state with the items below it.
abbrev popped : List Frame → Search → Search
popped rest s = record s { stack = rest }

-- A round leaves a good state, at the path that it moves to.
pub round_on-Good :
    (g : Graph) (path : List Text) (frame : Frame) (rest : List Frame) (s : Search)
    → Good g path s
    → s.stack ≡ frame ∷ rest
    → (next : List Text) × Good g next (round_on g frame (record s { stack = rest }))
unfolding round_on finish_node
round_on-Good g path (entering n ns) rest s i e =
    let (w, off, neighbors, below) = subst (λ st. Stacked g st path) e i.stacked in
    let j : Good g path (popped rest s) = record {
      at_path = i.at_path;
      same = i.same;
      walk = i.walk;
      simple = i.simple;
      stacked = below;
      found = i.found;
    } in
    let k = entered-Good g path [] n (popped rest s) j w off in
    let all : All (λ y. Trail g ((path ++ n ∷ []) ++ y ∷ [])) ns =
      subst (All (λ y. Trail g ((path ++ n ∷ []) ++ y ∷ []))) (sym neighbors)
        (All-members _ (neighbors_of g n) (λ y h. Trail-extend g path n y w h)) in
    (
      path ++ n ∷ [],
      subst (Good g (path ++ n ∷ []))
          (sym (enter-node g n ns (popped rest s) (ap (member n) i.same ∙ off)))
          (visit_neighbors-Good g (path ++ n ∷ []) ns (entered n (popped rest s)) k all),
    )
round_on-Good g path (exiting n) rest s i e =
    let (init, shape, below) = subst (λ st. Stacked g st path) e i.stacked in
    let (off, simple) = Simple-front n init (subst Simple shape i.simple) in
    (
      init,
      record {
        at_path = ap without_last (i.at_path ∙ shape) ∙ without_last-append init n;
        same = ap (discard n) (i.same ∙ shape) ∙ discard-append n init off;
        walk = Trail-front g init n (subst (Trail g) shape i.walk);
        simple = simple;
        stacked = below;
        found = i.found;
      },
    )
