-- ===== src/CycleSearch/Work.antt =====
-- What is left to do goes down with every round.
use ftllex_engine.Base.{
  ℕ, zero, suc, ◌+◌, ◌-◌, ◌*◌, ◌≤◌, ◌<◌, ◌≡◌, refl, ap, ◌∙◌, inl, inr, ◌||◌, List, [], ◌∷◌, Text,
  length, length-append, leb, if-elim, Bool-cases, text_key, member, arith,
}
use ftllex_engine.CycleSearch.{
  Graph, max_detected_cycles, max_graph_dfs_stack, Frame, entering, exiting, Search, append_cycle,
  is_seen, cycle_at, queue_neighbor, visit_neighbors, entered, nodes_of, rounds,
}
use ftllex_engine.ReferenceGraph.{canonicalize_cycle}
use ftllex_engine.CycleSearch.Sound.{visit-full, visit-cycle, visit-queue}

-- The rounds that the items of a work stack may cost, at a path of `depth` nodes.
abbrev pub work : ℕ → ℕ → List Frame → ℕ → ℕ
work width count [] depth = 0
work width count (entering n ns ∷ rest) depth =
    rounds width (count - depth) + work width count rest depth
work width count (exiting n ∷ rest) depth = 1 + work width count rest (depth - 1)

append_cycle-stack : (n : Text) (s : Search) → (append_cycle n s).stack ≡ s.stack
unfolding append_cycle
append_cycle-stack n s =
    if-elim {A = Search} (λ x. x.stack ≡ s.stack)
      (is_seen (canonicalize_cycle (cycle_at n s.path)) s.seen_canonical) _ _ refl refl

queue-work :
    (g : Graph) (width count depth : ℕ) (n : Text) (s : Search)
    → work width count (queue_neighbor g n s).stack depth
      ≤ rounds width (count - depth) + work width count s.stack depth
unfolding queue_neighbor
queue-work g width count depth n s =
    if-elim {A = Search}
      (λ x.
        work width count x.stack depth
        ≤ rounds width (count - depth) + work width count s.stack depth)
      (member n s.rec_stack || leb max_graph_dfs_stack (length s.stack)) _ _ (omega arith)
      (omega arith)

visit-work :
    (g : Graph) (width count depth : ℕ) (ns : List Text) (s : Search)
    → work width count (visit_neighbors g ns s).stack depth
      ≤ length ns * rounds width (count - depth) + work width count s.stack depth
unfolding visit_neighbors
visit-work g width count depth [] s = omega arith
visit-work g width count depth (n ∷ ns) s =
    let cost = rounds width (count - depth) in
    let more : suc (length ns) * cost ≡ cost + length ns * cost = omega arith in
    elim (Bool-cases (member n s.rec_stack)) [
      | inr off ↦ omega (
        arith,
        ap (λ x. work width count x.stack depth) (visit-queue g n ns s off),
        queue-work g width count depth n s,
        visit-work g width count depth ns (queue_neighbor g n s),
        more,
      )
      | inl on ↦
          let same = ap (λ x. work width count x depth) (append_cycle-stack n s) in
          elim (Bool-cases (leb max_detected_cycles (length (append_cycle n s).cycles))) [
            | inl full ↦ omega (
              arith,
              ap (λ x. work width count x.stack depth) (visit-full g n ns s on full),
              same,
              more,
            )
            | inr room ↦ omega (
              arith,
              ap (λ x. work width count x.stack depth) (visit-cycle g n ns s on room),
              same,
              more,
              visit-work g width count depth ns (append_cycle n s),
            )
          ]
    ]

append_cycle-path : (n : Text) (s : Search) → (append_cycle n s).path ≡ s.path
unfolding append_cycle
append_cycle-path n s =
    if-elim {A = Search} (λ x. x.path ≡ s.path)
      (is_seen (canonicalize_cycle (cycle_at n s.path)) s.seen_canonical) _ _ refl refl

queue-path : (g : Graph) (n : Text) (s : Search) → (queue_neighbor g n s).path ≡ s.path
unfolding queue_neighbor
queue-path g n s =
    if-elim {A = Search} (λ x. x.path ≡ s.path)
      (member n s.rec_stack || leb max_graph_dfs_stack (length s.stack)) _ _ refl refl

visit-path : (g : Graph) (ns : List Text) (s : Search) → (visit_neighbors g ns s).path ≡ s.path
unfolding visit_neighbors
visit-path g [] s = refl
visit-path g (n ∷ ns) s = elim (Bool-cases (member n s.rec_stack)) [
  | inr off ↦
      ap (λ x. x.path) (visit-queue g n ns s off)
      ∙ visit-path g ns (queue_neighbor g n s)
      ∙ queue-path g n s
  | inl on ↦ elim (Bool-cases (leb max_detected_cycles (length (append_cycle n s).cycles))) [
    | inl full ↦ ap (λ x. x.path) (visit-full g n ns s on full) ∙ append_cycle-path n s
    | inr room ↦
        ap (λ x. x.path) (visit-cycle g n ns s on room)
        ∙ visit-path g ns (append_cycle n s)
        ∙ append_cycle-path n s
  ]
]

-- The number of nodes, with which both the width and the depth of the search are bounded.
abbrev pub count_of : Graph → ℕ
count_of g = length (nodes_of g)

-- What is left to do in a state.
abbrev pub left_to_do : Graph → Search → ℕ
left_to_do g s = work (count_of g) (count_of g) s.stack (length s.path)

mul_le_mul : (a b c : ℕ) → a ≤ b → a * c ≤ b * c
mul_le_mul zero b c le = omega arith
mul_le_mul (suc a) zero c le = absurd (omega arith)
mul_le_mul (suc a) (suc b) c le = omega (arith, mul_le_mul a b c (omega arith))

pub entering-work :
    (g : Graph) (n : Text) (ns : List Text) (rest : List Frame) (s : Search)
    → length ns ≤ count_of g
    → length s.path < count_of g
    → left_to_do g (visit_neighbors g ns (entered n (record s { stack = rest })))
      < rounds (count_of g) (count_of g - length s.path)
        + work (count_of g) (count_of g) rest (length s.path)
entering-work g n ns rest s narrow short =
    let w = count_of g in
    let d = length s.path in
    let deeper = entered n (record s { stack = rest }) in
    let depth : length (visit_neighbors g ns deeper).path ≡ d + 1 =
      ap length (visit-path g ns deeper) ∙ length-append s.path (n ∷ []) in
    let cost : work w w (visit_neighbors g ns deeper).stack (d + 1)
        ≤ length ns * rounds w (w - (d + 1)) + (1 + work w w rest (d + 1 - 1)) =
      visit-work g w w (d + 1) ns deeper in
    let back : d + 1 - 1 ≡ d = omega arith in
    let level : w - d ≡ suc (w - (d + 1)) = omega arith in
    let unfolded : rounds w (w - d) ≡ 2 + w * rounds w (w - (d + 1)) = ap (rounds w) level in
    omega (
      arith,
      ap (work w w (visit_neighbors g ns deeper).stack) depth,
      cost,
      ap (work w w rest) back,
      unfolded,
      mul_le_mul (length ns) w (rounds w (w - (d + 1))) narrow,
    )
