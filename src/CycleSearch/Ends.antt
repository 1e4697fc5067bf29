-- ===== src/CycleSearch/Ends.antt =====
-- The search ends, and what it has found then.
use ftllex_engine.Base.{
  ℕ, zero, suc, ◌-◌, ◌≤◌, ◌<◌, ◌≡◌, refl, ap, sym, ◌∙◌, subst, ◌⊎◌, inl, inr, true, false, List, [],
  ◌∷◌, ◌++◌, Text, length, length-append, leb, All, Bool-cases, text_key, member, without_last,
  arith,
}
use ftllex_engine.CycleSearch.{
  Graph, max_detected_cycles, Frame, entering, exiting, Search, finish_node, round_on, search,
  started, nodes_of, rounds,
}
use ftllex_engine.CycleSearch.Walks.{Simple, IsCycle, Simple-append, without_last-append}
use ftllex_engine.CycleSearch.Trails.{Trail, Simple-length, length-neighbors_of}
use ftllex_engine.CycleSearch.Sound.{Stacked, Good, round_on-Good, enter-node}
use ftllex_engine.CycleSearch.Work.{work, count_of, left_to_do, entering-work}

search-full :
    (g : Graph) (fuel : ℕ) (s : Search)
    → leb max_detected_cycles (length s.cycles) ≡ true
    → search g (suc fuel) s ≡ s
unfolding search
search-full g fuel s h = rw (h, search) refl

search-empty : (g : Graph) (fuel : ℕ) (s : Search) → s.stack ≡ [] → search g (suc fuel) s ≡ s
unfolding search
search-empty g fuel s h = elim (Bool-cases (leb max_detected_cycles (length s.cycles))) [
  | inl t ↦ rw (t, search) refl
  | inr f ↦ rw (f, search) (simp (h, search) refl)
]

search-round :
    (g : Graph) (fuel : ℕ) (s : Search) (frame : Frame) (rest : List Frame)
    → leb max_detected_cycles (length s.cycles) ≡ false
    → s.stack ≡ frame ∷ rest
    → search g (suc fuel) s ≡ search g fuel (round_on g frame (record s { stack = rest }))
unfolding search
search-round g fuel s frame rest h e = rw (h, search) (simp (e, search) refl)

-- A path on which every node is a node of the graph has room for one more that it does not have.
short_path :
    (g : Graph) (path : List Text) (n : Text)
    → Trail g (path ++ n ∷ [])
    → member n path ≡ false
    → Simple path
    → length path < count_of g
short_path g path n t off d = omega (
  arith,
  length-append path (n ∷ []),
  Simple-length (path ++ n ∷ []) (nodes_of g) (Simple-append n path off d) t.1,
)

-- Every round leaves less to do.
round-work :
    (g : Graph) (path : List Text) (frame : Frame) (rest : List Frame) (s : Search)
    → Good g path s
    → s.stack ≡ frame ∷ rest
    → left_to_do g (round_on g frame (record s { stack = rest })) < left_to_do g s
unfolding round_on finish_node
round-work g path (entering n ns) rest s i e =
    let (t, off, neighbors, below) = subst (λ st. Stacked g st path) e i.stacked in
    let short : length s.path < count_of g =
      omega (arith, ap length i.at_path, short_path g path n t off i.simple) in
    let narrow : length ns ≤ count_of g =
      omega (arith, ap length neighbors, length-neighbors_of g n) in
    let now = enter-node g n ns (record s { stack = rest }) (ap (member n) i.same ∙ off) in
    omega (
      arith,
      ap (left_to_do g) now,
      entering-work g n ns rest s narrow short,
      ap (λ st. work (count_of g) (count_of g) st (length s.path)) e,
    )
round-work g path (exiting n) rest s i e =
    let (init, shape, below) = subst (λ st. Stacked g st path) e i.stacked in
    let on : s.path ≡ init ++ n ∷ [] = i.at_path ∙ shape in
    let shorter : length (without_last s.path) ≡ length s.path - 1 = omega (
      arith,
      ap length (ap without_last on ∙ without_last-append init n),
      ap length on,
      length-append init (n ∷ []),
    ) in
    omega (
      arith,
      ap (work (count_of g) (count_of g) rest) shorter,
      ap (λ st. work (count_of g) (count_of g) st (length s.path)) e,
    )

rounds-pos : (width depth : ℕ) → 1 ≤ rounds width depth
rounds-pos width zero = omega arith
rounds-pos width (suc depth) = omega arith

nothing_left : (w : ℕ) (stack : List Frame) (depth : ℕ) → work w w stack depth ≤ 0 → stack ≡ []
nothing_left w [] depth le = refl
nothing_left w (entering n ns ∷ rest) depth le = absurd (omega (arith, rounds-pos w (w - depth)))
nothing_left w (exiting n ∷ rest) depth le = absurd (omega arith)

-- What holds when the loop is left: all that was found are cycles, and the stack is empty or the limit
-- on the number of cycles is reached.
pub record Ended (g : Graph) (s : Search) : Type 0 where
  pub found : All (IsCycle g) s.cycles
  pub finished : (s.stack ≡ []) ⊎ (max_detected_cycles ≤ length s.cycles)

stack_cases :
    (stack : List Frame)
    → (stack ≡ []) ⊎ ((frame : Frame) × (rest : List Frame) × (stack ≡ frame ∷ rest))
stack_cases [] = inl refl
stack_cases (frame ∷ rest) = inr (frame, rest, refl)

search-Ended :
    (g : Graph) (fuel : ℕ) (path : List Text) (s : Search)
    → Good g path s
    → left_to_do g s ≤ fuel
    → Ended g (search g fuel s)
unfolding search
search-Ended g zero path s i le = record {
  found = i.found;
  finished = inl (nothing_left (count_of g) s.stack (length s.path) le);
}
search-Ended g (suc fuel) path s i le =
    elim (Bool-cases (leb max_detected_cycles (length s.cycles))) [
      | inl full ↦
          subst (Ended g) (sym (search-full g fuel s full))
            (record { found = i.found; finished = inr (ground arith) })
      | inr room ↦ elim (stack_cases s.stack) [
        | inl empty ↦
            subst (Ended g) (sym (search-empty g fuel s empty))
              (record { found = i.found; finished = inl empty })
        | inr (frame, rest, e) ↦
            let (next, j) = round_on-Good g path frame rest s i e in
            subst (Ended g) (sym (search-round g fuel s frame rest room e)) (
              search-Ended g fuel next (round_on g frame (record s { stack = rest })) j
                (omega (arith, round-work g path frame rest s i e)))
      ]
    ]

-- A search from a start node begins in a good state, and with no more to do than `rounds` allows.
started-Good :
    (g : Graph) (node : Text) (s : Search)
    → member node (nodes_of g) ≡ true
    → All (IsCycle g) s.cycles
    → Good g [] (started g node s)
unfolding member
started-Good g node s known found = record {
  at_path = refl;
  same = refl;
  walk = (tt, tt);
  simple = tt;
  stacked = ((tt, (known, tt)), refl, refl, refl);
  found = found;
}

-- For every graph and every start node among its nodes, with whatever cycles were found before, the
-- fuel that `detect_cycles` gives to a search is enough: the search leaves its loop because the work
-- stack is empty or the limit on the number of cycles is reached, and all that it reports are cycles.
pub search-ends :
    (g : Graph) (node : Text) (s : Search)
    → member node (nodes_of g) ≡ true
    → All (IsCycle g) s.cycles
    → Ended g (search g (rounds (count_of g) (count_of g)) (started g node s))
search-ends g node s known found =
    search-Ended g (rounds (count_of g) (count_of g)) [] (started g node s)
      (started-Good g node s known found)
      (let all : count_of g - 0 ≡ count_of g = omega arith in
        omega (arith, ap (rounds (count_of g)) all))
