-- ===== src/CycleSearch/Report.antt =====
-- What `detect_cycles` reports.
use ftllex_engine.Base.{
  ℕ, ◌≡◌, refl, sym, subst, inl, inr, true, false, List, [], ◌∷◌, ◌++◌, Text, text_eq_iff, length,
  leb, All, Bool-cases, member, arith,
}
use ftllex_engine.CycleSearch.{
  Graph, max_detected_cycles, Search, search, started, search_all, keys, nodes_of, rounds,
  detect_cycles,
}
use ftllex_engine.CycleSearch.Walks.{IsCycle}
use ftllex_engine.CycleSearch.Trails.{member-concat}
use ftllex_engine.CycleSearch.Work.{count_of}
use ftllex_engine.CycleSearch.Ends.{search-ends}

all-skip :
    (g : Graph) (fuel : ℕ) (node : Text) (nodes : List Text) (s : Search)
    → member node s.globally_visited ≡ true
    → search_all g fuel (node ∷ nodes) s ≡ search_all g fuel nodes s
unfolding search_all
all-skip g fuel node nodes s h = rw (h, search_all) refl

all-full :
    (g : Graph) (fuel : ℕ) (node : Text) (nodes : List Text) (s : Search)
    → member node s.globally_visited ≡ false
    → leb max_detected_cycles (length s.cycles) ≡ true
    → search_all g fuel (node ∷ nodes) s ≡ s
unfolding search_all
all-full g fuel node nodes s h f = rw (h, search_all) (rw (f, search_all) refl)

all-search :
    (g : Graph) (fuel : ℕ) (node : Text) (nodes : List Text) (s : Search)
    → member node s.globally_visited ≡ false
    → leb max_detected_cycles (length s.cycles) ≡ false
    → search_all g fuel (node ∷ nodes) s
      ≡ search_all g fuel nodes (search g fuel (started g node s))
unfolding search_all
all-search g fuel node nodes s h f = rw (h, search_all) (rw (f, search_all) refl)

search_all-IsCycle :
    (g : Graph) (nodes : List Text) (s : Search)
    → All (λ y. member y (nodes_of g) ≡ true) nodes
    → All (IsCycle g) s.cycles
    → All (IsCycle g) (search_all g (rounds (count_of g) (count_of g)) nodes s).cycles
unfolding search_all
search_all-IsCycle g [] s k found = found
search_all-IsCycle g (node ∷ nodes) s k found =
    let fuel = rounds (count_of g) (count_of g) in
    let P : Search → Type 0 = λ x. All (IsCycle g) x.cycles in
    elim (Bool-cases (member node s.globally_visited)) [
      | inl visited ↦
          subst P (sym (all-skip g fuel node nodes s visited))
            (search_all-IsCycle g nodes s k.1 found)
      | inr new ↦ elim (Bool-cases (leb max_detected_cycles (length s.cycles))) [
        | inl full ↦ subst P (sym (all-full g fuel node nodes s new full)) found
        | inr room ↦ subst P (sym (all-search g fuel node nodes s new room)) (
            search_all-IsCycle g nodes (search g fuel (started g node s)) k.1
              (search-ends g node s k.0 found).found)
      ]
    ]

keys_later :
    (nodes : List Text) (node : Text) (neighbors all : List Text)
    → All (λ y. member y all ≡ true) nodes
    → All (λ y. member y (node ∷ (neighbors ++ all)) ≡ true) nodes
unfolding member
keys_later [] node neighbors all h = tt
keys_later (y ∷ nodes) node neighbors all h =
    (ground (arith, h.0, member-concat y neighbors all), keys_later nodes node neighbors all h.1)

keys-nodes_of : (g : Graph) → All (λ y. member y (nodes_of g) ≡ true) (keys g)
unfolding member
keys-nodes_of [] = tt
keys-nodes_of ((node, neighbors) ∷ g) = (
  ground (arith, text_eq_iff node node),
  keys_later (keys g) node neighbors (nodes_of g) (keys-nodes_of g),
)

-- For every graph, each cycle that `detect_cycles` reports is a walk along dependencies that ends at
-- its first node and meets no node twice before.
pub detect_cycles-IsCycle : (g : Graph) → All (IsCycle g) (detect_cycles g)
unfolding detect_cycles
detect_cycles-IsCycle g = search_all-IsCycle g (keys g) _ (keys-nodes_of g) tt
