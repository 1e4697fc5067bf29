-- ===== src/ReferenceGraph.antt =====
-- src/ftllexengine/core/reference_graph.py: dependency graphs and their cycles.
pub mod Rotation
pub mod Canonical
use ftllex_engine.Base.{
  ℕ, zero, suc, ◌+◌, Bool, true, false, not, ◌||◌, ◌&&◌, Option, none, some, List, [], ◌∷◌, ◌++◌,
  Text, text_eq, length, take, drop, ltb, leb, ◌==◌, if◌then◌else◌,
}

-- `a < b` of two strings: by code points, a beginning before its continuations.
unfoldable pub text_lt : Text → Text → Bool
text_lt a [] = false
text_lt [] (y ∷ b) = true
text_lt (x ∷ a) (y ∷ b) = if x == y then text_lt a b else ltb x y

-- `min(nodes)`: the first of the least elements.
unfoldable pub least : Text → List Text → Text
least m [] = m
least m (x ∷ nodes) = least (if text_lt x m then x else m) nodes

-- `nodes.index(node)` of an element; behind the end where there is none.
unfoldable pub index_of : Text → List Text → ℕ
index_of node [] = 0
index_of node (x ∷ nodes) = if text_eq x node then 0 else suc (index_of node nodes)

-- `nodes[i:] + nodes[:i]`.
abbrev pub rotate : ℕ → List Text → List Text
rotate i nodes = drop i nodes ++ take i nodes

-- `(*rotated, rotated[0])`.
abbrev pub closed : List Text → List Text
closed [] = []
closed (x ∷ rotated) = (x ∷ rotated) ++ x ∷ []

-- `cycle[:-1]`.
abbrev pub opened : List Text → List Text
opened [] = []
opened (x ∷ []) = []
opened (x ∷ y ∷ cycle) = x ∷ opened (y ∷ cycle)

-- The canonical order of the nodes of a cycle.
unfoldable pub canonical_nodes : List Text → List Text
canonical_nodes [] = []
canonical_nodes (x ∷ nodes) = rotate (index_of (least x nodes) (x ∷ nodes)) (x ∷ nodes)

unfoldable pub canonicalize_cycle : List Text → List Text
canonicalize_cycle [] = []
canonicalize_cycle (x ∷ []) = x ∷ []
canonicalize_cycle (x ∷ y ∷ cycle) = closed (canonical_nodes (opened (x ∷ y ∷ cycle)))
