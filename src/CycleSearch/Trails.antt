-- ===== src/CycleSearch/Trails.antt =====
-- Walks along nodes of the graph, and how long they can be.
use ftllex_engine.Base.{
  suc, ◌≤◌, ◌≡◌, refl, ap, subst, inl, inr, true, false, List, [], ◌∷◌, ◌++◌, Text, text_eq,
  text_eq_iff, length, length-append, All, All-append, if◌then◌else◌, Bool-cases, none, some,
  lookup, text_key, member, discard, arith,
}
use ftllex_engine.CycleSearch.{nodes_of, Graph, neighbors_of}
use ftllex_engine.CycleSearch.Walks.{Walk, Simple, Walk-extend, Walk-front}

-- A walk along nodes of the graph.
abbrev pub Trail : Graph → List Text → Type 0
Trail g nodes = Walk g nodes × All (λ y. member y (nodes_of g) ≡ true) nodes

pub member-concat :
    (y : Text) (xs ys : List Text)
    → member y (xs ++ ys) ≡ (if member y xs then true else member y ys)
unfolding member
member-concat y [] ys = refl
member-concat y (x ∷ xs) ys = ground (arith, member-concat y xs ys)

neighbors_here :
    (k x : Text) (ns : List Text) (g : Graph)
    → text_eq k x ≡ true
    → neighbors_of ((k, ns) ∷ g) x ≡ ns
unfolding neighbors_of lookup
neighbors_here k x ns g h =
    ap (λ o. elim o [ none ↦ [] | some neighbors ↦ neighbors ]) (lookup_here h)
  where
    lookup_here : text_eq k x ≡ true → lookup x ((k, ns) ∷ g) ≡ some ns
    lookup_here h = rw h refl

neighbors_later :
    (k x : Text) (ns : List Text) (g : Graph)
    → text_eq k x ≡ false
    → neighbors_of ((k, ns) ∷ g) x ≡ neighbors_of g x
unfolding neighbors_of lookup
neighbors_later k x ns g h =
    ap (λ o. elim o [ none ↦ [] | some neighbors ↦ neighbors ]) (lookup_later h)
  where
    lookup_later : text_eq k x ≡ false → lookup x ((k, ns) ∷ g) ≡ lookup x g
    lookup_later h = rw h refl

neighbor-node :
    (g : Graph) (x y : Text) → member y (neighbors_of g x) ≡ true → member y (nodes_of g) ≡ true
unfolding member neighbors_of lookup
neighbor-node [] x y h = h
neighbor-node ((k, ns) ∷ g) x y h = elim (Bool-cases (text_eq k x)) [
  | inl t ↦
      let here : member y ns ≡ true =
        subst (λ l. member y l ≡ true) (neighbors_here k x ns g t) h in
      ground (arith, member-concat y ns (nodes_of g))
  | inr f ↦
      let later =
        neighbor-node g x y (subst (λ l. member y l ≡ true) (neighbors_later k x ns g f) h) in
      ground (arith, member-concat y ns (nodes_of g))
]

no_neighbors : (x : Text) → length (neighbors_of [] x) ≤ 0
unfolding neighbors_of lookup
no_neighbors x = omega arith

pub length-neighbors_of : (g : Graph) (x : Text) → length (neighbors_of g x) ≤ length (nodes_of g)
length-neighbors_of [] x = no_neighbors x
length-neighbors_of ((k, ns) ∷ g) x = elim (Bool-cases (text_eq k x)) [
  | inl t ↦ omega (arith, ap length (neighbors_here k x ns g t), length-append ns (nodes_of g))
  | inr f ↦ omega (
    arith,
    ap length (neighbors_later k x ns g f),
    length-append ns (nodes_of g),
    length-neighbors_of g x,
  )
]

pub Trail-extend :
    (g : Graph) (a : List Text) (x y : Text)
    → Trail g (a ++ x ∷ [])
    → member y (neighbors_of g x) ≡ true
    → Trail g ((a ++ x ∷ []) ++ y ∷ [])
Trail-extend g a x y (w, k) h =
    (Walk-extend g a x y w h, All-append _ (a ++ x ∷ []) (y ∷ []) k (neighbor-node g x y h, tt))

pub Trail-front : (g : Graph) (a : List Text) (x : Text) → Trail g (a ++ x ∷ []) → Trail g a
Trail-front g a x (w, k) = (Walk-front g a x w, All-front a (x ∷ []) k)
  where
    All-front :
        (a b : List Text)
        → All (λ y. member y (nodes_of g) ≡ true) (a ++ b)
        → All (λ y. member y (nodes_of g) ≡ true) a
    All-front [] b h = tt
    All-front (z ∷ a) b h = (h.0, All-front a b h.1)

-- A simple list of nodes is no longer than the list of all nodes.
discard-other :
    (x y : Text) (xs : List Text)
    → text_eq x y ≡ false
    → member y xs ≡ true
    → member y (discard x xs) ≡ true
unfolding member discard
discard-other x y [] h m = m
discard-other x y (z ∷ xs) h m =
    ground (arith, discard-other x y xs h, text_eq_iff z x, text_eq_iff z y, text_eq_iff x y)

length-discard :
    (x : Text) (xs : List Text) → member x xs ≡ true → suc (length (discard x xs)) ≡ length xs
unfolding member discard
length-discard x [] h = absurd cc
length-discard x (z ∷ xs) h = ground (arith, length-discard x xs)

All-discard :
    (x : Text) (nodes all : List Text)
    → member x nodes ≡ false
    → All (λ y. member y all ≡ true) nodes
    → All (λ y. member y (discard x all) ≡ true) nodes
unfolding member
All-discard x [] all h k = tt
All-discard x (y ∷ nodes) all h k = (
  discard-other x y all (ground (arith, text_eq_iff x y, text_eq_iff y x)) k.0,
  All-discard x nodes all (ground arith) k.1,
)

pub Simple-length :
    (nodes all : List Text)
    → Simple nodes
    → All (λ y. member y all ≡ true) nodes
    → length nodes ≤ length all
Simple-length [] all d k = omega arith
Simple-length (x ∷ nodes) all d k = omega (
  arith,
  length-discard x all k.0,
  Simple-length nodes (discard x all) d.1 (All-discard x nodes all d.0 k.1),
)
