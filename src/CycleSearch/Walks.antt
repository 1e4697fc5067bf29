-- ===== src/CycleSearch/Walks.antt =====
-- Walks along the dependencies, and the cycles among them.
use ftllex_engine.Base.{
  ◌≡◌, refl, ap, sym, ◌∙◌, subst, inl, inr, true, false, List, [], ◌∷◌, ◌++◌, append_assoc, Text,
  text_eq, text_eq_iff, drop, if◌then◌else◌, Bool-cases, text_key, member, add, discard,
  without_last, arith,
}
use ftllex_engine.ReferenceGraph.{index_of}
use ftllex_engine.CycleSearch.{Graph, neighbors_of, cycle_at}

-- From each node to the next there is a dependency.
abbrev pub Walk : Graph → List Text → Type 0
Walk g [] = Unit
Walk g (x ∷ []) = Unit
Walk g (x ∷ y ∷ nodes) = (member y (neighbors_of g x) ≡ true) × Walk g (y ∷ nodes)

-- No node stands twice.
abbrev pub Simple : List Text → Type 0
Simple [] = Unit
Simple (x ∷ nodes) = (member x nodes ≡ false) × Simple nodes

-- A walk back to its first node that meets no node twice before.
pub record IsCycle (g : Graph) (cycle : List Text) : Type 0 where
  pub first : Text
  pub rest : List Text
  pub shape : cycle ≡ first ∷ (rest ++ first ∷ [])
  pub walk : Walk g cycle
  pub simple : Simple (first ∷ rest)

pub Walk-behind : (g : Graph) (a b : List Text) → Walk g (a ++ b) → Walk g b
Walk-behind g [] b w = w
Walk-behind g (x ∷ []) [] w = tt
Walk-behind g (x ∷ []) (y ∷ b) w = w.1
Walk-behind g (x ∷ z ∷ a) b w = Walk-behind g (z ∷ a) b w.1

-- One node more.
pub Walk-extend :
    (g : Graph) (a : List Text) (x y : Text)
    → Walk g (a ++ x ∷ [])
    → member y (neighbors_of g x) ≡ true
    → Walk g ((a ++ x ∷ []) ++ y ∷ [])
Walk-extend g [] x y w h = (h, tt)
Walk-extend g (z ∷ []) x y w h = (w.0, (h, tt))
Walk-extend g (z ∷ u ∷ a) x y w h = (w.0, Walk-extend g (u ∷ a) x y w.1 h)

pub Walk-front : (g : Graph) (a : List Text) (x : Text) → Walk g (a ++ x ∷ []) → Walk g a
Walk-front g [] x w = tt
Walk-front g (z ∷ []) x w = tt
Walk-front g (z ∷ u ∷ a) x w = (w.0, Walk-front g (u ∷ a) x w.1)

pub member-append :
    (key j : Text) (xs : List Text)
    → member j (xs ++ key ∷ []) ≡ (if member j xs then true else text_eq key j)
unfolding member
member-append key j [] = ground arith
member-append key j (x ∷ xs) = ground (arith, member-append key j xs)

pub Simple-append :
    (key : Text) (xs : List Text) → member key xs ≡ false → Simple xs → Simple (xs ++ key ∷ [])
unfolding member
Simple-append key [] h d = (refl, tt)
Simple-append key (x ∷ xs) h d = (
  ground (arith, member-append key x xs, text_eq_iff x key, text_eq_iff key x, d.0),
  Simple-append key xs (ground arith) d.1,
)

pub Simple-front :
    (key : Text) (xs : List Text) → Simple (xs ++ key ∷ []) → (member key xs ≡ false) × Simple xs
unfolding member
Simple-front key [] d = (refl, tt)
Simple-front key (x ∷ xs) d =
    let (a, b) = Simple-front key xs d.1 in
    let c = d.0 in
    let apart : member x xs ≡ false = ground (arith, member-append key x xs) in
    (ground (arith, member-append key x xs, text_eq_iff x key, text_eq_iff key x), (apart, b))

Simple-behind : (a b : List Text) → Simple (a ++ b) → Simple b
Simple-behind [] b d = d
Simple-behind (x ∷ a) b d = Simple-behind a b d.1

pub add_new : (key : Text) (xs : List Text) → member key xs ≡ false → add key xs ≡ xs ++ key ∷ []
unfolding member add
add_new key [] h = refl
add_new key (x ∷ xs) h = ground (arith, add_new key xs)

pub discard-append :
    (key : Text) (xs : List Text) → member key xs ≡ false → discard key (xs ++ key ∷ []) ≡ xs
unfolding member discard
discard-append key [] h = ground (arith, text_eq_iff key key)
discard-append key (x ∷ xs) h = ground (arith, discard-append key xs)

pub without_last-append : (xs : List Text) (key : Text) → without_last (xs ++ key ∷ []) ≡ xs
unfolding without_last
without_last-append [] key = refl
without_last-append (x ∷ []) key = refl
without_last-append (x ∷ y ∷ xs) key = ap (◌∷◌ x) (without_last-append (y ∷ xs) key)

-- Where a member stands: what is dropped in front of it, and what follows.
found_at :
    (n : Text) (path : List Text)
    → member n path ≡ true
    → (a : List Text) × (b : List Text) × (path ≡ a ++ n ∷ b)
      × (drop (index_of n path) path ≡ n ∷ b)
unfolding member index_of
found_at n [] h = absurd cc
found_at n (x ∷ path) h = elim (Bool-cases (text_eq x n)) [
  | inl t ↦ (
    [],
    path,
    ap (λ y. y ∷ path) ((text_eq_iff x n).0 t),
    rw t (ap (λ y. y ∷ path) ((text_eq_iff x n).0 t)),
  )
  | inr f ↦ let (a, b, e, d) = found_at n path (rw f at h) in (x ∷ a, b, ap (◌∷◌ x) e, rw f d)
]

-- A neighbor of the last node that stands on the path closes a cycle.
pub cycle_at-IsCycle :
    (g : Graph) (n : Text) (path : List Text)
    → member n path ≡ true
    → Walk g (path ++ n ∷ [])
    → Simple path
    → IsCycle g (cycle_at n path)
unfolding cycle_at
cycle_at-IsCycle g n path h w d =
    let (a, b, e, behind) = found_at n path h in
    let shape : drop (index_of n path) path ++ n ∷ [] ≡ n ∷ (b ++ n ∷ []) =
      ap (λ l. l ++ n ∷ []) behind in
    let all : path ++ n ∷ [] ≡ a ++ (n ∷ (b ++ n ∷ [])) =
      ap (λ l. l ++ n ∷ []) e ∙ append_assoc a (n ∷ b) (n ∷ []) in
    record {
      first = n;
      rest = b;
      shape = shape;
      walk =
          subst (Walk g) (sym shape) (Walk-behind g a (n ∷ (b ++ n ∷ [])) (subst (Walk g) all w));
      simple = Simple-behind a (n ∷ b) (subst Simple e d);
    }
