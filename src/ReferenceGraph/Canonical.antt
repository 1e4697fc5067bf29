-- ===== src/ReferenceGraph/Canonical.antt =====
-- The canonical form of a cycle, wherever it is entered.
use ftllex_engine.Base.{
  ◌≡◌, refl, ap, sym, ◌∙◌, subst, inl, inr, true, false, List, [], ◌∷◌, ◌++◌, append_assoc,
  append-nil, Text, text_eq_iff, Bool-cases,
}
use ftllex_engine.ReferenceGraph.{
  text_lt, least, index_of, rotate, closed, canonical_nodes, canonicalize_cycle,
}
use ftllex_engine.ReferenceGraph.Rotation.{
  Apart, Distinct, Below, Place, place, Below-append, Below-parts, Apart-append, Apart-parts,
  text_lt_irrefl, text_lt_trans, text_lt_total, index_of-append, rotate-append, opened-closed,
}

-- `m` is no more than `r` whenever `x` is not less than `m`.
not_below : (x m r : Text) → text_lt x m ≡ false → text_lt m r ≡ false → text_lt x r ≡ false
not_below x m r h g = elim (Bool-cases (text_lt x r)) [
  | inr f ↦ f
  | inl t ↦ elim (Bool-cases (text_lt m x)) [
    | inl u ↦ let both = text_lt_trans m x r u t in absurd cc
    | inr u ↦ let both = subst (λ y. text_lt y r ≡ true) (text_lt_total x m h u) t in absurd cc
  ]
]

before_least : (x m r : Text) → text_lt x m ≡ true → text_lt x r ≡ false → text_lt m r ≡ false
before_least x m r h g = elim (Bool-cases (text_lt m r)) [
  | inr f ↦ f
  | inl t ↦ let both = text_lt_trans x m r h t in absurd cc
]

least-less :
    (m x : Text) (nodes : List Text) → text_lt x m ≡ true → least m (x ∷ nodes) ≡ least x nodes
unfolding least
least-less m x nodes h = rw h refl

least-other :
    (m x : Text) (nodes : List Text) → text_lt x m ≡ false → least m (x ∷ nodes) ≡ least m nodes
unfolding least
least-other m x nodes h = rw h refl

least-Below : (m : Text) (nodes : List Text) → Below (least m nodes) (m ∷ nodes)
unfolding least
least-Below m [] = (text_lt_irrefl m, tt)
least-Below m (x ∷ nodes) = elim (Bool-cases (text_lt x m)) [
  | inl t ↦
      let (a, b) = least-Below x nodes in
      subst (λ r. Below r (m ∷ x ∷ nodes)) (sym (least-less m x nodes t))
        (before_least x m (least x nodes) t a, (a, b))
  | inr f ↦
      let (a, b) = least-Below m nodes in
      subst (λ r. Below r (m ∷ x ∷ nodes)) (sym (least-other m x nodes f))
        (a, (not_below x m (least m nodes) f a, b))
]

least-Apart : (m : Text) (nodes : List Text) → ¬ Apart (least m nodes) (m ∷ nodes)
unfolding least
least-Apart m [] h = let same = (text_eq_iff m m).1 refl in let differ = h.0 in absurd cc
least-Apart m (x ∷ nodes) h = elim (Bool-cases (text_lt x m)) [
  | inl t ↦ least-Apart x nodes (subst (λ r. Apart r (m ∷ x ∷ nodes)) (least-less m x nodes t) h).1
  | inr f ↦
      let (a, (b, c)) = subst (λ r. Apart r (m ∷ x ∷ nodes)) (least-other m x nodes f) h in
      least-Apart m nodes (a, c)
]

-- Where the least node of a list stands.
abbrev pub LeastPlace : List Text → Type 0
LeastPlace nodes = (m : Text) × Below m nodes × Place m nodes

least-Place : (x : Text) (nodes : List Text) → Place (least x nodes) (x ∷ nodes)
least-Place x nodes = elim (place (least x nodes) (x ∷ nodes)) [
  | inl p ↦ p
  | inr apart ↦ absurd (least-Apart x nodes apart)
]

-- Two least nodes of one list are the same.
same_least :
    (m : Text) (a b : List Text) (r : Text)
    → Below r (a ++ m ∷ b)
    → Below m (a ++ m ∷ b)
    → Place r (a ++ m ∷ b)
    → r ≡ m
same_least m a b r p q (c, d, e, apart) =
    let (_, u) = Below-parts r a (m ∷ b) p in
    let (_, v) = Below-parts m c (r ∷ d) (subst (Below m) e q) in sym (text_lt_total m r u.0 v.0)

cons_form :
    (nodes a : List Text) (m : Text) (b : List Text)
    → nodes ≡ a ++ m ∷ b
    → (x : Text) × (rest : List Text) × (nodes ≡ x ∷ rest)
cons_form nodes [] m b e = (m, b, e)
cons_form nodes (x ∷ a) m b e = (x, a ++ m ∷ b, e)

rotated_at :
    (x : Text) (rest a : List Text) (m : Text) (b : List Text)
    → x ∷ rest ≡ a ++ m ∷ b
    → Apart m a
    → least x rest ≡ m
    → canonical_nodes (x ∷ rest) ≡ (m ∷ b) ++ a
unfolding canonical_nodes
rotated_at x rest a m b e apart same =
    ap (λ r. rotate (index_of r (x ∷ rest)) (x ∷ rest)) same
    ∙ ap (λ l. rotate (index_of m l) l) e
    ∙ ap (λ i. rotate i (a ++ m ∷ b)) (index_of-append m a b apart)
    ∙ rotate-append a (m ∷ b)

-- The canonical order begins with the least node.
canonical_at :
    (a : List Text) (m : Text) (b : List Text)
    → Below m (a ++ m ∷ b)
    → Apart m a
    → canonical_nodes (a ++ m ∷ b) ≡ (m ∷ b) ++ a
canonical_at a m b below apart =
    let (x, rest, e) = cons_form (a ++ m ∷ b) a m b refl in
    let same =
      same_least m a b (least x rest) (subst (Below (least x rest)) (sym e) (least-Below x rest))
        below (subst (Place (least x rest)) (sym e) (least-Place x rest)) in
    ap canonical_nodes e ∙ rotated_at x rest a m b (sym e) apart same

-- The least node stands in `xs`, and not in `ys`.
rotation_half :
    (xs ys a : List Text) (m : Text) (b : List Text)
    → xs ≡ a ++ m ∷ b
    → Apart m a
    → Apart m ys
    → Below m (xs ++ ys)
    → canonical_nodes (xs ++ ys) ≡ canonical_nodes (ys ++ xs)
rotation_half xs ys a m b e apart_a apart_y below =
    let (u, v) = Below-parts m xs ys below in
    let first : xs ++ ys ≡ a ++ m ∷ (b ++ ys) = ap (λ l. l ++ ys) e ∙ append_assoc a (m ∷ b) ys in
    let second : ys ++ xs ≡ (ys ++ a) ++ m ∷ b =
      ap (λ l. ys ++ l) e ∙ sym (append_assoc ys a (m ∷ b)) in
    ap canonical_nodes first
    ∙ canonical_at a m (b ++ ys) (subst (Below m) first below) apart_a
    ∙ append_assoc (m ∷ b) ys a
    ∙ sym (
        canonical_at (ys ++ a) m b (subst (Below m) second (Below-append m ys xs v u))
          (Apart-append m ys a apart_y apart_a))
    ∙ ap canonical_nodes (sym second)

Distinct-behind : (a : List Text) (m : Text) (c : List Text) → Distinct (a ++ m ∷ c) → Apart m c
Distinct-behind [] m c d = d.0
Distinct-behind (x ∷ a) m c d = Distinct-behind a m c d.1

canonical_rotation :
    (xs ys : List Text)
    → Distinct (xs ++ ys)
    → canonical_nodes (xs ++ ys) ≡ canonical_nodes (ys ++ xs)
canonical_rotation [] ys d = ap canonical_nodes (sym (append-nil ys))
canonical_rotation (x ∷ rest) ys d =
    let xs = x ∷ rest in
    let m = least x (rest ++ ys) in
    let below = least-Below x (rest ++ ys) in
    elim (place m xs) [
      | inl (a, b, e, apart) ↦
          let behind : Apart m (b ++ ys) =
            Distinct-behind a m (b ++ ys)
              (subst Distinct (ap (λ l. l ++ ys) e ∙ append_assoc a (m ∷ b) ys) d) in
          rotation_half xs ys a m b e apart (Apart-parts m b ys behind).1 below
      | inr not_here ↦ elim (place m ys) [
        | inr nowhere ↦ absurd (least-Apart x (rest ++ ys) (Apart-append m xs ys not_here nowhere))
        | inl (a, b, e, apart) ↦
            let (u, v) = Below-parts m xs ys below in
            sym (rotation_half ys xs a m b e apart not_here (Below-append m ys xs v u))
      ]
    ]

-- A cycle of two elements or more, its last one a repetition of the first.
canonicalize-closed :
    (nodes : List Text) → canonicalize_cycle (closed nodes) ≡ closed (canonical_nodes nodes)
unfolding canonicalize_cycle canonical_nodes
canonicalize-closed [] = refl
canonicalize-closed (x ∷ []) = refl
canonicalize-closed (x ∷ y ∷ nodes) =
    ap (λ l. closed (canonical_nodes l)) (opened-closed (x ∷ y ∷ nodes))

-- The canonical form of a cycle of distinct nodes does not depend on the node at which the cycle is
-- entered.
pub canonicalize-rotate :
    (xs ys : List Text)
    → Distinct (xs ++ ys)
    → canonicalize_cycle (closed (xs ++ ys)) ≡ canonicalize_cycle (closed (ys ++ xs))
canonicalize-rotate xs ys d =
    canonicalize-closed (xs ++ ys)
    ∙ ap closed (canonical_rotation xs ys d)
    ∙ sym (canonicalize-closed (ys ++ xs))

-- The canonical form of a cycle is the cycle itself, entered at a node than which no other is less.
pub canonicalize-IsRotation :
    (x : Text) (nodes : List Text)
    → (a : List Text) × (m : Text) × (b : List Text) × (x ∷ nodes ≡ a ++ m ∷ b)
      × Below m (x ∷ nodes)
      × (canonicalize_cycle (closed (x ∷ nodes)) ≡ closed ((m ∷ b) ++ a))
canonicalize-IsRotation x nodes =
    let (a, b, e, apart) = least-Place x nodes in
    (
      a,
      least x nodes,
      b,
      e,
      least-Below x nodes,
      canonicalize-closed (x ∷ nodes)
          ∙ ap closed (rotated_at x nodes a (least x nodes) b e apart refl),
    )
