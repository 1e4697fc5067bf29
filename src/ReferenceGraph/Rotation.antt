-- ===== src/ReferenceGraph/Rotation.antt =====
-- Canonical cycles: they do not depend on where a cycle is entered, and forget nothing else.
use ftllex_engine.Base.{
  ◌≡◌, refl, ap, ◌∙◌, ◌⊎◌, inl, inr, true, false, List, [], ◌∷◌, ◌++◌, Text, text_eq, text_eq_iff,
  length, take, take-length-append, drop-length-append, Bool-cases, arith,
}
use ftllex_engine.ReferenceGraph.{text_lt, index_of, rotate, closed, opened}

-- `node` is no element.
abbrev pub Apart : Text → List Text → Type 0
Apart node [] = Unit
Apart node (x ∷ nodes) = (text_eq x node ≡ false) × Apart node nodes

abbrev pub Distinct : List Text → Type 0
Distinct [] = Unit
Distinct (x ∷ nodes) = Apart x nodes × Distinct nodes

pub text_lt_irrefl : (a : Text) → text_lt a a ≡ false
unfolding text_lt
text_lt_irrefl [] = refl
text_lt_irrefl (x ∷ a) = ground (arith, text_lt_irrefl a)

pub text_lt_trans : (a b c : Text) → text_lt a b ≡ true → text_lt b c ≡ true → text_lt a c ≡ true
unfolding text_lt
text_lt_trans a b [] h g = absurd (ground (arith, g))
text_lt_trans a [] (z ∷ c) h g = absurd (ground (arith, h))
text_lt_trans [] (y ∷ b) (z ∷ c) h g = refl
text_lt_trans (x ∷ a) (y ∷ b) (z ∷ c) h g = ground (arith, text_lt_trans a b c)

pub text_lt_total : (a b : Text) → text_lt a b ≡ false → text_lt b a ≡ false → a ≡ b
unfolding text_lt
text_lt_total [] [] h g = refl
text_lt_total [] (y ∷ b) h g = absurd cc
text_lt_total (x ∷ a) [] h g = absurd cc
text_lt_total (x ∷ a) (y ∷ b) h g = ground (arith, text_lt_total a b)

pub index_of-append : (m : Text) (a b : List Text) → Apart m a → index_of m (a ++ m ∷ b) ≡ length a
unfolding index_of
index_of-append m [] b h = ground (arith, text_eq_iff m m)
index_of-append m (x ∷ a) b h = ground (arith, h.0, index_of-append m a b h.1)

pub rotate-append : (a b : List Text) → rotate (length a) (a ++ b) ≡ b ++ a
rotate-append a b =
    ap (λ x. x ++ take (length a) (a ++ b)) (drop-length-append a b)
    ∙ ap (λ x. b ++ x) (take-length-append a b)

pub opened-closed : (nodes : List Text) → opened (closed nodes) ≡ nodes
opened-closed [] = refl
opened-closed (x ∷ nodes) = go x nodes x
  where
    go : (x : Text) (nodes : List Text) (z : Text) → opened ((x ∷ nodes) ++ z ∷ []) ≡ x ∷ nodes
    go x [] z = refl
    go x (y ∷ nodes) z = ap (◌∷◌ x) (go y nodes z)

-- No element of the list is less than `m`.
abbrev pub Below : Text → List Text → Type 0
Below m [] = Unit
Below m (x ∷ nodes) = (text_lt x m ≡ false) × Below m nodes

pub Below-append : (m : Text) (a b : List Text) → Below m a → Below m b → Below m (a ++ b)
Below-append m [] b p q = q
Below-append m (x ∷ a) b p q = (p.0, Below-append m a b p.1 q)

pub Below-parts : (m : Text) (a b : List Text) → Below m (a ++ b) → Below m a × Below m b
Below-parts m [] b p = (tt, p)
Below-parts m (x ∷ a) b p = let (u, v) = Below-parts m a b p.1 in ((p.0, u), v)

pub Apart-append : (m : Text) (a b : List Text) → Apart m a → Apart m b → Apart m (a ++ b)
Apart-append m [] b p q = q
Apart-append m (x ∷ a) b p q = (p.0, Apart-append m a b p.1 q)

pub Apart-parts : (m : Text) (a b : List Text) → Apart m (a ++ b) → Apart m a × Apart m b
Apart-parts m [] b p = (tt, p)
Apart-parts m (x ∷ a) b p = let (u, v) = Apart-parts m a b p.1 in ((p.0, u), v)

-- The first place of a node, or that it has none.
abbrev pub Place : Text → List Text → Type 0
Place m nodes = (a : List Text) × (b : List Text) × (nodes ≡ a ++ m ∷ b) × Apart m a

pub place : (m : Text) (nodes : List Text) → Place m nodes ⊎ Apart m nodes
place m [] = inr tt
place m (x ∷ nodes) = elim (Bool-cases (text_eq x m)) [
  | inl t ↦ inl ([], nodes, ap (λ y. y ∷ nodes) ((text_eq_iff x m).0 t), tt)
  | inr f ↦ elim (place m nodes) [
    | inl (a, b, e, apart) ↦ inl (x ∷ a, b, ap (◌∷◌ x) e, (f, apart))
    | inr apart ↦ inr (f, apart)
  ]
]

-- Less than `m`, which is not less than `x`.
below_step : (y x m : Text) → text_lt x m ≡ true → text_lt y m ≡ false → text_lt y x ≡ false
below_step y x m h g = elim (Bool-cases (text_lt y x)) [
  | inr f ↦ f
  | inl t ↦ let both = text_lt_trans y x m t h in absurd cc
]

Below-step : (x m : Text) (nodes : List Text) → text_lt x m ≡ true → Below m nodes → Below x nodes
Below-step x m [] h p = tt
Below-step x m (y ∷ nodes) h p = (below_step y x m h p.0, Below-step x m nodes h p.1)
