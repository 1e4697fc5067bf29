-- ===== src/Base/Lists.antt =====
-- Lists measured and indexed by native numbers, under the library's names.
use Prim.Native.Nat.{ℕ, zero, suc, ◌+◌, ◌-◌, ◌≤◌, ◌<◌, min}
use mathlib.Core.Path.{◌≡◌, refl, ap}
use mathlib.Core.List.{List, [], ◌∷◌, ◌++◌}
use mathlib.Core.Bool.{Bool, true, false}
use mathlib.Core.Option.{Option, none, some}
use ftllex_engine.Base.Compare.{if◌then◌else◌}
use native.Mathlib.Omega.{arith}

module _ {ℓ} {A : Type ℓ} where
  abbrev pub length : List A → ℕ
  length [] = 0
  length (x ∷ xs) = suc (length xs)

  abbrev pub get_elem? : List A → ℕ → Option A
  get_elem? [] i = none
  get_elem? (x ∷ xs) zero = some x
  get_elem? (x ∷ xs) (suc i) = get_elem? xs i

  abbrev pub take : ℕ → List A → List A
  take zero xs = []
  take (suc n) [] = []
  take (suc n) (x ∷ xs) = x ∷ take n xs

  abbrev pub drop : ℕ → List A → List A
  drop zero xs = xs
  drop (suc n) [] = []
  drop (suc n) (x ∷ xs) = drop n xs

  -- `xs[a:b]` of Python, for indices that are not negative.
  abbrev pub slice : List A → ℕ → ℕ → List A
  slice xs a b = take (b - a) (drop a xs)

  abbrev pub All {κ} : (A → Type κ) → List A → Type κ
  All P [] = Unit
  All P (x ∷ xs) = P x × All P xs

  pub length-append : (xs ys : List A) → length (xs ++ ys) ≡ length xs + length ys
  length-append [] ys = omega arith
  length-append (x ∷ xs) ys = omega (arith, length-append xs ys)

  pub length-take : (n : ℕ) (xs : List A) → length (take n xs) ≡ min n (length xs)
  length-take zero xs = omega arith
  length-take (suc n) [] = omega arith
  length-take (suc n) (x ∷ xs) = omega (arith, length-take n xs)

  pub length-drop : (n : ℕ) (xs : List A) → length (drop n xs) ≡ length xs - n
  length-drop zero xs = omega arith
  length-drop (suc n) [] = omega arith
  length-drop (suc n) (x ∷ xs) = omega (arith, length-drop n xs)

  pub take-append-drop : (n : ℕ) (xs : List A) → take n xs ++ drop n xs ≡ xs
  take-append-drop zero xs = refl
  take-append-drop (suc n) [] = refl
  take-append-drop (suc n) (x ∷ xs) = ap (◌∷◌ x) (take-append-drop n xs)

  pub get_elem?-none : (xs : List A) (i : ℕ) → length xs ≤ i → get_elem? xs i ≡ none
  get_elem?-none [] i h = refl
  get_elem?-none (x ∷ xs) zero h = absurd (omega arith)
  get_elem?-none (x ∷ xs) (suc i) h = get_elem?-none xs i (omega arith)

  pub get_elem?-some : (xs : List A) (i : ℕ) → i < length xs → (a : A) × (get_elem? xs i ≡ some a)
  get_elem?-some [] i h = elim h [ ]
  get_elem?-some (x ∷ xs) zero h = (x, refl)
  get_elem?-some (x ∷ xs) (suc i) h = get_elem?-some xs i (omega arith)

  pub lt_of_get_elem? : (xs : List A) (i : ℕ) (a : A) → get_elem? xs i ≡ some a → i < length xs
  lt_of_get_elem? [] i a h = ground arith
  lt_of_get_elem? (x ∷ xs) zero a h = omega arith
  lt_of_get_elem? (x ∷ xs) (suc i) a h = omega (arith, lt_of_get_elem? xs i a h)

  pub le_of_get_elem?-none : (xs : List A) (i : ℕ) → get_elem? xs i ≡ none → length xs ≤ i
  le_of_get_elem?-none [] i h = omega arith
  le_of_get_elem?-none (x ∷ xs) zero h = ground arith
  le_of_get_elem?-none (x ∷ xs) (suc i) h = omega (arith, le_of_get_elem?-none xs i h)

  pub drop_step :
      (xs : List A) (i : ℕ) (a : A) → get_elem? xs i ≡ some a → drop i xs ≡ a ∷ drop (suc i) xs
  drop_step [] i a h = ground arith
  drop_step (x ∷ xs) zero a h = ground arith
  drop_step (x ∷ xs) (suc i) a h = drop_step xs i a h

  pub drop-cons :
      (xs : List A) (i : ℕ) (a : A) (r : List A)
      → drop i xs ≡ a ∷ r
      → (get_elem? xs i ≡ some a) × (drop (suc i) xs ≡ r)
  drop-cons [] zero a r h = cc
  drop-cons [] (suc i) a r h = cc
  drop-cons (x ∷ xs) zero a r h = (cc, cc)
  drop-cons (x ∷ xs) (suc i) a r h = drop-cons xs i a r h

  pub le_of_drop-nil : (xs : List A) (i : ℕ) → drop i xs ≡ [] → length xs ≤ i
  le_of_drop-nil [] i h = omega arith
  le_of_drop-nil (x ∷ xs) zero h = cc
  le_of_drop-nil (x ∷ xs) (suc i) h = omega (arith, le_of_drop-nil xs i h)

  pub drop_of_length-le : (xs : List A) (i : ℕ) → length xs ≤ i → drop i xs ≡ []
  drop_of_length-le [] zero h = refl
  drop_of_length-le [] (suc i) h = refl
  drop_of_length-le (x ∷ xs) zero h = absurd (omega arith)
  drop_of_length-le (x ∷ xs) (suc i) h = drop_of_length-le xs i (omega arith)

  pub All-append {κ} : (P : A → Type κ) (xs ys : List A) → All P xs → All P ys → All P (xs ++ ys)
  All-append P [] ys hx hy = hy
  All-append P (x ∷ xs) ys hx hy = (hx.0, All-append P xs ys hx.1 hy)

  pub drop_suc : (xs : List A) (i : ℕ) (a : A) (r : List A) → drop i xs ≡ a ∷ r → i < length xs
  drop_suc [] zero a r h = cc
  drop_suc [] (suc i) a r h = cc
  drop_suc (x ∷ xs) zero a r h = omega arith
  drop_suc (x ∷ xs) (suc i) a r h = omega (arith, drop_suc xs i a r h)

  pub take-length-append : (xs ys : List A) → take (length xs) (xs ++ ys) ≡ xs
  take-length-append [] ys = refl
  take-length-append (x ∷ xs) ys = ap (◌∷◌ x) (take-length-append xs ys)

  pub drop-length-append : (xs ys : List A) → drop (length xs) (xs ++ ys) ≡ ys
  drop-length-append [] ys = refl
  drop-length-append (x ∷ xs) ys = drop-length-append xs ys

  -- The longest beginning whose elements meet the test, and what follows it.
  unfoldable pub take_while : (A → Bool) → List A → List A
  take_while test [] = []
  take_while test (x ∷ xs) = let rest = take_while test xs in if test x then x ∷ rest else []

  unfoldable pub drop_while : (A → Bool) → List A → List A
  drop_while test [] = []
  drop_while test (x ∷ xs) = let rest = drop_while test xs in if test x then rest else x ∷ xs

  pub take_while-append-drop_while :
      (test : A → Bool) (xs : List A) → take_while test xs ++ drop_while test xs ≡ xs
  unfolding take_while drop_while
  take_while-append-drop_while test [] = refl
  take_while-append-drop_while test (x ∷ xs) = ground (arith, take_while-append-drop_while test xs)

  take_while-All_step :
      (test : A → Bool) (x : A) (xs : List A) (b : Bool)
      → test x ≡ b
      → All (λ y. test y ≡ true) (take_while test xs)
      → All (λ y. test y ≡ true) (if b then x ∷ take_while test xs else [])
  take_while-All_step test x xs true e h = (e, h)
  take_while-All_step test x xs false e h = tt

  pub take_while-All :
      (test : A → Bool) (xs : List A) → All (λ x. test x ≡ true) (take_while test xs)
  unfolding take_while
  take_while-All test [] = tt
  take_while-All test (x ∷ xs) =
      take_while-All_step test x xs (test x) refl (take_while-All test xs)

  -- `rest` does not begin with an element that meets the test.
  abbrev pub Ends : (A → Bool) → List A → Type 0
  Ends test [] = Unit
  Ends test (x ∷ xs) = test x ≡ false

  pub take_while-append :
      (test : A → Bool) (xs rest : List A)
      → All (λ x. test x ≡ true) xs
      → Ends test rest
      → take_while test (xs ++ rest) ≡ xs
  unfolding take_while
  take_while-append test [] [] h e = refl
  take_while-append test [] (y ∷ rest) h e = rw e
  take_while-append test (x ∷ xs) rest h e =
      rw h.0 (ap (◌∷◌ x) (take_while-append test xs rest h.1 e))
