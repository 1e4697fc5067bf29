-- ===== src/Base/Dicts.antt =====
-- Python's `dict` and `OrderedDict`: an association list in insertion order, without repeated keys.
use Prim.Native.Nat.{ℕ, suc}
use mathlib.Core.Path.{◌≡◌, refl, subst}
use mathlib.Core.Logic.{◌↔◌, inl, inr}
use mathlib.Core.Bool.{Bool, true, false}
use mathlib.Core.Option.{Option, none, some}
use mathlib.Core.List.{List, [], ◌∷◌}
use native.Mathlib.Omega.{arith}
use ftllex_engine.Base.Compare.{◌==◌, ==_iff, if◌then◌else◌, Bool-cases}
use ftllex_engine.Base.Lists.{length, All}
use ftllex_engine.Base.Texts.{Text, text_eq, text_eq_iff}

-- Keys that can be compared.
pub record Eq {ℓ} (K : Type ℓ) : Type ℓ where
  pub beq : K → K → Bool
  pub beq_iff : (a b : K) → (beq a b ≡ true) ↔ (a ≡ b)

instance abbrev pub nat_eq : Eq ℕ
nat_eq = record { beq = ◌==◌; beq_iff = ==_iff }

instance abbrev pub text_key : Eq Text
text_key = record { beq = text_eq; beq_iff = text_eq_iff }

abbrev pub Dict {ℓ κ} : Type ℓ → Type κ → Type (ℓ ⊔ κ)
Dict K V = List (K × V)

module _ {ℓ κ} {K : Type ℓ} {V : Type κ} ⦃e : Eq K⦄ where
  unfoldable pub lookup : K → Dict K V → Option V
  lookup k [] = none
  lookup k ((j, v) ∷ d) = if e.beq j k then some v else lookup k d

  -- `d[k] = v`: an old key keeps its place, a new one goes to the end.
  unfoldable pub insert : K → V → Dict K V → Dict K V
  insert k v [] = (k, v) ∷ []
  insert k v ((j, w) ∷ d) = if e.beq j k then (j, v) ∷ d else (j, w) ∷ insert k v d

  -- `del d[k]`.
  unfoldable pub remove : K → Dict K V → Dict K V
  remove k [] = []
  remove k ((j, w) ∷ d) = if e.beq j k then d else (j, w) ∷ remove k d

  -- `k in d`.
  unfoldable pub has : K → Dict K V → Bool
  has k [] = false
  has k ((j, v) ∷ d) = if e.beq j k then true else has k d

  -- No key stands twice.
  abbrev pub Keyed : Dict K V → Type 0
  Keyed [] = Unit
  Keyed ((j, v) ∷ d) = (has j d ≡ false) × Keyed d

  pub lookup-has : (k : K) (d : Dict K V) → has k d ≡ false → lookup k d ≡ none
  unfolding lookup has
  lookup-has k [] h = refl
  lookup-has k ((j, v) ∷ d) h = ground (arith, lookup-has k d)

  pub has-lookup : (k : K) (d : Dict K V) → has k d ≡ true → (v : V) × (lookup k d ≡ some v)
  unfolding lookup has
  has-lookup k [] h = cc
  has-lookup k ((j, v) ∷ d) h = elim (Bool-cases (e.beq j k)) [
    | inl t ↦ (v, rw t)
    | inr f ↦ let (w, at) = has-lookup k d (rw f at h) in (w, rw f at)
  ]

  pub has-insert :
      (k j : K) (v : V) (d : Dict K V)
      → has j (insert k v d) ≡ (if e.beq k j then true else has j d)
  unfolding has insert
  has-insert k j v [] = refl
  has-insert k j v ((i, w) ∷ d) =
      ground (arith, has-insert k j v d, e.beq_iff i k, e.beq_iff i j, e.beq_iff k j)

  pub lookup-insert :
      (k j : K) (v : V) (d : Dict K V)
      → lookup j (insert k v d) ≡ (if e.beq k j then some v else lookup j d)
  unfolding lookup insert
  lookup-insert k j v [] = refl
  lookup-insert k j v ((i, w) ∷ d) =
      ground (arith, lookup-insert k j v d, e.beq_iff i k, e.beq_iff i j, e.beq_iff k j)

  pub length-insert_new :
      (k : K) (v : V) (d : Dict K V) → has k d ≡ false → length (insert k v d) ≡ suc (length d)
  unfolding has insert
  length-insert_new k v [] h = refl
  length-insert_new k v ((i, w) ∷ d) h = ground (arith, length-insert_new k v d)

  pub length-insert_old :
      (k : K) (v : V) (d : Dict K V) → has k d ≡ true → length (insert k v d) ≡ length d
  unfolding has insert
  length-insert_old k v [] h = cc
  length-insert_old k v ((i, w) ∷ d) h = ground (arith, length-insert_old k v d)

  pub length-remove : (k : K) (d : Dict K V) → has k d ≡ true → suc (length (remove k d)) ≡ length d
  unfolding has remove
  length-remove k [] h = cc
  length-remove k ((i, w) ∷ d) h = ground (arith, length-remove k d)

  pub Keyed-insert : (k : K) (v : V) (d : Dict K V) → Keyed d → Keyed (insert k v d)
  unfolding insert has
  Keyed-insert k v [] h = (refl, tt)
  Keyed-insert k v ((i, w) ∷ d) h = elim (Bool-cases (e.beq i k)) [
    | inl t ↦ rw t h
    | inr f ↦
        rw f
          (ground (arith, has-insert k i v d, e.beq_iff i k, e.beq_iff k i), Keyed-insert k v d h.1)
  ]

  pub has-remove_ne : (k j : K) (d : Dict K V) → e.beq k j ≡ false → has j (remove k d) ≡ has j d
  unfolding has remove
  has-remove_ne k j [] h = refl
  has-remove_ne k j ((i, w) ∷ d) h =
      ground (arith, has-remove_ne k j d, e.beq_iff i k, e.beq_iff i j, e.beq_iff k j)

  pub has-remove_le : (k j : K) (d : Dict K V) → has j d ≡ false → has j (remove k d) ≡ false
  unfolding has remove
  has-remove_le k j [] h = refl
  has-remove_le k j ((i, w) ∷ d) h = ground (arith, has-remove_le k j d)

  pub Keyed-remove : (k : K) (d : Dict K V) → Keyed d → Keyed (remove k d)
  unfolding remove
  Keyed-remove k [] h = tt
  Keyed-remove k ((i, w) ∷ d) h = elim (Bool-cases (e.beq i k)) [
    | inl t ↦ rw t h.1
    | inr f ↦ rw f (has-remove_le k i d h.0, Keyed-remove k d h.1)
  ]

  pub remove-insert_new :
      (k : K) (v : V) (d : Dict K V) → has k d ≡ false → remove k (insert k v d) ≡ d
  unfolding has insert remove
  remove-insert_new k v [] h = ground (arith, e.beq_iff k k)
  remove-insert_new k v ((i, w) ∷ d) h = ground (arith, remove-insert_new k v d)

  pub insert-insert : (k : K) (v w : V) (d : Dict K V) → insert k v (insert k w d) ≡ insert k v d
  unfolding insert
  insert-insert k v w [] = ground (arith, e.beq_iff k k)
  insert-insert k v w ((i, x) ∷ d) = ground (arith, insert-insert k v w d)

  pub insert-lookup : (k : K) (v : V) (d : Dict K V) → lookup k d ≡ some v → insert k v d ≡ d
  unfolding insert lookup
  insert-lookup k v [] h = cc
  insert-lookup k v ((i, x) ∷ d) h = ground (arith, insert-lookup k v d)

  pub All-insert {μ} :
      (P : V → Type μ) (k : K) (v : V) (d : Dict K V)
      → P v
      → All (λ x. P x.1) d
      → All (λ x. P x.1) (insert k v d)
  unfolding insert
  All-insert P k v [] p h = (p, tt)
  All-insert P k v ((i, x) ∷ d) p h = elim (Bool-cases (e.beq i k)) [
    | inl t ↦ rw t (p, h.1)
    | inr f ↦ rw f (h.0, All-insert P k v d p h.1)
  ]

  pub All-remove {μ} :
      (P : V → Type μ) (k : K) (d : Dict K V) → All (λ x. P x.1) d → All (λ x. P x.1) (remove k d)
  unfolding remove
  All-remove P k [] h = tt
  All-remove P k ((i, x) ∷ d) h = elim (Bool-cases (e.beq i k)) [
    | inl t ↦ rw t h.1
    | inr f ↦ rw f (h.0, All-remove P k d h.1)
  ]

  pub All-lookup {μ} :
      (P : V → Type μ) (k : K) (v : V) (d : Dict K V)
      → All (λ x. P x.1) d
      → lookup k d ≡ some v
      → P v
  unfolding lookup
  All-lookup P k v [] h at = cc
  All-lookup P k v ((i, x) ∷ d) h at = elim (Bool-cases (e.beq i k)) [
    | inl t ↦ subst P (ground arith) h.0
    | inr f ↦ All-lookup P k v d h.1 (rw f at at)
  ]

  pub has_of_length-zero : (k : K) (d : Dict K V) → length d ≡ 0 → has k d ≡ false
  unfolding has
  has_of_length-zero k [] h = refl
  has_of_length-zero k (x ∷ d) h = absurd (omega arith)
