-- ===== src/Cache/Order.antt =====
-- An `OrderedDict` from which a key is removed, or to whose end a new key is put.
use ftllex_engine.Base.{
  suc, ◌≤◌, ◌≡◌, refl, subst, ap, inl, inr, true, false, none, some, [], ◌∷◌, ◌++◌, length,
  length-append, All, All-append, if◌then◌else◌, Bool-cases, Eq, Dict, lookup, lookup-has, remove,
  has, Keyed, Keyed-remove, length-remove, arith,
}

module _ {ℓ κ} {K : Type ℓ} {V : Type κ} ⦃e : Eq K⦄ where
  -- The dictionary in which `k` has the last place, with value `v`.
  abbrev pub last_at : K → V → Dict K V → Dict K V
  last_at k v d = remove k d ++ (k, v) ∷ []

  pub remove_absent : (k : K) (d : Dict K V) → has k d ≡ false → remove k d ≡ d
  unfolding has remove
  remove_absent k [] h = refl
  remove_absent k ((i, w) ∷ d) h = ground (arith, remove_absent k d)

  pub has-remove_same : (k : K) (d : Dict K V) → Keyed d → has k (remove k d) ≡ false
  unfolding has remove
  has-remove_same k [] h = refl
  has-remove_same k ((i, w) ∷ d) h = elim (Bool-cases (e.beq i k)) [
    | inl t ↦ rw t (subst (λ x. has x d ≡ false) ((e.beq_iff i k).0 t) h.0)
    | inr f ↦ rw f (rw f (has-remove_same k d h.1))
  ]

  has-append :
      (k j : K) (v : V) (d : Dict K V)
      → has j (d ++ (k, v) ∷ []) ≡ (if has j d then true else e.beq k j)
  unfolding has
  has-append k j v [] = ground arith
  has-append k j v ((i, w) ∷ d) = ground (arith, has-append k j v d)

  Keyed-append_new :
      (k : K) (v : V) (d : Dict K V) → has k d ≡ false → Keyed d → Keyed (d ++ (k, v) ∷ [])
  unfolding has
  Keyed-append_new k v [] h g = (refl, tt)
  Keyed-append_new k v ((i, w) ∷ d) h g = (
    ground (arith, has-append k i v d, e.beq_iff i k, e.beq_iff k i, g.0),
    Keyed-append_new k v d (ground arith) g.1,
  )

  pub Keyed-last_at : (k : K) (v : V) (d : Dict K V) → Keyed d → Keyed (last_at k v d)
  Keyed-last_at k v d g =
      Keyed-append_new k v (remove k d) (has-remove_same k d g) (Keyed-remove k d g)

  lookup-append :
      (k j : K) (v : V) (d : Dict K V)
      → lookup j (d ++ (k, v) ∷ [])
        ≡ (if has j d then lookup j d else if e.beq k j then some v else none)
  unfolding has lookup
  lookup-append k j v [] = refl
  lookup-append k j v ((i, w) ∷ d) = ground (arith, lookup-append k j v d)

  pub lookup-remove_ne :
      (k j : K) (d : Dict K V) → e.beq k j ≡ false → lookup j (remove k d) ≡ lookup j d
  unfolding lookup remove
  lookup-remove_ne k j [] h = refl
  lookup-remove_ne k j ((i, w) ∷ d) h =
      ground (arith, lookup-remove_ne k j d, e.beq_iff i k, e.beq_iff i j, e.beq_iff k j)

  pub lookup-last_at : (k : K) (v : V) (d : Dict K V) → Keyed d → lookup k (last_at k v d) ≡ some v
  lookup-last_at k v d g =
      ground (arith, lookup-append k k v (remove k d), has-remove_same k d g, e.beq_iff k k)

  pub lookup-last_at_ne :
      (k j : K) (v : V) (d : Dict K V) → e.beq k j ≡ false → lookup j (last_at k v d) ≡ lookup j d
  lookup-last_at_ne k j v d h =
      ground (
        arith,
        lookup-append k j v (remove k d),
        lookup-remove_ne k j d h,
        lookup-has j (remove k d),
      )

  pub All-removed {μ} : (P : K × V → Type μ) (k : K) (d : Dict K V) → All P d → All P (remove k d)
  unfolding remove
  All-removed P k [] h = tt
  All-removed P k ((i, x) ∷ d) h = elim (Bool-cases (e.beq i k)) [
    | inl t ↦ rw t h.1
    | inr f ↦ rw f (h.0, All-removed P k d h.1)
  ]

  pub All-last_at {μ} :
      (P : K × V → Type μ) (k : K) (v : V) (d : Dict K V)
      → P (k, v)
      → All P d
      → All P (last_at k v d)
  All-last_at P k v d p h = All-append P (remove k d) ((k, v) ∷ []) (All-removed P k d h) (p, tt)

  -- What holds of every item holds of a key and the value found at it.
  pub All-found {μ} :
      (P : K × V → Type μ) (k : K) (v : V) (d : Dict K V) → All P d → lookup k d ≡ some v → P (k, v)
  unfolding lookup
  All-found P k v [] h at = cc
  All-found P k v ((i, x) ∷ d) h at = elim (Bool-cases (e.beq i k)) [
    | inl t ↦
        subst P (ap (λ y. (y, v)) ((e.beq_iff i k).0 t)) (subst (λ y. P (i, y)) (ground arith) h.0)
    | inr f ↦ All-found P k v d h.1 (rw f at at)
  ]

  pub has_of_lookup : (k : K) (v : V) (d : Dict K V) → lookup k d ≡ some v → has k d ≡ true
  unfolding has lookup
  has_of_lookup k v [] h = cc
  has_of_lookup k v ((i, x) ∷ d) h = ground (arith, has_of_lookup k v d)

  pub length-last_at_old :
      (k : K) (v : V) (d : Dict K V) → has k d ≡ true → length (last_at k v d) ≡ length d
  length-last_at_old k v d h =
      omega (arith, length-append (remove k d) ((k, v) ∷ []), length-remove k d h)

  pub length-last_at_new :
      (k : K) (v : V) (d : Dict K V) → has k d ≡ false → length (last_at k v d) ≡ suc (length d)
  length-last_at_new k v d h =
      omega (arith, length-append (remove k d) ((k, v) ∷ []), ap length (remove_absent k d h))

  pub length-remove_le : (k : K) (d : Dict K V) → length (remove k d) ≤ length d
  unfolding remove
  length-remove_le k [] = omega arith
  length-remove_le k ((i, x) ∷ d) = ground (arith, length-remove_le k d)

  pub length-last_at_le : (k : K) (v : V) (d : Dict K V) → length (last_at k v d) ≤ suc (length d)
  length-last_at_le k v d =
      omega (arith, length-append (remove k d) ((k, v) ∷ []), length-remove_le k d)
