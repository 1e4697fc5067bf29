-- ===== src/Cache/Refines.antt =====
-- The cache is a least-recently-used list of contents.
use ftllex_engine.Base.{
  ℕ, ◌≡◌, refl, ap, sym, ◌∙◌, ◌⊎◌, inl, inr, none, some, List, [], ◌∷◌, ◌++◌, Text, Bool-cases, Eq,
  Dict, lookup, remove, if◌then◌else◌,
}
use ftllex_engine.Lru.{touched}
use ftllex_engine.CacheEntry.{Bytes, FluentError, IntegrityCacheEntry}
use ftllex_engine.Cache.{IntegrityCache, audit, to_end, hit, missed, get, corrupted}
use ftllex_engine.Cache.Order.{last_at}
use ftllex_engine.Cache.History.{Reach, Reach-cases, Named, Renamed}

-- The content of an entry: `as_result`.
abbrev pub as_result : IntegrityCacheEntry → Text × List FluentError
as_result entry = (entry.formatted, entry.errors)

module _ {ℓ κ} {K : Type ℓ} {V : Type κ} ⦃eq : Eq K⦄ where
  touched-none : (key : K) (d : Dict K V) → lookup key d ≡ none → touched key d ≡ d
  unfolding touched
  touched-none key d h = rw (h, touched) refl

  touched-some :
      (key : K) (v : V) (d : Dict K V) → lookup key d ≡ some v → touched key d ≡ last_at key v d
  unfolding touched
  touched-some key v d h = rw (h, touched) refl

module _ {ℓ} {K : Type ℓ} ⦃eq : Eq K⦄ where
  unfoldable pub view : Dict K IntegrityCacheEntry → Dict K (Text × List FluentError)
  view [] = []
  view ((k, entry) ∷ d) = (k, as_result entry) ∷ view d

  lookup-view-some :
      (k : K) (entry : IntegrityCacheEntry) (d : Dict K IntegrityCacheEntry)
      → lookup k d ≡ some entry
      → lookup k (view d) ≡ some (as_result entry)
  unfolding lookup view
  lookup-view-some k entry [] h = absurd cc
  lookup-view-some k entry ((i, x) ∷ d) h = elim (Bool-cases (eq.beq i k)) [
    | inl t ↦ rw t (
        let same : some x ≡ some entry = rw t at h in
        ap (λ o. elim o [ none ↦ none | some y ↦ some (as_result y) ]) same)
    | inr f ↦ rw f (lookup-view-some k entry d (rw f at h))
  ]

  lookup-view-none :
      (k : K) (d : Dict K IntegrityCacheEntry) → lookup k d ≡ none → lookup k (view d) ≡ none
  unfolding lookup view
  lookup-view-none k [] h = refl
  lookup-view-none k ((i, x) ∷ d) h = elim (Bool-cases (eq.beq i k)) [
    | inl t ↦ let found : some x ≡ none = rw t at h in absurd cc
    | inr f ↦ rw f (lookup-view-none k d (rw f at h))
  ]

  remove-view : (k : K) (d : Dict K IntegrityCacheEntry) → remove k (view d) ≡ view (remove k d)
  unfolding remove view
  remove-view k [] = refl
  remove-view k ((i, x) ∷ d) = elim (Bool-cases (eq.beq i k)) [
    | inl t ↦ rw t refl
    | inr f ↦ rw f (ap (◌∷◌ (i, as_result x)) (remove-view k d))
  ]

  view-append :
      (k : K) (entry : IntegrityCacheEntry) (d : Dict K IntegrityCacheEntry)
      → view (d ++ (k, entry) ∷ []) ≡ view d ++ (k, as_result entry) ∷ []
  unfolding view
  view-append k entry [] = refl
  view-append k entry ((i, x) ∷ d) = ap (◌∷◌ (i, as_result x)) (view-append k entry d)

  view-last_at :
      (k : K) (entry : IntegrityCacheEntry) (d : Dict K IntegrityCacheEntry)
      → view (last_at k entry d) ≡ last_at k (as_result entry) (view d)
  view-last_at k entry d =
      view-append k entry (remove k d)
      ∙ ap (λ x. x ++ (k, as_result entry) ∷ []) (sym (remove-view k d))

module _ {ℓ} {K : Type ℓ} ⦃eq : Eq K⦄ (blake2b : ℕ → Bytes → Bytes) (str : K → Text) where
  view-corrupted :
      (key : K) (entry : IntegrityCacheEntry) (c : IntegrityCache K)
      → view (corrupted blake2b str key entry c).1.cache
        ≡ (if c.strict then view c.cache else remove key (view c.cache))
  unfolding corrupted audit
  view-corrupted key entry c = elim (Bool-cases c.strict) [
    | inl t ↦ rw t refl
    | inr f ↦ rw f (sym (remove-view key c.cache))
  ]

  -- In every reachable state a `get` acts on the contents as a read of a least-recently-used list if
  -- no entry is stored at the key, or one whose key hash is that of the text of this key; and if one
  -- with another key hash is stored, it leaves the contents as they are in strict mode, and removes
  -- the one at the key else.
  pub view-get :
      (key : K) (c : IntegrityCache K)
      → Reach blake2b c
      → (Named blake2b str key c
          × (view (get blake2b str (some key) c).1.cache ≡ touched key (view c.cache)))
        ⊎ (Renamed blake2b str key c
            × (view (get blake2b str (some key) c).1.cache
                ≡ (if c.strict then view c.cache else remove key (view c.cache))))
  unfolding hit missed to_end audit
  view-get key c r = elim (Reach-cases blake2b str key r) [
    | inl (absent, e) ↦ inl (
      inl absent,
      ap (λ r. view r.1.cache) e
          ∙ sym (touched-none key (view c.cache) (lookup-view-none key c.cache absent)),
    )
    | inr (entry, at, inl (same, e)) ↦ inl (
      inr (entry, at, same),
      ap (λ r. view r.1.cache) e
          ∙ view-last_at key entry c.cache
          ∙ sym (touched-some key _ (view c.cache) (lookup-view-some key entry c.cache at)),
    )
    | inr (entry, at, inr (differ, e)) ↦
        inr ((entry, at, differ), ap (λ r. view r.1.cache) e ∙ view-corrupted key entry c)
  ]
