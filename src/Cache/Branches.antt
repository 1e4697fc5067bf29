-- ===== src/Cache/Branches.antt =====
-- The branches of `get` and `put`, each with the tests that lead to it.
use ftllex_engine.Base.{
  ℕ, ◌+◌, ◌≤◌, ◌<◌, ◌≡◌, refl, ap, ◌⊎◌, inl, inr, true, false, none, some, List, [], ◌∷◌, Text,
  text_eq, length, leb, ltb, Bool-cases, Option-cases, ok, Eq, Dict, lookup, has, arith,
}
use ftllex_engine.CacheEntry.{
  Bytes, FluentError, IntegrityCacheEntry, total_error_weight, create, verify,
}
use ftllex_engine.Cache.{
  IntegrityCache, op_evict, audit, compute_key_hash, corrupted, hit, missed, get, store, evict,
  after_eviction, write, put_key, put,
}

module _ {ℓ} {K : Type ℓ} ⦃eq : Eq K⦄ where
  -- The three weight checks of `put`.
  pub record IsLight (c : IntegrityCache K) (formatted : Text) (errors : List FluentError)
      : Type 0 where
    pub short : length formatted ≤ c.max_entry_weight
    pub few : length errors ≤ c.max_errors_per_entry
    pub light : length formatted + total_error_weight errors ≤ c.max_entry_weight

  -- The state in which the next entry is made.
  abbrev pub numbered : IntegrityCache K → IntegrityCache K
  numbered c = record c { sequence = c.sequence + 1 }

  room_full :
      (c : IntegrityCache K) (key : K) (items : Dict K IntegrityCacheEntry)
      → c.cache ≡ items
      → 0 < c.maxsize
      → has key c.cache ≡ false
      → c.maxsize ≤ length c.cache
      → (e : K × IntegrityCacheEntry) × (d : Dict K IntegrityCacheEntry) × (c.cache ≡ e ∷ d)
        × (has key c.cache ≡ false)
        × (c.maxsize ≤ length c.cache)
  room_full c key [] shape lt new full = absurd (omega (arith, ap length shape))
  room_full c key (e ∷ d) shape lt new full = (e, d, shape, new, full)

  -- A write finds room, or the cache is full of other keys.
  pub room-cases :
      (c : IntegrityCache K) (key : K)
      → 0 < c.maxsize
      → ((has key c.cache ≡ true) ⊎ (length c.cache < c.maxsize))
        ⊎ ((e : K × IntegrityCacheEntry) × (d : Dict K IntegrityCacheEntry) × (c.cache ≡ e ∷ d)
            × (has key c.cache ≡ false)
            × (c.maxsize ≤ length c.cache))
  room-cases c key lt = elim (Bool-cases (has key c.cache)) [
    | inl old ↦ inl (inl old)
    | inr new ↦ elim (Bool-cases (leb c.maxsize (length c.cache))) [
      | inl full ↦ inr (room_full c key c.cache refl lt new (ground arith))
      | inr free ↦ inl (inr (ground arith))
    ]
  ]

module _ {ℓ} {K : Type ℓ} ⦃eq : Eq K⦄ (blake2b : ℕ → Bytes → Bytes) (str : K → Text) where
  -- An entry that passes both checks of `get` under a key.
  pub record Passes (key : K) (entry : IntegrityCacheEntry) : Type 0 where
    pub verified : verify blake2b entry ≡ true
    pub bound : text_eq entry.key_hash (compute_key_hash blake2b str key) ≡ true

  pub record Found (key : K) (entry : IntegrityCacheEntry) (c : IntegrityCache K) : Type ℓ where
    pub at : lookup key c.cache ≡ some entry
    pub ends :
        (Passes key entry × (get blake2b str (some key) c ≡ hit blake2b str key entry c))
        ⊎ ((¬ Passes key entry)
            × (get blake2b str (some key) c ≡ corrupted blake2b str key entry c))

  found :
      (key : K) (entry : IntegrityCacheEntry) (c : IntegrityCache K)
      → lookup key c.cache ≡ some entry
      → Found key entry c
  unfolding get
  found key entry c at = elim (Bool-cases (verify blake2b entry)) [
    | inr bad ↦ record {
      at = at;
      ends = inr (λ p. absurd (cc (p.verified)), rw (at, get) (rw bad refl));
    }
    | inl good ↦ elim (Bool-cases (text_eq entry.key_hash (compute_key_hash blake2b str key))) [
      | inr bad ↦ record {
        at = at;
        ends = inr (λ p. absurd (cc (p.bound)), rw (at, get) (rw good (rw bad refl)));
      }
      | inl same ↦ record {
        at = at;
        ends =
            inl (record { verified = good; bound = same }, rw (at, get) (rw good (rw same refl)));
      }
    ]
  ]

  absent :
      (key : K) (c : IntegrityCache K)
      → lookup key c.cache ≡ none
      → get blake2b str (some key) c ≡ missed blake2b str key c
  unfolding get
  absent key c h = rw (h, get) refl

  pub get-cases :
      (key : K) (c : IntegrityCache K)
      → ((lookup key c.cache ≡ none) × (get blake2b str (some key) c ≡ missed blake2b str key c))
        ⊎ ((entry : IntegrityCacheEntry) × Found key entry c)
  get-cases key c = elim (Option-cases (lookup key c.cache)) [
    | inl h ↦ inl (h, absent key c h)
    | inr (entry, at) ↦ inr (entry, found key entry c at)
  ]

  pub put-light :
      (key : K) (created_at : ℕ) (formatted : Text) (errors : List FluentError)
      (c : IntegrityCache K)
      → IsLight c formatted errors
      → put blake2b str (some key) created_at formatted errors c
        ≡ put_key blake2b str key created_at formatted errors c
  unfolding put
  put-light key created_at formatted errors c h =
      let short : ltb c.max_entry_weight (length formatted) ≡ false = ground (arith, h.short) in
      let few : ltb c.max_errors_per_entry (length errors) ≡ false = ground (arith, h.few) in
      let light : ltb c.max_entry_weight (length formatted + total_error_weight errors) ≡ false =
        ground (arith, h.light) in
      rw short (rw few (rw light refl))

  abbrev pub entry_of : K → ℕ → Text → List FluentError → IntegrityCache K → IntegrityCacheEntry
  entry_of key created_at formatted errors c =
      create blake2b formatted errors created_at (c.sequence + 1) (compute_key_hash blake2b str key)

  -- The state behind an eviction of the item `e` in front of `d`.
  abbrev pub evicted :
      K × IntegrityCacheEntry → Dict K IntegrityCacheEntry → IntegrityCache K → IntegrityCache K
  evicted e d c = audit blake2b str op_evict e.0 (some e.1) (record c { cache = d })

  pub write-stores :
      (key : K) (created_at : ℕ) (formatted : Text) (errors : List FluentError)
      (c : IntegrityCache K)
      → (has key c.cache ≡ true) ⊎ (length c.cache < c.maxsize)
      → write blake2b str key created_at formatted errors c
        ≡ (ok tt, store blake2b str key (entry_of key created_at formatted errors c) (numbered c))
  unfolding write
  write-stores key created_at formatted errors c (inl h) = rw h refl
  write-stores key created_at formatted errors c (inr h) =
      let full : leb c.maxsize (length c.cache) ≡ false = ground arith in
      elim (Bool-cases (has key c.cache)) [ inl t ↦ rw t refl | inr f ↦ rw f (rw full refl) ]

  evict-cons :
      (e : K × IntegrityCacheEntry) (d : Dict K IntegrityCacheEntry) (c : IntegrityCache K)
      → c.cache ≡ e ∷ d
      → evict blake2b str c ≡ (ok tt, evicted e d c)
  unfolding evict
  evict-cons e d c h = rw (h, evict) refl

  pub write-evicts :
      (key : K) (created_at : ℕ) (formatted : Text) (errors : List FluentError)
      (c : IntegrityCache K) (e : K × IntegrityCacheEntry) (d : Dict K IntegrityCacheEntry)
      → c.cache ≡ e ∷ d
      → has key c.cache ≡ false
      → c.maxsize ≤ length c.cache
      → write blake2b str key created_at formatted errors c ≡ (
        ok tt,
        store blake2b str key
            (entry_of key created_at formatted errors c)
            (evicted e d (numbered c)),
      )
  unfolding write after_eviction
  write-evicts key created_at formatted errors c e d shape new full =
      let is_full : leb c.maxsize (length c.cache) ≡ true = ground arith in
      rw (new, is_full)
        (ap (after_eviction blake2b str key (entry_of key created_at formatted errors c))
          (evict-cons e d (numbered c) shape))
