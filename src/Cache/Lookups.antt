-- ===== src/Cache/Lookups.antt =====
-- What `get` returns in any state, also one that somebody else tampered with.
use ftllex_engine.Base.{
  ℕ, ◌+◌, ◌≡◌, ◌≢◌, text_eq_iff, refl, subst, ap, sym, ◌∙◌, ◌⊎◌, inl, inr, true, false, Option,
  none, some, Text, Exn, ok, raised, cache_corruption, Bool-cases, Eq, lookup, remove, if-elim,
  lookup-has, Keyed,
}
use ftllex_engine.CacheEntry.{Bytes, IntegrityCacheEntry, verify}
use ftllex_engine.Cache.{IntegrityCache, compute_key_hash, audit, corrupted, hit, missed, get}
use ftllex_engine.Cache.Order.{has-remove_same}
use ftllex_engine.Cache.Branches.{get-cases}

-- No entry comes out of a call.
abbrev NoEntry {ℓ} : {K : Type ℓ} → Exn (Option IntegrityCacheEntry) × IntegrityCache K → Type 0
NoEntry (ok (some e), c) = ⊥
NoEntry (ok none, c) = Unit
NoEntry (raised e, c) = Unit

module _ {ℓ} {K : Type ℓ} ⦃eq : Eq K⦄ (blake2b : ℕ → Bytes → Bytes) (str : K → Text) where
  corrupted-NoEntry :
      (key : K) (entry : IntegrityCacheEntry) (c : IntegrityCache K)
      → NoEntry (corrupted blake2b str key entry c)
  unfolding corrupted
  corrupted-NoEntry key entry c = if-elim NoEntry c.strict _ _ tt tt

  some_entry :
      (r : Exn (Option IntegrityCacheEntry) × IntegrityCache K) (entry : IntegrityCacheEntry)
      → NoEntry r
      → r.0 ≢ ok (some entry)
  some_entry (ok (some e), c) entry n h = n
  some_entry (ok none, c) entry n h = absurd cc
  some_entry (raised e, c) entry n h = absurd cc

  some-injective : (x y : IntegrityCacheEntry) → ok (some x) ≡ ok (some y) → x ≡ y
  some-injective x y h = cc

  -- In every state, whatever it holds: an entry that `get` returns is the one stored at the key, its
  -- content hash, its checksum and its errors verify, and its key hash is the one of the key.
  pub get-Passes :
      (key : K) (entry : IntegrityCacheEntry) (c : IntegrityCache K)
      → (get blake2b str (some key) c).0 ≡ ok (some entry)
      → (lookup key c.cache ≡ some entry)
        × (verify blake2b entry ≡ true)
        × (entry.key_hash ≡ compute_key_hash blake2b str key)
  unfolding missed hit
  get-Passes key entry c h = elim (get-cases blake2b str key c) [
    | inl (absent, e) ↦ let no_entry = sym (ap (λ r. r.0) e) ∙ h in absurd cc
    | inr (x, f) ↦ elim f.ends [
      | inl (good, e) ↦
          subst
            (λ y.
              (lookup key c.cache ≡ some y)
              × (verify blake2b y ≡ true)
              × (y.key_hash ≡ compute_key_hash blake2b str key))
            (some-injective x entry (sym (ap (λ r. r.0) e) ∙ h))
            (
              f.at,
              good.verified,
              (text_eq_iff x.key_hash (compute_key_hash blake2b str key)).0 good.bound,
            )
      | inr (bad, e) ↦
          absurd (some_entry _ entry (corrupted-NoEntry key x c) (sym (ap (λ r. r.0) e) ∙ h))
    ]
  ]

  -- What `get` does about an entry that fails a check.
  pub record Rejects (key : K) (c : IntegrityCache K) : Type ℓ where
    pub counted : (get blake2b str (some key) c).1.corruption_detected ≡ c.corruption_detected + 1
    pub strictly :
        c.strict ≡ true
        → ((get blake2b str (some key) c).0 ≡ raised cache_corruption)
          × ((get blake2b str (some key) c).1.cache ≡ c.cache)
    pub leniently :
        c.strict ≡ false
        → ((get blake2b str (some key) c).0 ≡ ok none)
          × ((get blake2b str (some key) c).1.cache ≡ remove key c.cache)
          × (lookup key (get blake2b str (some key) c).1.cache ≡ none)

  corrupted-strict :
      (key : K) (entry : IntegrityCacheEntry) (c : IntegrityCache K)
      → c.strict ≡ true
      → ((corrupted blake2b str key entry c).0 ≡ raised cache_corruption)
        × ((corrupted blake2b str key entry c).1.cache ≡ c.cache)
  unfolding corrupted audit
  corrupted-strict key entry c h = (rw h refl, rw h refl)

  corrupted-lenient :
      (key : K) (entry : IntegrityCacheEntry) (c : IntegrityCache K)
      → c.strict ≡ false
      → ((corrupted blake2b str key entry c).0 ≡ ok none)
        × ((corrupted blake2b str key entry c).1.cache ≡ remove key c.cache)
  unfolding corrupted audit
  corrupted-lenient key entry c h = (rw h refl, rw h refl)

  corrupted-counted :
      (key : K) (entry : IntegrityCacheEntry) (c : IntegrityCache K)
      → (corrupted blake2b str key entry c).1.corruption_detected ≡ c.corruption_detected + 1
  unfolding corrupted audit
  corrupted-counted key entry c = elim (Bool-cases c.strict) [
    | inl t ↦ rw t refl
    | inr f ↦ rw f refl
  ]

  rejected :
      (key : K) (entry : IntegrityCacheEntry) (c : IntegrityCache K)
      → Keyed c.cache
      → get blake2b str (some key) c ≡ corrupted blake2b str key entry c
      → Rejects key c
  rejected key entry c g e = record {
    counted = ap (λ r. r.1.corruption_detected) e ∙ corrupted-counted key entry c;
    strictly = λ h.
        let (a, b) = corrupted-strict key entry c h in
        (ap (λ r. r.0) e ∙ a, ap (λ r. r.1.cache) e ∙ b);
    leniently = λ h.
        let (a, b) = corrupted-lenient key entry c h in
        let removed = ap (λ r. r.1.cache) e ∙ b in
        (
          ap (λ r. r.0) e ∙ a,
          removed,
          ap (lookup key) removed
              ∙ lookup-has key (remove key c.cache) (has-remove_same key c.cache g),
        );
  }

  -- In every state, an entry whose content hash, checksum or errors do not verify, or that belongs to
  -- another key, is not returned: `get` counts a corruption; in strict mode it raises and leaves the
  -- entries as they are, else it returns none and removes the entry.
  pub get-Rejects :
      (key : K) (entry : IntegrityCacheEntry) (c : IntegrityCache K)
      → Keyed c.cache
      → lookup key c.cache ≡ some entry
      → (verify blake2b entry ≡ false) ⊎ (entry.key_hash ≢ compute_key_hash blake2b str key)
      → Rejects key c
  get-Rejects key entry c g at bad = elim (get-cases blake2b str key c) [
    | inl (absent, e) ↦ absurd cc
    | inr (x, f) ↦
        let same : x ≡ entry = let both = sym f.at ∙ at in cc in
        elim f.ends [
          | inr (fails, e) ↦ rejected key x c g e
          | inl (good, e) ↦ elim bad [
            | inl v ↦
                let v' = subst (λ y. verify blake2b y ≡ false) (sym same) v in
                let w = good.verified in absurd cc
            | inr k ↦ absurd (
                k (
                  subst (λ y. y.key_hash ≡ compute_key_hash blake2b str key) same
                    ((text_eq_iff x.key_hash (compute_key_hash blake2b str key)).0 good.bound)))
          ]
        ]
  ]
