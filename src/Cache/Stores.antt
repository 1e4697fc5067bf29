-- ===== src/Cache/Stores.antt =====
-- What `put` stores, what it keeps, and what it evicts.
use ftllex_engine.Base.{
  ℕ, ◌≤◌, ◌≡◌, ◌≢◌, refl, ◌⊎◌, inl, inr, false, none, some, List, ◌∷◌, Text, length, Eq, Dict,
  lookup, has, if-elim,
}
use ftllex_engine.CacheEntry.{Bytes, FluentError, IntegrityCacheEntry}
use ftllex_engine.Cache.{IntegrityCache, write, put_key}

module _ {ℓ} {K : Type ℓ} ⦃eq : Eq K⦄ where
  -- `j` is the key that was used longest ago.
  abbrev pub IsOldest : K → Dict K IntegrityCacheEntry → Type ℓ
  IsOldest j items =
      (e : K × IntegrityCacheEntry) × (d : Dict K IntegrityCacheEntry) × (items ≡ e ∷ d) × (j ≡ e.0)

  -- The entries behind a write: the new one at `key`; each other key keeps its entry, except the
  -- oldest one if the cache was full and had no entry at `key`.
  pub record Writes (key : K) (entry : IntegrityCacheEntry) (c : IntegrityCache K)
      (items : Dict K IntegrityCacheEntry) : Type ℓ where
    pub newest : lookup key items ≡ some entry
    pub others :
        (j : K)
        → j ≢ key
        → (lookup j items ≡ lookup j c.cache)
          ⊎ (IsOldest j c.cache × (has key c.cache ≡ false) × (c.maxsize ≤ length c.cache))

  -- A key may be written: it is new, or the cache is not in write-once mode.
  abbrev pub IsWritable : K → IntegrityCache K → Type 0
  IsWritable key c = (c.write_once ≡ false) ⊎ (lookup key c.cache ≡ none)

module _ {ℓ} {K : Type ℓ} ⦃eq : Eq K⦄ (blake2b : ℕ → Bytes → Bytes) (str : K → Text) where
  pub put_key-write :
      (key : K) (created_at : ℕ) (formatted : Text) (errors : List FluentError)
      (c : IntegrityCache K)
      → IsWritable key c
      → put_key blake2b str key created_at formatted errors c
        ≡ write blake2b str key created_at formatted errors c
  unfolding put_key
  put_key-write key created_at formatted errors c (inl often) = rw often refl
  put_key-write key created_at formatted errors c (inr new) =
      if-elim (λ r. r ≡ write blake2b str key created_at formatted errors c) c.write_once _ _
        (rw new refl) refl
