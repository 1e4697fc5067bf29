-- ===== src/Cache/History.antt =====
-- The states that a cache can reach, and what a request meets in them.
use ftllex_engine.Base.{
  ℕ, suc, ◌≤◌, ◌≡◌, subst, inl, inr, Bool, true, false, Option, none, some, List, [], Text,
  text_eq_iff, length, if◌then◌else◌, Exn, ok, raised, ℤ, Eq, lookup, Keyed, arith, ◌≢◌, ◌⊎◌,
}
use ftllex_engine.CacheEntry.{Bytes, FluentError, IntegrityCacheEntry, all_intact}
use ftllex_engine.Cache.{
  IntegrityCache, init, compute_key_hash, hit, missed, get, put, clear, corrupted,
}
use ftllex_engine.Cache.Order.{All-found}
use ftllex_engine.Cache.Branches.{get-cases}
use ftllex_engine.Cache.Preserve.{put-WellFormed, clear-WellFormed}
use ftllex_engine.Cache.Invariant.{Bounded, IsBound, Valid, WellFormed, get-WellFormed}

module _ {ℓ} (K : Type ℓ) ⦃eq : Eq K⦄ (blake2b : ℕ → Bytes → Bytes) where
  empty-Valid :
      (maxsize limit : ℕ) (enable_audit : Bool)
      → Valid {K = K} blake2b [] (suc maxsize) 0 (if enable_audit then some [] else none) limit
  empty-Valid maxsize limit true = record {
    keyed = tt;
    fits = omega arith;
    positive = omega arith;
    all_bound = tt;
    logged = omega arith;
  }
  empty-Valid maxsize limit false = record {
    keyed = tt;
    fits = omega arith;
    positive = omega arith;
    all_bound = tt;
    logged = tt;
  }

  WellFormedResult : Exn (IntegrityCache K) → Type ℓ
  WellFormedResult (ok c) = WellFormed blake2b c
  WellFormedResult (raised e) = Unit

  init-WellFormed :
      (maxsize weight errors : ℤ) (write_once strict enable_audit : Bool) (max_audit : ℕ)
      → WellFormedResult
          (init {K = K} maxsize weight errors write_once strict enable_audit max_audit)
  unfolding init WellFormedResult
  init-WellFormed (ℤ.pos (suc m)) (ℤ.pos (suc w)) (ℤ.pos (suc e)) write_once strict enable_audit
        max_audit =
      empty-Valid m max_audit enable_audit
  init-WellFormed _ _ _ write_once strict enable_audit max_audit = tt

module _ {ℓ} {K : Type ℓ} ⦃eq : Eq K⦄ (blake2b : ℕ → Bytes → Bytes) where
  -- From an initial cache by any calls in any order; the errors of a `put` are intact. Each call has
  -- a `str` of its own, since keys that are equal need not have the same text.
  pub data Reach : IntegrityCache K → Type ℓ where
    made :
        {c : IntegrityCache K} (maxsize weight errors : ℤ) (write_once strict enable_audit : Bool)
        (max_audit : ℕ)
        → init maxsize weight errors write_once strict enable_audit max_audit ≡ ok c
        → Reach c
    got :
        {c : IntegrityCache K} (str : K → Text) (key : Option K)
        → Reach c
        → Reach (get blake2b str key c).1
    stored :
        {c : IntegrityCache K} (str : K → Text) (key : Option K) (created_at : ℕ) (formatted : Text)
        (errors : List FluentError)
        → all_intact errors ≡ true
        → Reach c
        → Reach (put blake2b str key created_at formatted errors c).1
    cleared : {c : IntegrityCache K} → Reach c → Reach (clear c)

  pub Reach-WellFormed : {c : IntegrityCache K} → Reach c → WellFormed blake2b c
  unfolding WellFormedResult
  Reach-WellFormed (made m w e o s a l h) =
      subst (WellFormedResult K blake2b) h (init-WellFormed K blake2b m w e o s a l)
  Reach-WellFormed (got {c} str key r) = get-WellFormed blake2b str key c (Reach-WellFormed r)
  Reach-WellFormed (stored {c} str key t f es h r) =
      put-WellFormed blake2b str key t f es c h (Reach-WellFormed r)
  Reach-WellFormed (cleared {c} r) = clear-WellFormed blake2b c (Reach-WellFormed r)

  -- In every reachable state the cache holds at most `maxsize` entries, no key twice, and its audit
  -- log at most `max_audit_entries` records.
  pub bounded :
      {c : IntegrityCache K}
      → Reach c
      → (length c.cache ≤ c.maxsize) × Keyed c.cache × Bounded c.audit_log c.max_audit_entries
  bounded r = let w = Reach-WellFormed r in (w.fits, w.keyed, w.logged)

  -- No entry is stored at the key, or one with the hash of this text of the key.
  abbrev pub Named : (K → Text) → K → IntegrityCache K → Type 0
  Named str key c =
      (lookup key c.cache ≡ none)
      ⊎ ((entry : IntegrityCacheEntry) × (lookup key c.cache ≡ some entry)
          × (entry.key_hash ≡ compute_key_hash blake2b str key))

  -- An entry is stored at the key with the hash of another text.
  abbrev pub Renamed : (K → Text) → K → IntegrityCache K → Type 0
  Renamed str key c =
      (entry : IntegrityCacheEntry) × (lookup key c.cache ≡ some entry)
      × (entry.key_hash ≢ compute_key_hash blake2b str key)

  -- An entry of a well-formed cache is found unless the text of its key was another.
  pub Reach-cases :
      {c : IntegrityCache K} (str : K → Text) (key : K)
      → Reach c
      → ((lookup key c.cache ≡ none) × (get blake2b str (some key) c ≡ missed blake2b str key c))
        ⊎ ((entry : IntegrityCacheEntry) × (lookup key c.cache ≡ some entry)
            × (((entry.key_hash ≡ compute_key_hash blake2b str key)
                  × (get blake2b str (some key) c ≡ hit blake2b str key entry c))
                ⊎ ((entry.key_hash ≢ compute_key_hash blake2b str key)
                    × (get blake2b str (some key) c ≡ corrupted blake2b str key entry c))))
  Reach-cases {c} str key r = elim (get-cases blake2b str key c) [
    | inl absent ↦ inl absent
    | inr (entry, f) ↦ inr (
      entry,
      f.at,
      elim f.ends [
        | inl (good, e) ↦
            inl ((text_eq_iff entry.key_hash (compute_key_hash blake2b str key)).0 good.bound, e)
        | inr (bad, e) ↦ inr (
          λ same. bad (record {
            verified =
                (All-found (IsBound blake2b c.sequence) key entry c.cache
                  (Reach-WellFormed r).all_bound f.at).verified;
            bound = (text_eq_iff entry.key_hash (compute_key_hash blake2b str key)).1 same;
          }),
          e,
        )
      ],
    )
  ]
