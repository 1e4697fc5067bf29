-- ===== src/Cache/Preserve.antt =====
-- `put` and `clear` keep the invariant of the cache.
use ftllex_engine.Base.{
  if-elim, Option-elim, ◌⊎◌, ℕ, ◌+◌, ◌<◌, ◌≡◌, subst, ap, sym, inl, inr, true, Option, some, List,
  ◌∷◌, Text, text_eq, length, All, ltb, Eq, Dict, lookup, has, Keyed, arith,
}
use ftllex_engine.CacheEntry.{
  total_error_weight, Bytes, FluentError, IntegrityCacheEntry, all_intact, compute_content_hash,
  create,
}
use ftllex_engine.Cache.{
  op_write_once_idempotent, op_write_once_conflict, op_evict, op_put, IntegrityCache,
  compute_key_hash, audit, to_end, write_again, store, write, put_key, put, clear,
}
use ftllex_engine.Cache.Branches.{
  numbered, entry_of, evicted, write-stores, write-evicts, room-cases,
}
use ftllex_engine.Cache.Order.{length-last_at_le, Keyed-last_at, All-last_at, length-last_at_old}
use ftllex_engine.Cache.Invariant.{
  IsBound, WellFormed, Leaves, audited, create-verify, numbered_later,
}

module _ {ℓ} {K : Type ℓ} ⦃eq : Eq K⦄ (blake2b : ℕ → Bytes → Bytes) (str : K → Text) where
  store-WellFormed :
      (key : K) (entry : IntegrityCacheEntry) (c : IntegrityCache K)
      → WellFormed blake2b c
      → IsBound blake2b c.sequence (key, entry)
      → (has key c.cache ≡ true) ⊎ (length c.cache < c.maxsize)
      → WellFormed blake2b (store blake2b str key entry c)
  unfolding store to_end
  store-WellFormed key entry c w b room = audited blake2b str op_put key (some entry) _ (record {
    keyed = Keyed-last_at key entry c.cache w.keyed;
    fits = elim room [
      | inl old ↦ omega (arith, w.fits, length-last_at_old key entry c.cache old)
      | inr free ↦ omega (arith, w.fits, length-last_at_le key entry c.cache)
    ];
    positive = w.positive;
    all_bound = All-last_at (IsBound blake2b c.sequence) key entry c.cache b w.all_bound;
    logged = w.logged;
  })

  numbered-WellFormed :
      (c : IntegrityCache K) → WellFormed blake2b c → WellFormed blake2b (numbered c)
  numbered-WellFormed c w = record {
    keyed = w.keyed;
    fits = w.fits;
    positive = w.positive;
    all_bound = numbered_later blake2b c.sequence c.cache w.all_bound;
    logged = w.logged;
  }

  evicted-WellFormed :
      (e : K × IntegrityCacheEntry) (d : Dict K IntegrityCacheEntry) (c : IntegrityCache K)
      → c.cache ≡ e ∷ d
      → WellFormed blake2b c
      → WellFormed blake2b (evicted blake2b str e d c)
  evicted-WellFormed e d c shape w =
      let keyed : Keyed (e ∷ d) = subst Keyed shape w.keyed in
      let all : All (IsBound blake2b c.sequence) (e ∷ d) =
        subst (All (IsBound blake2b c.sequence)) shape w.all_bound in
      audited blake2b str op_evict e.0 (some e.1) _ (record {
        keyed = keyed.1;
        fits = omega (arith, w.fits, ap length shape);
        positive = w.positive;
        all_bound = all.1;
        logged = w.logged;
      })

  entry_of-IsBound :
      (key : K) (created_at : ℕ) (formatted : Text) (errors : List FluentError)
      (c : IntegrityCache K)
      → all_intact errors ≡ true
      → IsBound blake2b
          (c.sequence + 1)
          (key, entry_of blake2b str key created_at formatted errors c)
  unfolding create
  entry_of-IsBound key created_at formatted errors c h = record {
    verified =
        create-verify blake2b formatted errors created_at (c.sequence + 1)
          (compute_key_hash blake2b str key) h;
    numbered = omega arith;
  }

  write-WellFormed :
      (key : K) (created_at : ℕ) (formatted : Text) (errors : List FluentError)
      (c : IntegrityCache K)
      → all_intact errors ≡ true
      → WellFormed blake2b c
      → WellFormed blake2b (write blake2b str key created_at formatted errors c).1
  unfolding audit
  write-WellFormed key created_at formatted errors c h w =
      let b = entry_of-IsBound key created_at formatted errors c h in
      elim (room-cases c key w.positive) [
        | inl room ↦
            subst (Leaves blake2b)
              (sym (write-stores blake2b str key created_at formatted errors c room))
              (store-WellFormed key _ (numbered c) (numbered-WellFormed c w) b room)
        | inr (e, d, shape, new, full) ↦
            subst (Leaves blake2b)
              (sym (write-evicts blake2b str key created_at formatted errors c e d shape new full))
              (store-WellFormed key _ (evicted blake2b str e d (numbered c))
                (evicted-WellFormed e d (numbered c) shape (numbered-WellFormed c w)) b
                (inr (omega (arith, w.fits, ap length shape))))
      ]

  write_again-WellFormed :
      (key : K) (formatted : Text) (errors : List FluentError) (existing : IntegrityCacheEntry)
      (c : IntegrityCache K)
      → WellFormed blake2b c
      → WellFormed blake2b (write_again blake2b str key formatted errors existing c).1
  unfolding write_again
  write_again-WellFormed key formatted errors existing c w =
      if-elim (Leaves blake2b)
        (text_eq existing.content_hash (compute_content_hash blake2b formatted errors)) _ _
        (audited blake2b str op_write_once_idempotent key (some existing) _ w)
        (audited blake2b str op_write_once_conflict key (some existing) c w)

  put_key-WellFormed :
      (key : K) (created_at : ℕ) (formatted : Text) (errors : List FluentError)
      (c : IntegrityCache K)
      → all_intact errors ≡ true
      → WellFormed blake2b c
      → WellFormed blake2b (put_key blake2b str key created_at formatted errors c).1
  unfolding put_key
  put_key-WellFormed key created_at formatted errors c h w =
      let written = write-WellFormed key created_at formatted errors c h w in
      if-elim (Leaves blake2b) c.write_once _ _
        (Option-elim (Leaves blake2b) (lookup key c.cache) written
          (λ existing. write_again-WellFormed key formatted errors existing c w))
        written

  pub put-WellFormed :
      (key : Option K) (created_at : ℕ) (formatted : Text) (errors : List FluentError)
      (c : IntegrityCache K)
      → all_intact errors ≡ true
      → WellFormed blake2b c
      → WellFormed blake2b (put blake2b str key created_at formatted errors c).1
  unfolding put
  put-WellFormed key created_at formatted errors c h w =
      if-elim (Leaves blake2b) (ltb c.max_entry_weight (length formatted)) _ _ w (
        if-elim (Leaves blake2b) (ltb c.max_errors_per_entry (length errors)) _ _ w (
          if-elim (Leaves blake2b)
            (ltb c.max_entry_weight (length formatted + total_error_weight errors)) _ _ w
            (Option-elim (Leaves blake2b) key w
              (λ k. put_key-WellFormed k created_at formatted errors c h w))))

module _ {ℓ} {K : Type ℓ} ⦃eq : Eq K⦄ (blake2b : ℕ → Bytes → Bytes) where
  pub clear-WellFormed :
      (c : IntegrityCache K) → WellFormed blake2b c → WellFormed blake2b (clear c)
  unfolding clear
  clear-WellFormed c w = record {
    keyed = tt;
    fits = omega arith;
    positive = w.positive;
    all_bound = tt;
    logged = w.logged;
  }
