-- ===== src/Cache/WriteOnce.antt =====
-- A second `put` at a key in write-once mode.
use ftllex_engine.Base.{
  ℕ, ◌+◌, ◌≡◌, ◌≢◌, refl, subst, sym, ◌∙◌, inl, inr, true, some, List, Text, text_eq, text_eq_iff,
  ok, raised, write_conflict, Bool-cases, Eq, lookup, if◌then◌else◌,
}
use ftllex_engine.CacheEntry.{Bytes, FluentError, IntegrityCacheEntry, compute_content_hash}
use ftllex_engine.Cache.{Outcome, IntegrityCache, audit, write_again, put_key, put}
use ftllex_engine.Cache.Branches.{IsLight, put-light}

module _ {ℓ} {K : Type ℓ} ⦃eq : Eq K⦄ (blake2b : ℕ → Bytes → Bytes) (str : K → Text) where
  -- What a second `put` at a key does in write-once mode: nothing to the entries. Equal content is a
  -- benign repetition; other content is a conflict, which raises in strict mode.
  pub record Refuses (formatted : Text) (errors : List FluentError) (existing : IntegrityCacheEntry)
      (c : IntegrityCache K) (r : Outcome K Unit) : Type ℓ where
    pub kept : r.1.cache ≡ c.cache
    pub repeated :
        existing.content_hash ≡ compute_content_hash blake2b formatted errors
        → (r.0 ≡ ok tt)
          × (r.1.idempotent_writes ≡ c.idempotent_writes + 1)
          × (r.1.write_once_conflicts ≡ c.write_once_conflicts)
    pub conflicting :
        existing.content_hash ≢ compute_content_hash blake2b formatted errors
        → (r.0 ≡ (if c.strict then raised write_conflict else ok tt))
          × (r.1.idempotent_writes ≡ c.idempotent_writes)
          × (r.1.write_once_conflicts ≡ c.write_once_conflicts + 1)

  write_again-Refuses :
      (key : K) (formatted : Text) (errors : List FluentError) (existing : IntegrityCacheEntry)
      (c : IntegrityCache K)
      → Refuses formatted errors existing c
          (write_again blake2b str key formatted errors existing c)
  unfolding write_again audit
  write_again-Refuses key formatted errors existing c =
      let new = compute_content_hash blake2b formatted errors in
      let same = text_eq_iff existing.content_hash new in
      elim (Bool-cases (text_eq existing.content_hash new)) [
        | inl t ↦ record {
          kept = rw t refl;
          repeated = λ h. (rw t refl, rw t refl, rw t refl);
          conflicting = λ h. absurd (h (same.0 t));
        }
        | inr f ↦ record {
          kept = rw f refl;
          repeated = λ h. let t = same.1 h in absurd cc;
          conflicting = λ h. (rw f refl, rw f refl, rw f refl);
        }
      ]

  put_key-again :
      (key : K) (created_at : ℕ) (formatted : Text) (errors : List FluentError)
      (existing : IntegrityCacheEntry) (c : IntegrityCache K)
      → c.write_once ≡ true
      → lookup key c.cache ≡ some existing
      → put_key blake2b str key created_at formatted errors c
        ≡ write_again blake2b str key formatted errors existing c
  unfolding put_key
  put_key-again key created_at formatted errors existing c once at = simp once (rw at refl)

  -- In write-once mode a `put` that is not too heavy, at a key that has an entry, leaves all entries as
  -- they are. If the content hash is the one of the stored entry, it succeeds and counts a repetition;
  -- if not, it counts a conflict, and raises exactly in strict mode.
  pub put-Refuses :
      (key : K) (created_at : ℕ) (formatted : Text) (errors : List FluentError)
      (existing : IntegrityCacheEntry) (c : IntegrityCache K)
      → IsLight c formatted errors
      → c.write_once ≡ true
      → lookup key c.cache ≡ some existing
      → Refuses formatted errors existing c
          (put blake2b str (some key) created_at formatted errors c)
  put-Refuses key created_at formatted errors existing c light once at =
      subst (Refuses formatted errors existing c)
        (sym (
          put-light blake2b str key created_at formatted errors c light
          ∙ put_key-again key created_at formatted errors existing c once at))
        (write_again-Refuses key formatted errors existing c)
