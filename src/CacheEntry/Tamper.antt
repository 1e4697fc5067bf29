-- ===== src/CacheEntry/Tamper.antt =====
-- What tampering with an entry takes: a collision of the digest function.
use ftllex_engine.Base.{
  ℕ, ◌<◌, ◌≡◌, ◌≢◌, ap, sym, ◌∙◌, ◌⊎◌, inl, inr, true, false, List, ◌++◌, append_assoc, Text,
  text_eq, text_eq_iff, length, Bool-cases,
}
use ftllex_engine.CacheEntry.{
  Bytes, FluentError, IntegrityCacheEntry, encode, to_bytes, error_bytes, feed_errors,
  content_bytes, checksum_bytes, compute_checksum, compute_content_hash, create, verify,
}
use ftllex_engine.CacheEntry.Utf8.{encode-injective}
use ftllex_engine.CacheEntry.Injective.{
  append-injective, length-to_bytes, to_bytes-injective, values, hashes, Digests,
  error_bytes-injective,
}

-- The sizes for which no `to_bytes` of the checksum raises, and digests of 16 bytes for the errors.
pub record Fits (formatted : Text) (errors : List FluentError) (created_at sequence : ℕ)
    : Type 0 where
  pub text_fits : length (encode formatted) < values 4
  pub count_fits : length errors < values 4
  pub time_fits : created_at < values 8
  pub sequence_fits : sequence < values 8
  pub digests : Digests errors

-- Two entries with the same text, the same hashes of errors, time, number and key.
pub record Agrees (formatted : Text) (errors : List FluentError) (created_at sequence : ℕ)
    (key_hash : Bytes) (formatted' : Text) (errors' : List FluentError) (created_at' sequence' : ℕ)
    (key_hash' : Bytes) : Type 0 where
  pub same_text : formatted ≡ formatted'
  pub same_errors : hashes errors ≡ hashes errors'
  pub same_time : created_at ≡ created_at'
  pub same_sequence : sequence ≡ sequence'
  pub same_key : key_hash ≡ key_hash'

number-append :
    (size a b : ℕ) (ys vs : Bytes)
    → a < values size
    → b < values size
    → to_bytes size a ++ ys ≡ to_bytes size b ++ vs
    → (a ≡ b) × (ys ≡ vs)
number-append size a b ys vs la lb h =
    let (e, rest) =
      append-injective (to_bytes size a) ys (to_bytes size b) vs
        (length-to_bytes size a ∙ sym (length-to_bytes size b)) h in
    (to_bytes-injective size a b la lb e, rest)

-- The bytes of the checksum, one field behind the other.
checksum_bytes-flat :
    (formatted : Text) (errors : List FluentError) (created_at sequence : ℕ) (key_hash : Bytes)
    → checksum_bytes formatted errors created_at sequence key_hash
      ≡ to_bytes 4 (length (encode formatted))
        ++ (encode formatted
            ++ (to_bytes 4 (length errors)
                ++ (error_bytes errors
                    ++ (to_bytes 8 created_at ++ (to_bytes 8 sequence ++ key_hash)))))
unfolding checksum_bytes content_bytes feed_errors
checksum_bytes-flat formatted errors created_at sequence key_hash =
    let rest = to_bytes 8 created_at ++ (to_bytes 8 sequence ++ key_hash) in
    append_assoc (to_bytes 4 (length (encode formatted)))
      (encode formatted ++ (to_bytes 4 (length errors) ++ error_bytes errors)) rest
    ∙ ap (λ x. to_bytes 4 (length (encode formatted)) ++ x)
        (append_assoc (encode formatted) (to_bytes 4 (length errors) ++ error_bytes errors) rest
          ∙ ap (λ x. encode formatted ++ x)
              (append_assoc (to_bytes 4 (length errors)) (error_bytes errors) rest))

checksum_bytes-injective :
    (formatted formatted' : Text) (errors errors' : List FluentError)
    (created_at created_at' sequence sequence' : ℕ) (key_hash key_hash' : Bytes)
    → Fits formatted errors created_at sequence
    → Fits formatted' errors' created_at' sequence'
    → checksum_bytes formatted errors created_at sequence key_hash
      ≡ checksum_bytes formatted' errors' created_at' sequence' key_hash'
    → Agrees formatted errors created_at sequence key_hash formatted' errors' created_at' sequence'
        key_hash'
checksum_bytes-injective f f' es es' t t' s s' k k' p q h =
    let flat = sym (checksum_bytes-flat f es t s k) ∙ h ∙ checksum_bytes-flat f' es' t' s' k' in
    let (size, h1) = number-append 4 _ _ _ _ p.text_fits q.text_fits flat in
    let (text, h2) = append-injective (encode f) _ (encode f') _ size h1 in
    let (count, h3) = number-append 4 _ _ _ _ p.count_fits q.count_fits h2 in
    let (errors, h4) = error_bytes-injective es es' _ _ p.digests q.digests count h3 in
    let (time, h5) = number-append 8 _ _ _ _ p.time_fits q.time_fits h4 in
    let (number, h6) = number-append 8 _ _ _ _ p.sequence_fits q.sequence_fits h5 in
    record {
      same_text = encode-injective f f' text;
      same_errors = errors;
      same_time = time;
      same_sequence = number;
      same_key = h6;
    }

module _ (blake2b : ℕ → Bytes → Bytes) where
  -- Two different inputs with one 16-byte digest.
  abbrev pub Collides : Bytes → Bytes → Type 0
  Collides xs ys = (xs ≢ ys) × (blake2b 16 xs ≡ blake2b 16 ys)

  verify-checksum :
      (entry : IntegrityCacheEntry)
      → verify blake2b entry ≡ true
      → entry.checksum
        ≡ compute_checksum blake2b entry.formatted entry.errors entry.created_at entry.sequence
            entry.key_hash
  unfolding verify
  verify-checksum entry h =
      let new =
        compute_checksum blake2b entry.formatted entry.errors entry.created_at entry.sequence
          entry.key_hash in
      let same = compute_content_hash blake2b entry.formatted entry.errors in
      (text_eq_iff entry.checksum new).0 (elim (Bool-cases (text_eq entry.checksum new)) [
        | inl t ↦ t
        | inr f ↦ absurd (elim (Bool-cases (text_eq entry.content_hash same)) [
          | inl u ↦ let v : false ≡ true = rw (u, f) at h in absurd cc
          | inr u ↦ let v : false ≡ true = rw u at h in absurd cc
        ])
      ])

  -- An entry that verifies with the checksum of an entry that `create` made has the same text, the
  -- same hashes of errors in the same order, the same time, number and key; else the bytes of the two
  -- checksums are two different inputs with the same digest. The sizes are such that no length is
  -- cut off.
  pub verify-Agrees :
      (formatted : Text) (errors : List FluentError) (created_at sequence : ℕ) (key_hash : Bytes)
      (entry : IntegrityCacheEntry)
      → Fits formatted errors created_at sequence
      → Fits entry.formatted entry.errors entry.created_at entry.sequence
      → entry.checksum ≡ (create blake2b formatted errors created_at sequence key_hash).checksum
      → verify blake2b entry ≡ true
      → Agrees entry.formatted entry.errors entry.created_at entry.sequence entry.key_hash formatted
          errors created_at sequence key_hash
        ⊎ Collides
            (checksum_bytes entry.formatted entry.errors entry.created_at entry.sequence
              entry.key_hash)
            (checksum_bytes formatted errors created_at sequence key_hash)
  unfolding create compute_checksum
  verify-Agrees f es t s k entry p q e v =
      let now =
        checksum_bytes entry.formatted entry.errors entry.created_at entry.sequence
          entry.key_hash in
      let old = checksum_bytes f es t s k in
      elim (Bool-cases (text_eq now old)) [
        | inl same ↦ inl (
            checksum_bytes-injective entry.formatted f entry.errors es entry.created_at t
              entry.sequence s entry.key_hash k q p ((text_eq_iff now old).0 same))
        | inr differ ↦ inr (
          λ h. (let same = (text_eq_iff now old).1 h in absurd cc),
          sym (verify-checksum entry v) ∙ e,
        )
      ]
