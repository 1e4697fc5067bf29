-- ===== src/CacheEntry.antt =====
-- src/ftllexengine/runtime/cache_types.py: the entries of the cache, their hashes and weights.
pub mod Injective
pub mod Utf8
pub mod Tamper
use ftllex_engine.Base.{
  ℕ, zero, suc, ◌+◌, ◌*◌, ◌/◌, ◌%◌, Bool, true, false, ◌&&◌, Option, none, some, List, [], ◌∷◌,
  ◌++◌, Text, text_eq, length, ltb, if◌then◌else◌,
}

abbrev pub Bytes : Type 0
Bytes = List ℕ

-- The texts of a `Diagnostic` that its weight counts.
pub record Diagnostic : Type 0 where
  pub message : Text
  pub hint : Option Text
  pub help_url : Option Text
  pub function_name : Option Text
  pub argument_name : Option Text
  pub expected_type : Option Text
  pub received_type : Option Text
  pub ftl_location : Option Text
  pub resolution_path : Option (List Text)

pub record ErrorContext : Type 0 where
  pub input_value : Text
  pub locale_code : Text
  pub parse_type : Text
  pub fallback_value : Text

-- A `FrozenFluentError`; `intact` is what its `verify_integrity` answers.
pub record FluentError : Type 0 where
  pub message : Text
  pub diagnostic : Option Diagnostic
  pub context : Option ErrorContext
  pub content_hash : Bytes
  pub intact : Bool

-- `if attr is not None: weight += len(attr)`.
abbrev pub optional_weight : Option Text → ℕ
optional_weight none = 0
optional_weight (some attr) = length attr

abbrev pub texts_weight : List Text → ℕ
texts_weight [] = 0
texts_weight (text ∷ texts) = length text + texts_weight texts

unfoldable pub diagnostic_weight : Diagnostic → ℕ
diagnostic_weight diag =
    length diag.message
    + optional_weight diag.hint
    + optional_weight diag.help_url
    + optional_weight diag.function_name
    + optional_weight diag.argument_name
    + optional_weight diag.expected_type
    + optional_weight diag.received_type
    + optional_weight diag.ftl_location
    + elim diag.resolution_path [ none ↦ 0 | some path ↦ texts_weight path ]

unfoldable pub context_weight : ErrorContext → ℕ
context_weight ctx =
    length ctx.input_value
    + length ctx.locale_code
    + length ctx.parse_type
    + length ctx.fallback_value

unfoldable pub estimate_error_weight : FluentError → ℕ
unfolding diagnostic_weight context_weight
estimate_error_weight error =
    100
    + length error.message
    + elim error.diagnostic [ none ↦ 0 | some diag ↦ diagnostic_weight diag ]
    + elim error.context [ none ↦ 0 | some ctx ↦ context_weight ctx ]

-- `sum(_estimate_error_weight(e) for e in errors)`.
unfoldable pub total_error_weight : List FluentError → ℕ
total_error_weight [] = 0
total_error_weight (error ∷ errors) = estimate_error_weight error + total_error_weight errors

-- The UTF-8 bytes of a code point, a surrogate among them.
unfoldable pub encode_char : ℕ → Bytes
encode_char c =
    if ltb c 0x80
    then c ∷ []
    else if ltb c 0x800
    then (0xc0 + c / 64) ∷ (0x80 + c % 64) ∷ []
    else if ltb c 0x10000
    then (0xe0 + c / 4096) ∷ (0x80 + c / 64 % 64) ∷ (0x80 + c % 64) ∷ []
    else (0xf0 + c / 262144) ∷ (0x80 + c / 4096 % 64) ∷ (0x80 + c / 64 % 64) ∷ (0x80 + c % 64) ∷ []

-- `text.encode("utf-8", errors="surrogatepass")`.
unfoldable pub encode : Text → Bytes
encode [] = []
encode (c ∷ text) = encode_char c ++ encode text

-- `value.to_bytes(size, "big")` for a value below 256 ^ size; a larger one raises in the code.
unfoldable pub to_bytes : ℕ → ℕ → Bytes
to_bytes zero value = []
to_bytes (suc size) value = to_bytes size (value / 256) ++ value % 256 ∷ []

abbrev pub error_bytes : List FluentError → Bytes
error_bytes [] = []
error_bytes (error ∷ errors) = 1 ∷ (error.content_hash ++ error_bytes errors)

-- What `_feed_errors` feeds into the hash.
unfoldable pub feed_errors : List FluentError → Bytes
unfolding to_bytes
feed_errors errors = to_bytes 4 (length errors) ++ error_bytes errors

-- All bytes that `_compute_content_hash` hashes.
unfoldable pub content_bytes : Text → List FluentError → Bytes
content_bytes formatted errors =
    to_bytes 4 (length (encode formatted)) ++ (encode formatted ++ feed_errors errors)

-- All bytes that `_compute_checksum` hashes; `created_at` is the 64-bit image of the float.
unfoldable pub checksum_bytes : Text → List FluentError → ℕ → ℕ → Bytes → Bytes
checksum_bytes formatted errors created_at sequence key_hash =
    content_bytes formatted errors ++ (to_bytes 8 created_at ++ (to_bytes 8 sequence ++ key_hash))

pub record IntegrityCacheEntry : Type 0 where
  pub formatted : Text
  pub errors : List FluentError
  pub checksum : Bytes
  pub created_at : ℕ
  pub sequence : ℕ
  pub key_hash : Bytes
  pub content_hash : Bytes

-- `all(error.verify_integrity() for error in errors)`.
abbrev pub all_intact : List FluentError → Bool
all_intact [] = true
all_intact (error ∷ errors) = error.intact && all_intact errors

-- `blake2b size bytes` is the digest of `hashlib.blake2b(digest_size=size)` fed with the bytes.
module _ (blake2b : ℕ → Bytes → Bytes) where
  unfoldable pub compute_content_hash : Text → List FluentError → Bytes
  compute_content_hash formatted errors = blake2b 16 (content_bytes formatted errors)

  unfoldable pub compute_checksum : Text → List FluentError → ℕ → ℕ → Bytes → Bytes
  compute_checksum formatted errors created_at sequence key_hash =
      blake2b 16 (checksum_bytes formatted errors created_at sequence key_hash)

  unfoldable pub create : Text → List FluentError → ℕ → ℕ → Bytes → IntegrityCacheEntry
  create formatted errors created_at sequence key_hash = record {
    formatted = formatted;
    errors = errors;
    checksum = compute_checksum formatted errors created_at sequence key_hash;
    created_at = created_at;
    sequence = sequence;
    key_hash = key_hash;
    content_hash = compute_content_hash formatted errors;
  }

  unfoldable pub verify : IntegrityCacheEntry → Bool
  verify entry =
      if text_eq entry.content_hash (compute_content_hash entry.formatted entry.errors)
      then (if text_eq entry.checksum (
            compute_checksum entry.formatted entry.errors entry.created_at entry.sequence
              entry.key_hash)
          then all_intact entry.errors
          else false)
      else false
