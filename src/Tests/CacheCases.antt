-- ===== src/Tests/CacheCases.antt =====
-- src/ftllexengine/runtime/cache.py at concrete caches.
use ftllex_engine.Base.{
  ℕ, ◌≤◌, ◌≡◌, refl, ◌⊎◌, inl, true, false, some, [], ◌∷◌, Text, codes, text_eq, length, ℤ, ok,
  nat_eq, Keyed, lookup, has, arith, raised, cache_corruption, if◌then◌else◌, remove,
}
use ftllex_engine.CacheEntry.{
  Bytes, IntegrityCacheEntry, encode, encode_char, to_bytes, feed_errors, content_bytes,
  checksum_bytes, compute_checksum, compute_content_hash, create, verify, total_error_weight,
}
use ftllex_engine.CacheEntry.Tamper.{Fits, Agrees, Collides, verify-Agrees}
use ftllex_engine.Cache.{
  IntegrityCache, init, empty, compute_key_hash, hit, get, put, corrupted, put_key, write, store,
  audit, to_end,
}
use ftllex_engine.Cache.Branches.{IsLight}
use ftllex_engine.Cache.Invariant.{Bounded}
use ftllex_engine.Cache.History.{Reach, made, stored, bounded, Named, Renamed}
use ftllex_engine.Cache.Lookups.{Rejects, get-Passes, get-Rejects}
use ftllex_engine.Cache.WriteOnce.{Refuses, put-Refuses}
use ftllex_engine.Cache.Refines.{view, view-get}
use ftllex_engine.Lru.{touched}

-- A digest that keeps its input, and one code point per key.
abbrev digest : ℕ → Bytes → Bytes
digest size bytes = bytes

abbrev key_text : ℕ → Text
key_text key = key ∷ []

-- Two entries at most.
abbrev start : IntegrityCache ℕ
start = empty 2 100 5 false true (some []) 10

start-Reach : Reach digest start
unfolding init
start-Reach = made (ℤ.pos 2) (ℤ.pos 100) (ℤ.pos 5) false true true 10 refl

abbrev with_one : IntegrityCache ℕ
with_one = (put digest key_text (some 65) 7 (codes "Hello") [] start).1

with_one-Reach : Reach digest with_one
with_one-Reach = stored key_text (some 65) 7 (codes "Hello") [] refl start-Reach

bounded_example :
    (length with_one.cache ≤ with_one.maxsize)
    × Keyed with_one.cache
    × Bounded with_one.audit_log with_one.max_audit_entries
bounded_example = bounded digest with_one-Reach

-- A key that is equal to the one stored, with another text, is taken for a corruption.
equal_key : (get digest (λ key. 0 ∷ []) (some 65) with_one).0 ≡ raised cache_corruption
unfolding get lookup verify text_eq create compute_key_hash encode encode_char corrupted
    compute_checksum compute_content_hash checksum_bytes content_bytes feed_errors to_bytes put
    put_key write store audit to_end total_error_weight has remove
equal_key = refl

view-get_example :
    (Named digest key_text 65 with_one
      × (view (get digest key_text (some 65) with_one).1.cache ≡ touched 65 (view with_one.cache)))
    ⊎ (Renamed digest key_text 65 with_one
        × (view (get digest key_text (some 65) with_one).1.cache
            ≡ (if with_one.strict then view with_one.cache else remove 65 (view with_one.cache))))
view-get_example = view-get digest key_text 65 with_one with_one-Reach

-- An entry and its forgery, which has another text.
abbrev honest : IntegrityCacheEntry
honest = create digest (codes "Hi") [] 9 1 (compute_key_hash digest key_text 66)

abbrev forged : IntegrityCacheEntry
forged = record honest { formatted = codes "No" }

abbrev strict_cache : IntegrityCache ℕ
strict_cache = record start { cache = (66, honest) ∷ []; write_once = true }

abbrev broken_cache : IntegrityCache ℕ
broken_cache = record start { cache = (66, forged) ∷ []; strict = false }

honest_found : (get digest key_text (some 66) strict_cache).0 ≡ ok (some honest)
unfolding get lookup verify text_eq create compute_key_hash encode encode_char hit compute_checksum
    compute_content_hash checksum_bytes content_bytes feed_errors to_bytes
honest_found = refl

get-Passes_example :
    (lookup 66 strict_cache.cache ≡ some honest)
    × (verify digest honest ≡ true)
    × (honest.key_hash ≡ compute_key_hash digest key_text 66)
get-Passes_example = get-Passes digest key_text 66 honest strict_cache honest_found

forged_at : lookup 66 broken_cache.cache ≡ some forged
unfolding lookup
forged_at = refl

forged-verify : verify digest forged ≡ false
unfolding verify text_eq create compute_key_hash encode encode_char compute_checksum
    compute_content_hash checksum_bytes content_bytes feed_errors to_bytes
forged-verify = refl

get-Rejects_example : Rejects digest key_text 66 broken_cache
unfolding has
get-Rejects_example =
    get-Rejects digest key_text 66 forged broken_cache (refl, tt) forged_at (inl forged-verify)

honest_at : lookup 66 strict_cache.cache ≡ some honest
unfolding lookup
honest_at = refl

strict-IsLight : IsLight strict_cache (codes "No") []
unfolding total_error_weight
strict-IsLight = record { short = omega arith; few = omega arith; light = omega arith }

put-Refuses_example :
    Refuses digest key_text
      (codes "No")
      []
      honest
      strict_cache
      (put digest key_text (some 66) 11 (codes "No") [] strict_cache)
put-Refuses_example =
    put-Refuses digest key_text 66 11 (codes "No") [] honest strict_cache strict-IsLight refl
      honest_at

honest-Fits : Fits (codes "Hi") [] 9 1
unfolding encode encode_char
honest-Fits = record {
  text_fits = omega arith;
  count_fits = omega arith;
  time_fits = omega arith;
  sequence_fits = omega arith;
  digests = tt;
}

honest-verify : verify digest honest ≡ true
unfolding verify text_eq create compute_key_hash encode encode_char compute_checksum
    compute_content_hash checksum_bytes content_bytes feed_errors to_bytes
honest-verify = refl

verify-Agrees_example :
    Agrees
      (codes "Hi")
      []
      9
      1
      (compute_key_hash digest key_text 66)
      (codes "Hi")
      []
      9
      1
      (compute_key_hash digest key_text 66)
    ⊎ Collides digest
        (checksum_bytes (codes "Hi") [] 9 1 (compute_key_hash digest key_text 66))
        (checksum_bytes (codes "Hi") [] 9 1 (compute_key_hash digest key_text 66))
unfolding create
verify-Agrees_example =
    verify-Agrees digest (codes "Hi") [] 9 1 (compute_key_hash digest key_text 66) honest
      honest-Fits honest-Fits refl honest-verify
