-- ===== src/Cache.antt =====
-- src/ftllexengine/runtime/cache.py and cache_audit.py: the class `IntegrityCache`. Each operation
-- runs under the lock of the cache from its first look at the entries to its end, and is one
-- function from the state to a result and the next state.
pub mod Order
pub mod Branches
pub mod Invariant
pub mod Preserve
pub mod History
pub mod Lookups
pub mod Stores
pub mod WriteOnce
pub mod RoundTrip
pub mod Refines
use ftllex_engine.Base.{
  ℕ, zero, suc, ◌+◌, ◌-◌, Bool, true, false, not, ◌&&◌, ◌||◌, Option, none, some, List, [], ◌∷◌,
  ◌++◌, Text, text_eq, length, drop, ltb, leb, if◌then◌else◌, Exn, ok, raised, value_error,
  key_error, cache_corruption, write_conflict, ℤ, Eq, Dict, lookup, insert, remove, has,
}
use ftllex_engine.CacheEntry.{
  Bytes, FluentError, IntegrityCacheEntry, total_error_weight, compute_content_hash, create, verify,
  encode,
}

pub data Operation : Type 0 where
  op_miss op_corruption op_hit op_write_once_idempotent op_write_once_conflict op_evict op_put :
      Operation

-- `WriteLogEntry`, its two times left out, with bytes for the hexadecimal texts.
pub record WriteLogEntry : Type 0 where
  pub operation : Operation
  pub key_hash : Bytes
  pub sequence : ℕ
  pub checksum : Bytes

pub record IntegrityCache {ℓ} (K : Type ℓ) : Type ℓ where
  pub cache : Dict K IntegrityCacheEntry
  pub maxsize : ℕ
  pub max_entry_weight : ℕ
  pub max_errors_per_entry : ℕ
  pub write_once : Bool
  pub strict : Bool
  pub audit_log : Option (List WriteLogEntry)
  pub max_audit_entries : ℕ
  pub hits : ℕ
  pub misses : ℕ
  pub unhashable_skips : ℕ
  pub oversize_skips : ℕ
  pub error_bloat_skips : ℕ
  pub combined_weight_skips : ℕ
  pub corruption_detected : ℕ
  pub idempotent_writes : ℕ
  pub write_once_conflicts : ℕ
  pub sequence : ℕ

-- A result or an exception, and the state that the call leaves.
abbrev pub Outcome {ℓ} : Type ℓ → Type 0 → Type ℓ
Outcome K A = Exn A × IntegrityCache K

-- `deque(maxlen=limit).append`: the oldest entries beyond the limit leave.
unfoldable pub append_bounded : ℕ → WriteLogEntry → List WriteLogEntry → List WriteLogEntry
append_bounded limit entry log =
    let longer = log ++ entry ∷ [] in drop (length longer - limit) longer

-- Without a log nothing is recorded.
unfoldable pub logged :
    ℕ → WriteLogEntry → Option (List WriteLogEntry) → Option (List WriteLogEntry)
logged limit entry none = none
logged limit entry (some log) = some (append_bounded limit entry log)

-- `IntegrityCache(...)`; a negative `maxlen` of the deque raises as well.
module _ {ℓ} {K : Type ℓ} where
  abbrev pub empty : ℕ → ℕ → ℕ → Bool → Bool → Option (List WriteLogEntry) → ℕ → IntegrityCache K
  empty maxsize max_entry_weight max_errors write_once strict audit_log max_audit = record {
    cache = [];
    maxsize = maxsize;
    max_entry_weight = max_entry_weight;
    max_errors_per_entry = max_errors;
    write_once = write_once;
    strict = strict;
    audit_log = audit_log;
    max_audit_entries = max_audit;
    hits = 0;
    misses = 0;
    unhashable_skips = 0;
    oversize_skips = 0;
    error_bloat_skips = 0;
    combined_weight_skips = 0;
    corruption_detected = 0;
    idempotent_writes = 0;
    write_once_conflicts = 0;
    sequence = 0;
  }

  unfoldable pub init : ℤ → ℤ → ℤ → Bool → Bool → Bool → ℕ → Exn (IntegrityCache K)
  init (ℤ.pos (suc m)) (ℤ.pos (suc w)) (ℤ.pos (suc e)) write_once strict enable_audit max_audit =
      ok (
        empty (suc m) (suc w) (suc e) write_once strict (if enable_audit then some [] else none)
          max_audit)
  init _ _ _ write_once strict enable_audit max_audit = raised value_error

  unfoldable pub clear : IntegrityCache K → IntegrityCache K
  clear c = record c { cache = [] }

-- The digest function of `hashlib`, and `str` on the keys of one call. `K` is what `==` tells of the
-- keys: equal keys, such as a member of an enumeration and its value, may differ in their text, so
-- `str` may be another function in each call.
module _ {ℓ} {K : Type ℓ} ⦃eq : Eq K⦄ (blake2b : ℕ → Bytes → Bytes) (str : K → Text) where
  -- `compute_key_hash` of cache_keys.py, which the audit log repeats.
  unfoldable pub compute_key_hash : K → Bytes
  compute_key_hash key = blake2b 8 (encode (str key))

  unfoldable pub audit :
      Operation → K → Option IntegrityCacheEntry → IntegrityCache K → IntegrityCache K
  audit operation key entry c = record c {
    audit_log =
        logged c.max_audit_entries
          (record {
            operation = operation;
            key_hash = compute_key_hash key;
            sequence = elim entry [ none ↦ 0 | some x ↦ x.sequence ];
            checksum = elim entry [ none ↦ [] | some x ↦ x.checksum ];
          })
          c.audit_log;
  }

  -- `_cache.move_to_end(key)` and the value `entry` at it.
  unfoldable pub to_end :
      K → IntegrityCacheEntry → Dict K IntegrityCacheEntry → Dict K IntegrityCacheEntry
  to_end key entry d = remove key d ++ (key, entry) ∷ []

  -- Both checks of `get` end this way.
  unfoldable pub corrupted :
      K → IntegrityCacheEntry → IntegrityCache K → Outcome K (Option IntegrityCacheEntry)
  corrupted key entry c =
      let d =
        audit op_corruption key (some entry)
          (record c { corruption_detected = c.corruption_detected + 1 }) in
      if c.strict
      then (raised cache_corruption, d)
      else (ok none, record d { cache = remove key d.cache; misses = d.misses + 1 })

  unfoldable pub hit :
      K → IntegrityCacheEntry → IntegrityCache K → Outcome K (Option IntegrityCacheEntry)
  hit key entry c = (
    ok (some entry),
    audit op_hit key (some entry)
        (record c { cache = to_end key entry c.cache; hits = c.hits + 1 }),
  )

  unfoldable pub missed : K → IntegrityCache K → Outcome K (Option IntegrityCacheEntry)
  missed key c = (ok none, audit op_miss key none (record c { misses = c.misses + 1 }))

  -- `get`, from the key that `_make_key` returned.
  unfoldable pub get : Option K → IntegrityCache K → Outcome K (Option IntegrityCacheEntry)
  get none c = (ok none, record c { unhashable_skips = c.unhashable_skips + 1 })
  get (some key) c = elim (lookup key c.cache) [
    | none ↦ missed key c
    | some entry ↦
        if verify blake2b entry
        then (if text_eq entry.key_hash (compute_key_hash key)
            then hit key entry c
            else corrupted key entry c)
        else corrupted key entry c
  ]

  -- A second write to a key in write-once mode.
  unfoldable pub write_again :
      K → Text → List FluentError → IntegrityCacheEntry → IntegrityCache K → Outcome K Unit
  write_again key formatted errors existing c =
      if text_eq existing.content_hash (compute_content_hash blake2b formatted errors)
      then (
        ok tt,
        audit op_write_once_idempotent key (some existing)
            (record c { idempotent_writes = c.idempotent_writes + 1 }),
      )
      else (
        if c.strict then raised write_conflict else ok tt,
        (let d = audit op_write_once_conflict key (some existing) c in
            record d { write_once_conflicts = d.write_once_conflicts + 1 }),
      )

  -- `_cache.popitem(last=False)`, with its record in the log.
  unfoldable pub evict : IntegrityCache K → Outcome K Unit
  evict c = elim c.cache [
    | [] ↦ (raised key_error, c)
    | e ∷ d ↦ (ok tt, audit op_evict e.0 (some e.1) (record c { cache = d }))
  ]

  unfoldable pub store : K → IntegrityCacheEntry → IntegrityCache K → IntegrityCache K
  store key entry c = audit op_put key (some entry) (record c { cache = to_end key entry c.cache })

  -- The entry is stored unless the eviction raised.
  unfoldable pub after_eviction : K → IntegrityCacheEntry → Outcome K Unit → Outcome K Unit
  after_eviction key entry (raised e, c) = (raised e, c)
  after_eviction key entry (ok u, c) = (ok u, store key entry c)

  -- The end of `put`, from `self._sequence += 1` on.
  unfoldable pub write : K → ℕ → Text → List FluentError → IntegrityCache K → Outcome K Unit
  write key created_at formatted errors c =
      let d = record c { sequence = c.sequence + 1 } in
      let entry = create blake2b formatted errors created_at d.sequence (compute_key_hash key) in
      if not (has key d.cache) && leb d.maxsize (length d.cache)
      then after_eviction key entry (evict d)
      else (ok tt, store key entry d)

  unfoldable pub put_key : K → ℕ → Text → List FluentError → IntegrityCache K → Outcome K Unit
  put_key key created_at formatted errors c =
      if c.write_once
      then elim (lookup key c.cache) [
        | none ↦ write key created_at formatted errors c
        | some existing ↦ write_again key formatted errors existing c
      ]
      else write key created_at formatted errors c

  -- `put`, from the key that `_make_key` returned; `created_at` is the time of the entry.
  unfoldable pub put : Option K → ℕ → Text → List FluentError → IntegrityCache K → Outcome K Unit
  put key created_at formatted errors c =
      if ltb c.max_entry_weight (length formatted)
      then (ok tt, record c { oversize_skips = c.oversize_skips + 1 })
      else if ltb c.max_errors_per_entry (length errors)
      then (ok tt, record c { error_bloat_skips = c.error_bloat_skips + 1 })
      else if ltb c.max_entry_weight (length formatted + total_error_weight errors)
      then (ok tt, record c { combined_weight_skips = c.combined_weight_skips + 1 })
      else elim key [
        | none ↦ (ok tt, record c { unhashable_skips = c.unhashable_skips + 1 })
        | some k ↦ put_key k created_at formatted errors c
      ]
