-- ===== src/Cache/Invariant.antt =====
-- The invariant of the cache, and that every operation keeps it.
use ftllex_engine.Base.{
  if-elim, ℕ, ◌+◌, ◌-◌, ◌≤◌, ◌<◌, ◌≡◌, subst, sym, inl, inr, true, Option, none, some, List, [],
  ◌∷◌, ◌++◌, Text, text_eq_iff, length, length-drop, All, Exn, Eq, Dict, lookup, remove, Keyed,
  Keyed-remove, arith,
}
use ftllex_engine.CacheEntry.{
  Bytes, FluentError, IntegrityCacheEntry, all_intact, compute_content_hash, compute_checksum,
  create, verify,
}
use ftllex_engine.Cache.{
  Operation, op_miss, op_corruption, op_hit, WriteLogEntry, IntegrityCache, append_bounded, logged,
  audit, to_end, corrupted, hit, missed, get,
}
use ftllex_engine.Cache.Branches.{get-cases}
use ftllex_engine.Cache.Order.{
  length-remove_le, Keyed-last_at, All-last_at, All-removed, All-found, has_of_lookup,
  length-last_at_old,
}

length-append_bounded :
    (limit : ℕ) (entry : WriteLogEntry) (log : List WriteLogEntry)
    → length (append_bounded limit entry log) ≤ limit
unfolding append_bounded
length-append_bounded limit entry log =
    omega (arith, length-drop (length (log ++ entry ∷ []) - limit) (log ++ entry ∷ []))

abbrev pub Bounded : Option (List WriteLogEntry) → ℕ → Type 0
Bounded none limit = Unit
Bounded (some log) limit = length log ≤ limit

Bounded-logged :
    (limit : ℕ) (entry : WriteLogEntry) (log : Option (List WriteLogEntry))
    → Bounded (logged limit entry log) limit
unfolding logged
Bounded-logged limit entry none = tt
Bounded-logged limit entry (some log) = length-append_bounded limit entry log

pub create-verify :
    (blake2b : ℕ → Bytes → Bytes) (formatted : Text) (errors : List FluentError)
    (created_at sequence : ℕ) (key_hash : Bytes)
    → all_intact errors ≡ true
    → verify blake2b (create blake2b formatted errors created_at sequence key_hash) ≡ true
unfolding verify create
create-verify blake2b formatted errors created_at sequence key_hash h = ground (
  arith,
  text_eq_iff (compute_content_hash blake2b formatted errors)
      (compute_content_hash blake2b formatted errors),
  text_eq_iff (compute_checksum blake2b formatted errors created_at sequence key_hash)
      (compute_checksum blake2b formatted errors created_at sequence key_hash),
)

module _ {ℓ} {K : Type ℓ} ⦃eq : Eq K⦄ (blake2b : ℕ → Bytes → Bytes) where
  -- An entry with correct hashes, numbered at most `sequence`.
  pub record IsBound (sequence : ℕ) (item : K × IntegrityCacheEntry) : Type 0 where
    pub verified : verify blake2b item.1 ≡ true
    pub numbered : item.1.sequence ≤ sequence

  pub record Valid (items : Dict K IntegrityCacheEntry) (maxsize sequence : ℕ)
      (log : Option (List WriteLogEntry)) (limit : ℕ) : Type ℓ where
    pub keyed : Keyed items
    pub fits : length items ≤ maxsize
    pub positive : 0 < maxsize
    pub all_bound : All (IsBound sequence) items
    pub logged : Bounded log limit

  abbrev pub WellFormed : IntegrityCache K → Type ℓ
  WellFormed c = Valid c.cache c.maxsize c.sequence c.audit_log c.max_audit_entries

  -- A call leaves a well-formed state.
  abbrev pub Leaves {κ} : {A : Type κ} → Exn A × IntegrityCache K → Type ℓ
  Leaves r = WellFormed r.1

  relog :
      {items : Dict K IntegrityCacheEntry} {maxsize sequence : ℕ}
      {log other : Option (List WriteLogEntry)} {limit : ℕ}
      → Valid items maxsize sequence log limit
      → Bounded other limit
      → Valid items maxsize sequence other limit
  relog w b = record {
    keyed = w.keyed;
    fits = w.fits;
    positive = w.positive;
    all_bound = w.all_bound;
    logged = b;
  }

  pub numbered_later :
      (sequence : ℕ) (items : Dict K IntegrityCacheEntry)
      → All (IsBound sequence) items
      → All (IsBound (sequence + 1)) items
  numbered_later sequence [] h = tt
  numbered_later sequence (x ∷ items) h = (
    record { verified = h.0.verified; numbered = omega (arith, h.0.numbered) },
    numbered_later sequence items h.1,
  )

  dropped :
      (key : K) (c : IntegrityCache K)
      → WellFormed c
      → WellFormed (record c { cache = remove key c.cache })
  dropped key c w = record {
    keyed = Keyed-remove key c.cache w.keyed;
    fits = omega (arith, w.fits, length-remove_le key c.cache);
    positive = w.positive;
    all_bound = All-removed (IsBound c.sequence) key c.cache w.all_bound;
    logged = w.logged;
  }

module _ {ℓ} {K : Type ℓ} ⦃eq : Eq K⦄ (blake2b : ℕ → Bytes → Bytes) (str : K → Text) where
  pub audited :
      (operation : Operation) (key : K) (entry : Option IntegrityCacheEntry) (c : IntegrityCache K)
      → WellFormed blake2b c
      → WellFormed blake2b (audit blake2b str operation key entry c)
  unfolding audit
  audited operation key entry c w =
      relog blake2b w (Bounded-logged c.max_audit_entries _ c.audit_log)

  corrupted-WellFormed :
      (key : K) (entry : IntegrityCacheEntry) (c : IntegrityCache K)
      → WellFormed blake2b c
      → WellFormed blake2b (corrupted blake2b str key entry c).1
  unfolding corrupted
  corrupted-WellFormed key entry c w =
      let d = record c { corruption_detected = c.corruption_detected + 1 } in
      let v = audited op_corruption key (some entry) d w in
      if-elim (Leaves blake2b) c.strict _ _ v
        (dropped blake2b key (audit blake2b str op_corruption key (some entry) d) v)

  -- A found entry is moved to the end.
  hit-WellFormed :
      (key : K) (entry : IntegrityCacheEntry) (c : IntegrityCache K)
      → lookup key c.cache ≡ some entry
      → WellFormed blake2b c
      → WellFormed blake2b (hit blake2b str key entry c).1
  unfolding hit to_end
  hit-WellFormed key entry c at w = audited op_hit key (some entry) _ (record {
    keyed = Keyed-last_at key entry c.cache w.keyed;
    fits =
        omega (
          arith,
          w.fits,
          length-last_at_old key entry c.cache (has_of_lookup key entry c.cache at),
        );
    positive = w.positive;
    all_bound =
        All-last_at (IsBound blake2b c.sequence) key entry c.cache
          (All-found (IsBound blake2b c.sequence) key entry c.cache w.all_bound at) w.all_bound;
    logged = w.logged;
  })

  missed-WellFormed :
      (key : K) (c : IntegrityCache K)
      → WellFormed blake2b c
      → WellFormed blake2b (missed blake2b str key c).1
  unfolding missed
  missed-WellFormed key c w = audited op_miss key none _ w

  pub get-WellFormed :
      (key : Option K) (c : IntegrityCache K)
      → WellFormed blake2b c
      → WellFormed blake2b (get blake2b str key c).1
  unfolding get
  get-WellFormed none c w = w
  get-WellFormed (some key) c w = elim (get-cases blake2b str key c) [
    | inl (absent, e) ↦ subst (Leaves blake2b) (sym e) (missed-WellFormed key c w)
    | inr (entry, f) ↦ elim f.ends [
      | inl (good, e) ↦ subst (Leaves blake2b) (sym e) (hit-WellFormed key entry c f.at w)
      | inr (bad, e) ↦ subst (Leaves blake2b) (sym e) (corrupted-WellFormed key entry c w)
    ]
  ]
