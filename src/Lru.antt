-- ===== src/Lru.antt =====
-- What src/ftllexengine/runtime/cache.py promises of its entries, without hashes, numbers and
-- counters: a list of contents, the one used longest ago first.
use ftllex_engine.Base.{
  ℕ, not, ◌&&◌, none, some, [], ◌∷◌, ◌++◌, length, leb, if◌then◌else◌, Eq, Dict, lookup, remove,
  has,
}

module _ {ℓ κ} {K : Type ℓ} {V : Type κ} ⦃eq : Eq K⦄ where
  -- A read: what is there becomes the newest.
  unfoldable pub touched : K → Dict K V → Dict K V
  touched key d = elim (lookup key d) [ none ↦ d | some v ↦ remove key d ++ (key, v) ∷ [] ]

  abbrev pub without_oldest : Dict K V → Dict K V
  without_oldest [] = []
  without_oldest (e ∷ d) = d

  -- A write: it makes room if it must, and the new content is the newest.
  unfoldable pub written : ℕ → K → V → Dict K V → Dict K V
  written limit key v d =
      let room = if not (has key d) && leb limit (length d) then without_oldest d else d in
      remove key room ++ (key, v) ∷ []
