-- ===== src/LineOffsets.antt =====
-- src/ftllexengine/syntax/cursor.py: the class `LineOffsetCache`.
pub mod Search
pub mod Correct
use ftllex_engine.Base.{
  ℕ, zero, suc, ◌+◌, ◌-◌, ◌/◌, Option, none, some, List, [], ◌∷◌, true, false, Text, length, ltb,
  leb, if◌then◌else◌, Exn, ok, raised, index_error, ℤ, ◌>>=◌,
}
use ftllex_engine.Cursor.{index, find}

pub record LineOffsetCache : Type 0 where
  pub offsets : List ℕ
  pub source_len : ℕ

-- The loop of `__init__`, on fuel: the starts of the lines after the first.
unfoldable pub line_starts : ℕ → Text → ℕ → List ℕ
line_starts zero source pos = []
line_starts (suc fuel) source pos = elim (find b'\n' source pos) [
  | none ↦ []
  | some newline_pos ↦ (newline_pos + 1) ∷ line_starts fuel source (newline_pos + 1)
]

-- `LineOffsetCache(source)`. Each round of the loop moves on, so the length is fuel enough.
unfoldable pub build : Text → LineOffsetCache
build source = record {
  offsets = 0 ∷ line_starts (length source + 1) source 0;
  source_len = length source;
}

unfoldable pub clamp : LineOffsetCache → ℤ → ℕ
clamp cache (ℤ.negsuc n) = 0
clamp cache (ℤ.pos n) = if ltb cache.source_len n then cache.source_len else n

-- The binary search on fuel, for the last offset that is at most `pos`.
unfoldable pub search_line : ℕ → List ℕ → ℕ → ℕ → ℕ → Exn ℕ
unfolding index
search_line zero offsets pos left right = ok left
search_line (suc fuel) offsets pos left right = elim (ltb left right) [
  | false ↦ ok left
  | true ↦
      let mid = (left + right + 1) / 2 in
      index offsets mid >>= λ offset. elim (leb offset pos) [
        | true ↦ search_line fuel offsets pos mid right
        | false ↦ search_line fuel offsets pos left (mid - 1)
      ]
]

unfoldable pub get_line_col : LineOffsetCache → ℤ → Exn (ℕ × ℕ)
get_line_col cache position =
    let pos = clamp cache position in
    let last = length cache.offsets - 1 in
    search_line last cache.offsets pos 0 last >>= λ left.
    index cache.offsets left >>= λ offset. ok (left + 1, pos - offset + 1)
