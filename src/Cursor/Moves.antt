-- ===== src/Cursor/Moves.antt =====
-- The moves of the cursor: they keep it valid, they go forward, and what they refuse.
use ftllex_engine.Base.{
  ℕ, zero, suc, ◌+◌, ◌-◌, ◌<◌, ◌≡◌, refl, ◌⊎◌, inl, inr, some, length, get_elem?, min, true, ok,
  raised, value_error, ℤ, arith, get_elem?-some, Bool-cases, leb,
}
use ftllex_engine.Cursor.{Cursor, new, is_eof, peek, advance, moved}
use ftllex_engine.Cursor.Scan.{IsValid}

-- `d` is the cursor `count` characters after `c`, or at the end of the text if less is left.
pub record MovedBy (c : Cursor) (count : ℕ) (d : Cursor) : Type 0 where
  pub same_text : d.source ≡ c.source
  pub valid : IsValid d
  pub progress : (is_eof c ≡ true) ⊎ (c.pos < d.pos)
  pub lands : (d.pos ≡ c.pos + count) ⊎ ((d.pos ≡ length c.source) × (d.pos < c.pos + count))

pub Advances : Cursor → ℤ → Type 0
Advances c (ℤ.negsuc n) = advance c (ℤ.negsuc n) ≡ raised value_error
Advances c (ℤ.pos zero) = advance c (ℤ.pos zero) ≡ raised value_error
Advances c (ℤ.pos (suc n)) =
    (advance c (ℤ.pos (suc n)) ≡ ok (moved c (suc n))) × MovedBy c (suc n) (moved c (suc n))

min_cases : (a b : ℕ) → (min a b ≡ a) ⊎ ((min a b ≡ b) × (min a b < a))
min_cases a b = elim (Bool-cases (leb a b)) [
  | inl h ↦ inl (ground arith)
  | inr h ↦ inr (ground arith, ground arith)
]

moved-MovedBy : (c : Cursor) (n : ℕ) → IsValid c → MovedBy c (suc n) (moved c (suc n))
unfolding moved is_eof
moved-MovedBy c n v = record {
  same_text = refl;
  valid = omega arith;
  progress = elim (Bool-cases (leb (length c.source) c.pos)) [
    | inl h ↦ inl h
    | inr h ↦ inr (ground arith)
  ];
  lands = min_cases (c.pos + suc n) (length c.source);
}

-- On a valid cursor `advance` refuses every count below 1; for any other count it returns a valid
-- cursor over the same text, `count` characters on or else at the end of the text, and strictly
-- further on unless the cursor was already at the end.
pub advance-Advances : (c : Cursor) (count : ℤ) → IsValid c → Advances c count
unfolding advance new moved Advances
advance-Advances c (ℤ.negsuc n) v = refl
advance-Advances c (ℤ.pos zero) v = refl
advance-Advances c (ℤ.pos (suc n)) v = (ground arith, moved-MovedBy c n v)

-- A negative offset that stays inside the text returns the character before the cursor: the
-- look-behind that the documentation of `peek` says is not supported.
pub peek_behind :
    (c : Cursor) (n : ℕ)
    → IsValid c
    → n < c.pos
    → (ch : ℕ) × (peek c (ℤ.negsuc n) ≡ some ch) × (get_elem? c.source (c.pos - suc n) ≡ some ch)
unfolding peek
peek_behind c n v lt =
    let (ch, e) = get_elem?-some c.source (c.pos - suc n) (omega arith) in (ch, ground arith, e)
