-- ===== src/Primitives/Escapes.antt =====
-- What an escape sequence can stand for.
use ftllex_engine.Base.{
  ℕ, ◌+◌, ◌≤◌, ◌<◌, ◌≡◌, refl, Bool, true, false, not, ◌||◌, [], ◌∷◌, Text, length, ltb, leb, ◌==◌,
  if◌then◌else◌, Bool-cases, inl, inr, arith, ◌⊎◌, Exception, Exn, ok, raised, length-take,
  length-drop, drop, ◌-◌,
}
use ftllex_engine.Cursor.{Cursor, current, slice_ahead, step, moved, is_eof}
use ftllex_engine.Primitives.{
  Parsed, parsed, error, is_hex, all_hex, hex_digit, hex_value, max_code_point, is_surrogate,
  unicode_escape, escape_of, parse_escape_sequence, fail, invalid_unicode_escape, invalid_surrogate,
  invalid_code_point,
}

-- A Unicode scalar value: a code point that is no surrogate.
pub record IsScalar (code : ℕ) : Type 0 where
  pub within : code ≤ max_code_point
  pub no_surrogate : is_surrogate code ≡ false

-- A scalar value, and a cursor further on in the same text that is still valid.
pub record Escaped (c : Cursor) (code : ℕ) (d : Cursor) : Type 0 where
  pub scalar : IsScalar code
  pub same_text : d.source ≡ c.source
  pub progress : c.pos < d.pos
  pub valid : d.pos ≤ length d.source

pub Yields : Cursor → Parsed ℕ → Type 0
Yields c (parsed code d) = Escaped c code d
Yields c (error e) = Unit

hex_digit-lt : (c : ℕ) → is_hex c ≡ true → hex_digit c < 16
hex_digit-lt c h = ground arith

-- Four digits stay below 2 ^ 16.
hex_value-le : (text : Text) → all_hex text ≡ true → length text ≤ 4 → hex_value 0 text ≤ 0xffff
unfolding all_hex hex_value
hex_value-le [] h le = omega arith
hex_value-le (a ∷ []) h le = omega (arith, hex_digit-lt a (ground arith))
hex_value-le (a ∷ b ∷ []) h le =
    omega (arith, hex_digit-lt a (ground arith), hex_digit-lt b (ground arith))
hex_value-le (a ∷ b ∷ c ∷ []) h le = omega (
  arith,
  hex_digit-lt a (ground arith),
  hex_digit-lt b (ground arith),
  hex_digit-lt c (ground arith),
)
hex_value-le (a ∷ b ∷ c ∷ d ∷ []) h le = omega (
  arith,
  hex_digit-lt a (ground arith),
  hex_digit-lt b (ground arith),
  hex_digit-lt c (ground arith),
  hex_digit-lt d (ground arith),
)
hex_value-le (a ∷ b ∷ c ∷ d ∷ e ∷ text) h le = absurd (omega arith)

length-slice_ahead : (c : Cursor) (n : ℕ) → length (slice_ahead c n) ≤ n
unfolding slice_ahead
length-slice_ahead c n = omega (arith, length-take (c.pos + n - c.pos) (drop c.pos c.source))

slice_ahead-room :
    (c : Cursor) (n : ℕ) → n ≤ length (slice_ahead c n) → 0 < n → c.pos + n ≤ length c.source
unfolding slice_ahead
slice_ahead-room c n le lt =
    omega (arith, length-take (c.pos + n - c.pos) (drop c.pos c.source), length-drop c.pos c.source)

escape_at :
    (c : Cursor) (code n : ℕ)
    → IsScalar code
    → 0 < n
    → c.pos + n ≤ length c.source
    → Yields c (parsed code (moved c n))
unfolding moved Yields
escape_at c code n i lt le = record {
  scalar = i;
  same_text = refl;
  progress = ground arith;
  valid = ground arith;
}

-- What `unicode_escape` answers, from what it tests.
escape_short :
    (c : Cursor) (digits : Text)
    → length digits ≤ 4
    → (4 ≤ length digits → c.pos + 4 ≤ length c.source)
    → Yields c (
        if ltb (length digits) 4 || not (all_hex digits)
        then fail (invalid_unicode_escape 4) c
        else if is_surrogate (hex_value 0 digits)
        then fail (invalid_surrogate digits) (moved c 4)
        else parsed (hex_value 0 digits) (moved c 4))
unfolding Yields
escape_short c digits le room = elim (Bool-cases (ltb (length digits) 4 || not (all_hex digits))) [
  | inl t ↦ rw t tt
  | inr f ↦ rw f (elim (Bool-cases (is_surrogate (hex_value 0 digits))) [
    | inl t ↦ rw t tt
    | inr g ↦ rw g (
        escape_at c _ 4
          (record {
            within = omega (arith, hex_value-le digits (ground arith) le);
            no_surrogate = g;
          })
          (omega arith) (room (ground arith)))
  ])
]

unicode_escape-short : (c : Cursor) → Yields c (unicode_escape 4 c)
unfolding unicode_escape
unicode_escape-short c =
    escape_short c (slice_ahead c 4) (length-slice_ahead c 4)
      (λ h. slice_ahead-room c 4 h (omega arith))

escape_long :
    (c : Cursor) (digits : Text)
    → (6 ≤ length digits → c.pos + 6 ≤ length c.source)
    → Yields c (
        if ltb (length digits) 6 || not (all_hex digits)
        then fail (invalid_unicode_escape 6) c
        else if ltb max_code_point (hex_value 0 digits)
        then fail (invalid_code_point digits) (moved c 6)
        else if is_surrogate (hex_value 0 digits)
        then fail (invalid_surrogate digits) (moved c 6)
        else parsed (hex_value 0 digits) (moved c 6))
unfolding Yields
escape_long c digits room = elim (Bool-cases (ltb (length digits) 6 || not (all_hex digits))) [
  | inl t ↦ rw t tt
  | inr f ↦ rw f (elim (Bool-cases (ltb max_code_point (hex_value 0 digits))) [
    | inl t ↦ rw t tt
    | inr e ↦ rw e (elim (Bool-cases (is_surrogate (hex_value 0 digits))) [
      | inl t ↦ rw t tt
      | inr g ↦ rw g (
          escape_at c _ 6 (record { within = ground arith; no_surrogate = g }) (omega arith)
            (room (ground arith)))
    ])
  ])
]

unicode_escape-long : (c : Cursor) → Yields c (unicode_escape 6 c)
unfolding unicode_escape
unicode_escape-long c = escape_long c (slice_ahead c 6) (λ h. slice_ahead-room c 6 h (omega arith))

-- An escape read behind the character at the cursor was read at the cursor.
Yields-step :
    (c : Cursor) → c.pos < length c.source → (r : Parsed ℕ) → Yields (step c) r → Yields c r
unfolding moved Yields
Yields-step c lt (error e) y = tt
Yields-step c lt (parsed code d) y = record {
  scalar = y.scalar;
  same_text = y.same_text;
  progress = omega (arith, y.progress);
  valid = y.valid;
}

plain :
    (c : Cursor) (code : ℕ) → c.pos < length c.source → code ≤ 92 → Yields c (parsed code (step c))
plain c code lt le =
    escape_at c code 1 (record { within = omega arith; no_surrogate = ground arith }) (omega arith)
      (omega arith)

-- Both results of a test do.
either :
    (c : Cursor) (test : Bool) (r s : Parsed ℕ)
    → Yields c r
    → Yields c s
    → Yields c (if test then r else s)
either c true r s y z = y
either c false r s y z = z

escape_of-Yields : (ch : ℕ) (c : Cursor) → c.pos < length c.source → Yields c (escape_of ch c)
unfolding escape_of Yields
escape_of-Yields ch c lt = either c (ch == b'"') _ _ (plain c b'"' lt (omega arith)) (
    either c (ch == b'\\') _ _ (plain c b'\\' lt (omega arith)) (
      either c (ch == b'n') _ _ (plain c b'\n' lt (omega arith)) (
        either c (ch == b't') _ _ (plain c b'\t' lt (omega arith)) (
          either c (ch == b'u') _ _ (Yields-step c lt _ (unicode_escape-short (step c)))
            (either c (ch == b'U') _ _ (Yields-step c lt _ (unicode_escape-long (step c))) tt)))))

Exn-cases : (r : Exn ℕ) → ((ch : ℕ) × (r ≡ ok ch)) ⊎ ((e : Exception) × (r ≡ raised e))
Exn-cases (ok ch) = inl (ch, refl)
Exn-cases (raised e) = inr (e, refl)

lt_of_current : (c : Cursor) (ch : ℕ) → current c ≡ ok ch → c.pos < length c.source
unfolding current is_eof
lt_of_current c ch h = elim (Bool-cases (leb (length c.source) c.pos)) [
  | inl t ↦ ground arith
  | inr f ↦ ground arith
]

-- Whatever the characters behind a backslash are, an escape sequence that is read stands for a
-- Unicode scalar value (at most U+10FFFF and no surrogate), and the cursor is further on in the
-- same text and still inside it.
pub parse_escape_sequence-Yields : (c : Cursor) → Yields c (parse_escape_sequence c)
unfolding parse_escape_sequence Yields
parse_escape_sequence-Yields c = elim (Exn-cases (current c)) [
  | inl (ch, h) ↦ rw (h, Yields) (escape_of-Yields ch c (lt_of_current c ch h))
  | inr (e, h) ↦ rw (h, Yields) tt
]
