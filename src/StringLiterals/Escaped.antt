-- ===== src/StringLiterals/Escaped.antt =====
-- The loop of the parser on what the serializer writes for one character.
use ftllex_engine.Base.{
  ℕ, suc, ◌+◌, ◌-◌, ◌/◌, ◌%◌, ◌≤◌, ◌<◌, ◌≡◌, ap, ◌∙◌, true, false, [], ◌∷◌, ◌++◌, Text, length,
  length-drop, ltb, ◌==◌, ok, arith, min,
}
use ftllex_engine.Cursor.{Cursor, current, moved, step, slice_ahead}
use ftllex_engine.Primitives.{
  parsed, hex_digit, hex_value, all_hex, is_hex, unicode_escape, escape_of, parse_escape_sequence,
  max_string_literal_length, string_loop,
}
use ftllex_engine.Primitives.Runs.{forward, Remains, current_at, step-forward, forward_at}
use ftllex_engine.StringLiterals.{hex_upper, hex4}

abbrev pub HasRoom : Text → Type 0
HasRoom chars = length chars ≤ max_string_literal_length

pub loop_close :
    (fuel : ℕ) (chars : Text) (c : Cursor)
    → HasRoom chars
    → current c ≡ ok b'"'
    → string_loop (suc fuel) chars c ≡ parsed chars (step c)
unfolding string_loop
loop_close fuel chars c room h =
    let fits : ltb max_string_literal_length (length chars) ≡ false = ground arith in
    rw (h, string_loop) (rw fits)

pub loop_plain :
    (fuel : ℕ) (chars : Text) (c : Cursor) (ch : ℕ)
    → HasRoom chars
    → current c ≡ ok ch
    → (ch == b'"') ≡ false
    → (ch == b'\n') ≡ false
    → (ch == b'\\') ≡ false
    → string_loop (suc fuel) chars c ≡ string_loop fuel (chars ++ ch ∷ []) (step c)
unfolding string_loop
loop_plain fuel chars c ch room h q n b =
    let fits : ltb max_string_literal_length (length chars) ≡ false = ground arith in
    rw (h, string_loop) (rw fits (rw q (rw n (rw b))))

pub loop_escape :
    (fuel : ℕ) (chars : Text) (c d : Cursor) (x : ℕ)
    → HasRoom chars
    → current c ≡ ok b'\\'
    → parse_escape_sequence (step c) ≡ parsed x d
    → string_loop (suc fuel) chars c ≡ string_loop fuel (chars ++ x ∷ []) d
unfolding string_loop
loop_escape fuel chars c d x room h e =
    let fits : ltb max_string_literal_length (length chars) ≡ false = ground arith in
    rw (h, string_loop) (rw fits (rw e))

escape_at :
    (c : Cursor) (ch : ℕ) (xs : Text)
    → Remains c (ch ∷ xs)
    → parse_escape_sequence c ≡ escape_of ch c
unfolding parse_escape_sequence
escape_at c ch xs h = rw (current_at c ch xs h, parse_escape_sequence)

-- The two short escapes that the serializer writes.
pub escape_backslash :
    (c : Cursor) (xs : Text)
    → Remains c (b'\\' ∷ xs)
    → parse_escape_sequence c ≡ parsed b'\\' (forward c 1)
unfolding escape_of
escape_backslash c xs h = escape_at c b'\\' xs h ∙ ap (parsed b'\\') (step-forward c b'\\' xs h)

pub escape_quote :
    (c : Cursor) (xs : Text)
    → Remains c (b'"' ∷ xs)
    → parse_escape_sequence c ≡ parsed b'"' (forward c 1)
unfolding escape_of
escape_quote c xs h = escape_at c b'"' xs h ∙ ap (parsed b'"') (step-forward c b'"' xs h)

hex_digit-hex_upper : (d : ℕ) → d < 16 → hex_digit (hex_upper d) ≡ d
hex_digit-hex_upper d h = ground arith

is_hex-hex_upper : (d : ℕ) → d < 16 → is_hex (hex_upper d) ≡ true
is_hex-hex_upper d h = ground arith

-- Four digits give the code back.
hex_value-hex4 : (code : ℕ) → code < 128 → hex_value 0 (hex4 code) ≡ code
unfolding hex_value
hex_value-hex4 code h =
    let a = hex_digit-hex_upper (code / 4096 % 16) (omega arith) in
    let b = hex_digit-hex_upper (code / 256 % 16) (omega arith) in
    let c = hex_digit-hex_upper (code / 16 % 16) (omega arith) in
    let d = hex_digit-hex_upper (code % 16) (omega arith) in rw (a, b, c, d) (omega arith)

all_hex-hex4 : (code : ℕ) → all_hex (hex4 code) ≡ true
unfolding all_hex
all_hex-hex4 code =
    let a = is_hex-hex_upper (code / 4096 % 16) (omega arith) in
    let b = is_hex-hex_upper (code / 256 % 16) (omega arith) in
    let c = is_hex-hex_upper (code / 16 % 16) (omega arith) in
    let d = is_hex-hex_upper (code % 16) (omega arith) in rw a (rw b (rw c (rw d)))

moved_four :
    (c : Cursor) (w x y z : ℕ) (xs : Text)
    → Remains c (w ∷ x ∷ y ∷ z ∷ xs)
    → moved c 4 ≡ forward c 4
unfolding moved
moved_four c w x y z xs h =
    let long = ap length h in
    let e : min (c.pos + 4) (length c.source) ≡ c.pos + 4 =
      omega (arith, long, length-drop c.pos c.source) in
    rw e

slice_four :
    (c : Cursor) (w x y z : ℕ) (xs : Text)
    → Remains c (w ∷ x ∷ y ∷ z ∷ xs)
    → slice_ahead c 4 ≡ w ∷ x ∷ y ∷ z ∷ []
unfolding slice_ahead
slice_four c w x y z xs h = let e : c.pos + 4 - c.pos ≡ 4 = omega arith in rw (e, h)

pub escape_control :
    (c : Cursor) (code : ℕ) (xs : Text)
    → code < 128
    → Remains c (b'u' ∷ (hex4 code ++ xs))
    → parse_escape_sequence c ≡ parsed code (forward c 5)
unfolding escape_of unicode_escape
escape_control c code xs lt h =
    let here = forward_at c b'u' (hex4 code ++ xs) h in
    let s = slice_four (forward c 1) _ _ _ _ xs here in
    let m = moved_four (forward c 1) _ _ _ _ xs here in
    let five : c.pos + 1 + 4 ≡ c.pos + 5 = omega arith in
    escape_at c b'u' (hex4 code ++ xs) h
    ∙ rw (step-forward c b'u' (hex4 code ++ xs) h) (
        rw s (rw (all_hex-hex4 code) (rw (hex_value-hex4 code lt) (rw m (rw five (ground arith))))))
