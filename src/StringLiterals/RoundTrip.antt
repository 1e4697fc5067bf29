-- ===== src/StringLiterals/RoundTrip.antt =====
-- `parse_string_literal` reads back what the serializer writes.
use ftllex_engine.Base.{
  ℕ, zero, suc, ◌+◌, ◌≤◌, ◌<◌, ◌≡◌, refl, ap, sym, ◌∙◌, subst, true, false, ◌||◌, [], ◌∷◌, ◌++◌,
  append_assoc, append-nil, Text, length, length-append, length-drop, drop, ltb, ◌==◌, Bool-cases,
  inl, inr, arith, ==_iff,
}
use ftllex_engine.Cursor.{Cursor, step, at_char}
use ftllex_engine.Primitives.{
  parsed, left, parse_escape_sequence, max_string_literal_length, string_loop, parse_string_literal,
}
use ftllex_engine.Primitives.Runs.{
  forward, Remains, current_at, step-forward, forward_at, at_char_at, forward-forward,
  forward_append,
}
use ftllex_engine.StringLiterals.{hex4, escape_char, escape_text, serialize_string}
use ftllex_engine.StringLiterals.Escaped.{
  loop_close, loop_plain, loop_escape, escape_backslash, escape_quote, escape_control, HasRoom,
}

-- One character of the value, as it is written, is one round of the loop.
ReadsBack : ℕ → Text → Cursor → ℕ → Type 0
ReadsBack fuel chars c ch =
    string_loop (suc fuel) chars c
    ≡ string_loop fuel (chars ++ ch ∷ []) (forward c (length (escape_char ch)))

round_escaped :
    (fuel : ℕ) (chars : Text) (c : Cursor) (ch n : ℕ) (text xs : Text)
    → HasRoom chars
    → Remains c (b'\\' ∷ (text ++ xs))
    → parse_escape_sequence (forward c 1) ≡ parsed ch (forward (forward c 1) n)
    → length text ≡ n
    → escape_char ch ≡ b'\\' ∷ text
    → ReadsBack fuel chars c ch
unfolding ReadsBack
round_escaped fuel chars c ch n text xs room h e len written =
    let here = step-forward c b'\\' (text ++ xs) h in
    let total : 1 + n ≡ length (b'\\' ∷ text) = omega (arith, len) in
    loop_escape fuel chars c (forward (forward c 1) n) ch room (current_at c b'\\' (text ++ xs) h)
      (rw here e)
    ∙ rw written (rw (forward-forward c 1 n) (rw total))

round_slash :
    (fuel : ℕ) (chars : Text) (c : Cursor) (xs : Text)
    → HasRoom chars
    → Remains c (escape_char b'\\' ++ xs)
    → ReadsBack fuel chars c b'\\'
unfolding escape_char
round_slash fuel chars c xs room h =
    round_escaped fuel chars c b'\\' 1 (b'\\' ∷ []) xs room h
      (escape_backslash (forward c 1) xs (forward_at c b'\\' (b'\\' ∷ xs) h)) refl refl

round_quote :
    (fuel : ℕ) (chars : Text) (c : Cursor) (xs : Text)
    → HasRoom chars
    → Remains c (escape_char b'"' ++ xs)
    → ReadsBack fuel chars c b'"'
unfolding escape_char
round_quote fuel chars c xs room h =
    round_escaped fuel chars c b'"' 1 (b'"' ∷ []) xs room h
      (escape_quote (forward c 1) xs (forward_at c b'\\' (b'"' ∷ xs) h)) refl refl

escape_char_control :
    (ch : ℕ)
    → (ch == b'\\') ≡ false
    → (ch == b'"') ≡ false
    → (ltb ch 0x20 || ch == 0x7f) ≡ true
    → escape_char ch ≡ b'\\' ∷ b'u' ∷ hex4 ch
unfolding escape_char
escape_char_control ch a b k = rw a (rw b (rw k))

escape_char_plain :
    (ch : ℕ)
    → (ch == b'\\') ≡ false
    → (ch == b'"') ≡ false
    → (ltb ch 0x20 || ch == 0x7f) ≡ false
    → escape_char ch ≡ ch ∷ []
unfolding escape_char
escape_char_plain ch a b k = rw a (rw b (rw k))

round_control :
    (fuel : ℕ) (chars : Text) (c : Cursor) (ch : ℕ) (xs : Text)
    → HasRoom chars
    → ch < 128
    → escape_char ch ≡ b'\\' ∷ b'u' ∷ hex4 ch
    → Remains c (escape_char ch ++ xs)
    → ReadsBack fuel chars c ch
round_control fuel chars c ch xs room lt e h =
    let h' = subst (λ t. Remains c (t ++ xs)) e h in
    round_escaped fuel chars c ch 5 (b'u' ∷ hex4 ch) xs room h'
      (escape_control (forward c 1) ch xs lt (forward_at c b'\\' (b'u' ∷ (hex4 ch ++ xs)) h')) refl
      e

round_plain :
    (fuel : ℕ) (chars : Text) (c : Cursor) (ch : ℕ) (xs : Text)
    → HasRoom chars
    → (ch == b'\\') ≡ false
    → (ch == b'"') ≡ false
    → (ch == b'\n') ≡ false
    → escape_char ch ≡ ch ∷ []
    → Remains c (escape_char ch ++ xs)
    → ReadsBack fuel chars c ch
unfolding ReadsBack
round_plain fuel chars c ch xs room s q n e h =
    let h' = subst (λ t. Remains c (t ++ xs)) e h in
    loop_plain fuel chars c ch room (current_at c ch xs h') q n s
    ∙ rw e (rw (step-forward c ch xs h'))

round_of :
    (fuel : ℕ) (chars : Text) (c : Cursor) (ch : ℕ) (xs : Text)
    → HasRoom chars
    → Remains c (escape_char ch ++ xs)
    → ReadsBack fuel chars c ch
round_of fuel chars c ch xs room h = elim (Bool-cases (ch == b'\\')) [
  | inl slash ↦
      subst (λ k. Remains c (escape_char k ++ xs) → ReadsBack fuel chars c k)
        (sym ((==_iff ch b'\\').0 slash)) (round_slash fuel chars c xs room) h
  | inr a ↦ elim (Bool-cases (ch == b'"')) [
    | inl quote ↦
        subst (λ k. Remains c (escape_char k ++ xs) → ReadsBack fuel chars c k)
          (sym ((==_iff ch b'"').0 quote)) (round_quote fuel chars c xs room) h
    | inr b ↦ elim (Bool-cases (ltb ch 0x20 || ch == 0x7f)) [
      | inl k ↦
          round_control fuel chars c ch xs room (ground arith) (escape_char_control ch a b k) h
      | inr k ↦
          round_plain fuel chars c ch xs room a b (ground arith) (escape_char_plain ch a b k) h
    ]
  ]
]

room_of : (chars : Text) (ch : ℕ) (value : Text) → HasRoom (chars ++ ch ∷ value) → HasRoom chars
room_of chars ch value h = omega (arith, length-append chars (ch ∷ value))

string_loop-escape_text :
    (value : Text) (fuel : ℕ) (chars : Text) (c : Cursor) (rest : Text)
    → Remains c (escape_text value ++ b'"' ∷ rest)
    → length value < fuel
    → HasRoom (chars ++ value)
    → string_loop fuel chars c
      ≡ parsed (chars ++ value) (forward c (length (escape_text value) + 1))
unfolding escape_text ReadsBack
string_loop-escape_text [] zero chars c rest h f room = absurd (omega arith)
string_loop-escape_text [] (suc fuel) chars c rest h f room =
    let room' = subst HasRoom (append-nil chars) room in
    loop_close fuel chars c room' (current_at c b'"' rest h)
    ∙ rw append-nil (ap (parsed chars) (step-forward c b'"' rest h))
string_loop-escape_text (ch ∷ value) zero chars c rest h f room = absurd (omega arith)
string_loop-escape_text (ch ∷ value) (suc fuel) chars c rest h f room =
    let e = escape_char ch in
    let tail = escape_text value ++ b'"' ∷ rest in
    let h' = subst (Remains c) (append_assoc e (escape_text value) (b'"' ∷ rest)) h in
    let short = room_of chars ch value room in
    let regroup = append_assoc chars (ch ∷ []) value in
    let sum : length e + (length (escape_text value) + 1) ≡ length (e ++ escape_text value) + 1 =
      omega (arith, length-append e (escape_text value)) in
    round_of fuel chars c ch tail short h'
    ∙ string_loop-escape_text value fuel (chars ++ ch ∷ []) (forward c (length e)) rest
        (forward_append c e tail h') (omega arith) (subst HasRoom (sym regroup) room)
    ∙ rw regroup
        (ap (parsed (chars ++ ch ∷ value)) (forward-forward c (length e) _ ∙ ap (forward c) sum))

length-escape_char : (ch : ℕ) → 1 ≤ length (escape_char ch)
unfolding escape_char
length-escape_char ch = ground arith

length-escape_text : (value : Text) → length value ≤ length (escape_text value)
unfolding escape_text
length-escape_text [] = omega arith
length-escape_text (ch ∷ value) = omega (
  arith,
  length-append (escape_char ch) (escape_text value),
  length-escape_char ch,
  length-escape_text value,
)

literal_at :
    (c : Cursor)
    → at_char c b'"' ≡ true
    → parse_string_literal c ≡ string_loop (left (step c)) [] (step c)
unfolding parse_string_literal
literal_at c h = rw h

serialize_string_append :
    (value rest : Text) → serialize_string value ++ rest ≡ b'"' ∷ (escape_text value ++ b'"' ∷ rest)
unfolding serialize_string
serialize_string_append value rest =
    ap (◌∷◌ b'"') (append_assoc (escape_text value) (b'"' ∷ []) rest)

serialize_length :
    (value : Text) → 1 + (length (escape_text value) + 1) ≡ length (serialize_string value)
unfolding serialize_string
serialize_length value = omega (arith, length-append (escape_text value) (b'"' ∷ []))

-- The parser reads back what the serializer writes for a string literal: at a cursor in front of
-- the written text, whatever follows it, `parse_string_literal` returns the value, with the cursor
-- behind the closing quote, for every value of at most 1,000,000 characters.
pub parse_string_literal-serialize_string :
    (value rest : Text) (c : Cursor)
    → length value ≤ max_string_literal_length
    → drop c.pos c.source ≡ serialize_string value ++ rest
    → parse_string_literal c
      ≡ parsed value (record c { pos = c.pos + length (serialize_string value) })
parse_string_literal-serialize_string value rest c room h =
    let tail = escape_text value ++ b'"' ∷ rest in
    let h' = h ∙ serialize_string_append value rest in
    let here = step-forward c b'"' tail h' in
    let inside = forward_at c b'"' tail h' in
    let fuel : length value < left (forward c 1) = omega (
      arith,
      ap length inside,
      length-drop (c.pos + 1) c.source,
      length-append (escape_text value) (b'"' ∷ rest),
      length-escape_text value,
    ) in
    literal_at c (at_char_at c b'"' b'"' tail h')
    ∙ rw here
        (string_loop-escape_text value (left (forward c 1)) [] (forward c 1) rest inside fuel room)
    ∙ ap (parsed value) (
        forward-forward c 1 (length (escape_text value) + 1)
        ∙ ap (forward c) (serialize_length value))
