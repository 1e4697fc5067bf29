-- ===== src/Primitives.antt =====
-- src/ftllexengine/syntax/parser/primitives.py: identifiers, numbers, escapes, string literals.
pub mod Runs
pub mod Identifiers
pub mod Escapes
use ftllex_engine.Base.{
  ℕ, zero, suc, ◌+◌, ◌*◌, ◌-◌, Bool, true, false, not, ◌&&◌, ◌||◌, List, [], ◌∷◌, ◌++◌, Text, codes,
  length, ltb, leb, ◌==◌, if◌then◌else◌, ok, raised,
}
use ftllex_engine.Cursor.{Cursor, current, is_eof, at_char, moved, step, slice_to, slice_ahead}
use ftllex_engine.Identifier.{max_identifier_length, is_identifier_start, is_identifier_char}

-- One constructor for each message of the module.
pub data Message : Type 0 where
  expected_identifier identifier_too_long expected_number number_too_long : Message
  expected_decimal_digit unexpected_eof_in_escape : Message
  invalid_unicode_escape : ℕ → Message
  invalid_surrogate invalid_code_point : Text → Message
  invalid_escape : ℕ → Message
  expected_opening_quote string_too_long line_ending_in_string unterminated_string : Message

-- `ParseError` of cursor.py, its tuple of expected tokens left out.
pub record ParseError : Type 0 where
  pub message : Message
  pub cursor : Cursor

-- `ParseResult[T] | ParseError`.
pub data Parsed {ℓ} (A : Type ℓ) : Type ℓ where
  parsed : A → Cursor → Parsed A
  error : ParseError → Parsed A

abbrev pub fail {ℓ} : {A : Type ℓ} → Message → Cursor → Parsed A
fail m c = error (record { message = m; cursor = c })

-- The character under the cursor meets a test; no character does at the end of the text.
unfoldable pub current_is : (ℕ → Bool) → Cursor → Bool
current_is test c = elim (current c) [ ok ch ↦ test ch | raised e ↦ false ]

-- How a loop over characters of one class ends: behind the class, or over the limit.
pub data Run : Type 0 where
  ended : Cursor → Run
  overlong : Cursor → Run

-- `while not cursor.is_eof and <test of current>: advance; if cursor.pos - start_pos > limit: return
-- ParseError`, on fuel.
unfoldable pub limited_run : (ℕ → Bool) → ℕ → ℕ → ℕ → Cursor → Run
limited_run test limit start zero c = ended c
limited_run test limit start (suc fuel) c = elim (current_is test c) [
  | false ↦ ended c
  | true ↦ elim (ltb limit ((step c).pos - start)) [
    | true ↦ overlong (step c)
    | false ↦ limited_run test limit start fuel (step c)
  ]
]

-- The text that is left, which is fuel enough for a loop that advances.
abbrev pub left : Cursor → ℕ
left c = length c.source - c.pos

abbrev identifier_end : ℕ → Cursor → Run → Parsed Text
identifier_end start c (ended d) =
    parsed (slice_to (record { source = d.source; pos = start }) d.pos) d
identifier_end start c (overlong d) = fail identifier_too_long d

unfoldable pub parse_identifier : Cursor → Parsed Text
parse_identifier c =
    if current_is is_identifier_start c
    then identifier_end c.pos c
        (limited_run is_identifier_char max_identifier_length c.pos (left (step c)) (step c))
    else fail expected_identifier c

-- `_MAX_NUMBER_LENGTH`.
abbrev pub max_number_length : ℕ
max_number_length = 1000

-- `ch in _ASCII_DIGITS`.
abbrev pub is_digit : ℕ → Bool
is_digit ch = leb b'0' ch && leb ch b'9'

abbrev number_text : ℕ → Cursor → Parsed Text
number_text start d = parsed (slice_to (record { source = d.source; pos = start }) d.pos) d

-- The digits behind the decimal point.
unfoldable pub decimal_part : ℕ → Cursor → Parsed Text
decimal_part start c =
    if current_is is_digit c
    then elim (limited_run is_digit max_number_length start (left c) c) [
      | ended d ↦ number_text start d
      | overlong d ↦ fail number_too_long d
    ]
    else fail expected_decimal_digit c

-- What follows the integer part.
unfoldable pub number_rest : ℕ → Run → Parsed Text
number_rest start (overlong d) = fail number_too_long d
number_rest start (ended d) =
    if at_char d b'.' then decimal_part start (step d) else number_text start d

unfoldable pub parse_number : Cursor → Parsed Text
parse_number c =
    let d = if at_char c b'-' then step c else c in
    if current_is is_digit d
    then number_rest c.pos (limited_run is_digit max_number_length c.pos (left d) d)
    else fail expected_number d

-- `ch in _HEX_DIGITS`.
abbrev pub is_hex : ℕ → Bool
is_hex c = leb b'0' c && leb c b'9' || leb b'a' c && leb c b'f' || leb b'A' c && leb c b'F'

-- `_HEX_DIGITS.issuperset(text)`.
unfoldable pub all_hex : Text → Bool
all_hex [] = true
all_hex (c ∷ text) = is_hex c && all_hex text

abbrev pub hex_digit : ℕ → ℕ
hex_digit c = if leb c b'9' then c - b'0' else if leb b'a' c then c - b'a' + 10 else c - b'A' + 10

-- `int(text, 16)`, on the value read so far.
unfoldable pub hex_value : ℕ → Text → ℕ
hex_value n [] = n
hex_value n (c ∷ text) = hex_value (n * 16 + hex_digit c) text

abbrev pub max_code_point : ℕ
max_code_point = 0x10ffff

abbrev pub is_surrogate : ℕ → Bool
is_surrogate n = leb 0xd800 n && leb n 0xdfff

-- Behind `\u` or `\U`: `size` hexadecimal digits at the cursor.
unfoldable pub unicode_escape : ℕ → Cursor → Parsed ℕ
unicode_escape size c =
    let hex_digits = slice_ahead c size in
    if ltb (length hex_digits) size || not (all_hex hex_digits)
    then fail (invalid_unicode_escape size) c
    else (let code_point = hex_value 0 hex_digits in
        if size == 6 && ltb max_code_point code_point
        then fail (invalid_code_point hex_digits) (moved c size)
        else if is_surrogate code_point
        then fail (invalid_surrogate hex_digits) (moved c size)
        else parsed code_point (moved c size))

unfoldable pub escape_of : ℕ → Cursor → Parsed ℕ
escape_of ch c =
    if ch == b'"'
    then parsed b'"' (step c)
    else if ch == b'\\'
    then parsed b'\\' (step c)
    else if ch == b'n'
    then parsed b'\n' (step c)
    else if ch == b't'
    then parsed b'\t' (step c)
    else if ch == b'u'
    then unicode_escape 4 (step c)
    else if ch == b'U'
    then unicode_escape 6 (step c)
    else fail (invalid_escape ch) c

unfoldable pub parse_escape_sequence : Cursor → Parsed ℕ
parse_escape_sequence c = elim (current c) [
  | raised e ↦ fail unexpected_eof_in_escape c
  | ok ch ↦ escape_of ch c
]

-- `_MAX_STRING_LITERAL_LENGTH`; shut, since no test comes near it.
unfoldable pub max_string_literal_length : ℕ
max_string_literal_length = 1_000_000

-- The loop of `parse_string_literal`, with the characters read so far.
unfoldable pub string_loop : ℕ → Text → Cursor → Parsed Text
string_loop zero chars c = fail unterminated_string c
string_loop (suc fuel) chars c = elim (current c) [
  | raised e ↦ fail unterminated_string c
  | ok ch ↦ elim (ltb max_string_literal_length (length chars)) [
    | true ↦ fail string_too_long c
    | false ↦ elim (ch == b'"') [
      | true ↦ parsed chars (step c)
      | false ↦ elim (ch == b'\n') [
        | true ↦ fail line_ending_in_string c
        | false ↦ elim (ch == b'\\') [
          | true ↦ elim (parse_escape_sequence (step c)) [
            | error e ↦ error e
            | parsed x d ↦ string_loop fuel (chars ++ x ∷ []) d
          ]
          | false ↦ string_loop fuel (chars ++ ch ∷ []) (step c)
        ]
      ]
    ]
  ]
]

unfoldable pub parse_string_literal : Cursor → Parsed Text
parse_string_literal c =
    if at_char c b'"'
    then string_loop (left (step c)) [] (step c)
    else fail expected_opening_quote c
