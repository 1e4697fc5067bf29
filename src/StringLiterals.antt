-- ===== src/StringLiterals.antt =====
-- src/ftllexengine/syntax/serializer.py: how `_serialize_expression` writes a `StringLiteral`.
pub mod Escaped
pub mod RoundTrip
use ftllex_engine.Base.{
  ℕ, ◌+◌, ◌-◌, ◌/◌, ◌%◌, Bool, ◌||◌, List, [], ◌∷◌, ◌++◌, Text, ltb, ◌==◌, if◌then◌else◌,
}

-- An upper-case hexadecimal digit.
abbrev pub hex_upper : ℕ → ℕ
hex_upper d = if ltb d 10 then b'0' + d else b'A' + (d - 10)

-- `f"{code:04X}"` of a code below 2 ^ 16.
abbrev pub hex4 : ℕ → Text
hex4 code =
    hex_upper (code / 4096 % 16)
    ∷ hex_upper (code / 256 % 16)
    ∷ hex_upper (code / 16 % 16)
    ∷ hex_upper (code % 16)
    ∷ []

unfoldable pub escape_char : ℕ → Text
escape_char char =
    if char == b'\\'
    then b'\\' ∷ b'\\' ∷ []
    else if char == b'"'
    then b'\\' ∷ b'"' ∷ []
    else if ltb char 0x20 || char == 0x7f
    then b'\\' ∷ b'u' ∷ hex4 char
    else char ∷ []

-- `"".join(result)`.
unfoldable pub escape_text : Text → Text
escape_text [] = []
escape_text (char ∷ value) = escape_char char ++ escape_text value

unfoldable pub serialize_string : Text → Text
serialize_string value = b'"' ∷ (escape_text value ++ b'"' ∷ [])
