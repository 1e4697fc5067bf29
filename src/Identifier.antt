-- ===== src/Identifier.antt =====
-- src/ftllexengine/core/identifier_validation.py: the grammar of identifiers.
pub mod Grammar
use ftllex_engine.Base.{
  ℕ, suc, Bool, true, false, ◌&&◌, ◌||◌, List, [], ◌∷◌, Text, length, ltb, leb, ◌==◌, if◌then◌else◌,
}

-- MAX_IDENTIFIER_LENGTH of constants.py.
abbrev pub max_identifier_length : ℕ
max_identifier_length = 256

-- `ch.isascii() and ch.isalpha()`.
abbrev pub is_ascii_alpha : ℕ → Bool
is_ascii_alpha c = leb b'a' c && leb c b'z' || leb b'A' c && leb c b'Z'

abbrev pub is_ascii_digit : ℕ → Bool
is_ascii_digit c = leb b'0' c && leb c b'9'

unfoldable pub is_identifier_start : ℕ → Bool
is_identifier_start ch = is_ascii_alpha ch

unfoldable pub is_identifier_char : ℕ → Bool
is_identifier_char ch = is_ascii_alpha ch || is_ascii_digit ch || ch == b'-' || ch == b'_'

-- One character of the class `[a-zA-Z0-9_-]`.
abbrev in_class : ℕ → Bool
in_class c = is_ascii_alpha c || is_ascii_digit c || c == b'_' || c == b'-'

-- `re.compile(r"^[a-zA-Z0-9_-]*$").match(text)`: without a flag, `$` holds at the end of the text
-- and also in front of a newline that ends it.
unfoldable pub continuation_match : Text → Bool
continuation_match [] = true
continuation_match (c ∷ []) = in_class c || c == b'\n'
continuation_match (c ∷ d ∷ text) = in_class c && continuation_match (d ∷ text)

unfoldable pub is_valid_identifier : Text → Bool
unfolding is_identifier_start continuation_match
is_valid_identifier [] = false
is_valid_identifier (c ∷ name) =
    if ltb max_identifier_length (length (c ∷ name))
    then false
    else if is_identifier_start c
    then continuation_match name
    else false
