-- ===== src/Tests/ParserCases.antt =====
-- src/ftllexengine/syntax/parser/primitives.py, syntax/serializer.py and
-- core/identifier_validation.py at concrete inputs.
use ftllex_engine.Base.{
  ◌+◌, ◌≤◌, ◌≡◌, refl, ◌↔◌, ◌⊎◌, true, false, [], ◌∷◌, ◌++◌, Text, codes, length, drop, arith,
}
use ftllex_engine.Cursor.{
  scan, skip_while, skip_spaces, Cursor, current, is_eof, index, moved, slice_ahead, at_char,
  slice_to,
}
use ftllex_engine.Identifier.{
  max_identifier_length, is_valid_identifier, is_identifier_start, is_identifier_char,
  continuation_match,
}
use ftllex_engine.Identifier.Grammar.{
  IsIdentifier, is_valid_identifier_iff, accepts_trailing_newline,
}
use ftllex_engine.Primitives.{
  parsed, current_is, limited_run, parse_identifier, parse_number, number_rest, decimal_part,
  parse_escape_sequence, unicode_escape, escape_of, all_hex, hex_value, parse_string_literal,
  max_string_literal_length,
}
use ftllex_engine.Primitives.Identifiers.{
  identifier_in, parse_identifier-identifier_in, parse_identifier-eq-parsed_iff,
}
use ftllex_engine.Primitives.Escapes.{Yields, parse_escape_sequence-Yields}
use ftllex_engine.Whitespace.{
  is_indented_continuation, skip_blank_inline, skip_multiline_pattern_start, skip_run, count_indent,
}
use ftllex_engine.Whitespace.Lines.{continues, is_indented_continuation-continues}
use ftllex_engine.Whitespace.Indents.{pattern_start, skip_multiline_pattern_start-pattern_start}
use ftllex_engine.StringLiterals.{serialize_string, escape_text, escape_char}
use ftllex_engine.StringLiterals.RoundTrip.{parse_string_literal-serialize_string}

abbrev line : Cursor
line = record { source = codes "  user-name = x"; pos = 2 }

parse_identifier-identifier_in_example :
    parse_identifier line ≡ identifier_in line (drop 2 line.source)
parse_identifier-identifier_in_example = parse_identifier-identifier_in line

parse_line : parse_identifier line ≡ parsed (codes "user-name") (record line { pos = 11 })
unfolding parse_identifier current_is current is_eof index moved limited_run is_identifier_start
    is_identifier_char slice_to
parse_line = refl

abbrev name : Text
name = codes "user-1"

name-IsIdentifier : IsIdentifier name
unfolding is_identifier_start is_identifier_char
name-IsIdentifier = record {
  first = b'u';
  rest = codes "ser-1";
  shape = refl;
  starts = refl;
  continues = (refl, (refl, (refl, (refl, (refl, tt)))));
  fits = omega arith;
}

parse_identifier-eq-parsed_iff_example :
    (parse_identifier (record { source = name; pos = 0 })
      ≡ parsed name (record { source = name; pos = length name }))
    ↔ IsIdentifier name
parse_identifier-eq-parsed_iff_example = parse_identifier-eq-parsed_iff name

is_valid_identifier_iff_example : (is_valid_identifier name ≡ true) ↔ (
    IsIdentifier name
    ⊎ ((init : Text) × (name ≡ init ++ b'\n' ∷ [])
        × IsIdentifier init
        × (length name ≤ max_identifier_length)))
is_valid_identifier_iff_example = is_valid_identifier_iff name

accepts_trailing_newline_example :
    (is_valid_identifier (name ++ b'\n' ∷ []) ≡ true) × ¬ IsIdentifier (name ++ b'\n' ∷ [])
accepts_trailing_newline_example = accepts_trailing_newline name name-IsIdentifier (omega arith)

refuses_space : is_valid_identifier (codes "user name") ≡ false
unfolding is_valid_identifier is_identifier_start continuation_match
refuses_space = refl

-- The characters of `A`, `"`, a tab and `\`.
abbrev odd_value : Text
odd_value = b'A' ∷ b'"' ∷ b'\t' ∷ b'\\' ∷ []

abbrev literal : Cursor
literal = record { source = serialize_string odd_value ++ codes " }"; pos = 0 }

odd_value-fits : length odd_value ≤ max_string_literal_length
unfolding max_string_literal_length
odd_value-fits = omega arith

parse_string_literal-serialize_string_example :
    parse_string_literal literal
    ≡ parsed odd_value (record literal { pos = 0 + length (serialize_string odd_value) })
parse_string_literal-serialize_string_example =
    parse_string_literal-serialize_string odd_value (codes " }") literal odd_value-fits refl

written_literal : serialize_string odd_value ≡ codes "\"A\\\"\\u0009\\\\\""
unfolding serialize_string escape_text escape_char
written_literal = refl

abbrev emoji : Cursor
emoji = record { source = codes "U01F600 x"; pos = 0 }

emoji_escape : parse_escape_sequence emoji ≡ parsed 0x1f600 (record emoji { pos = 7 })
unfolding parse_escape_sequence current is_eof index escape_of unicode_escape slice_ahead moved
    all_hex hex_value
emoji_escape = refl

parse_escape_sequence-Yields_example : Yields emoji (parse_escape_sequence emoji)
parse_escape_sequence-Yields_example = parse_escape_sequence-Yields emoji

abbrev minus_number : Cursor
minus_number = record { source = codes "-12.50)"; pos = 0 }

parse_minus_number :
    parse_number minus_number ≡ parsed (codes "-12.50") (record minus_number { pos = 6 })
unfolding parse_number at_char is_eof current index moved current_is limited_run number_rest
    decimal_part slice_to
parse_minus_number = refl

abbrev two_lines : Cursor
two_lines = record { source = codes " \n\n  value"; pos = 0 }

abbrev line_end : Cursor
line_end = record two_lines { pos = 1 }

is_indented_continuation-continues_example :
    is_indented_continuation line_end ≡ continues (drop line_end.pos line_end.source)
is_indented_continuation-continues_example = is_indented_continuation-continues line_end

skip_multiline_pattern_start-pattern_start_example :
    skip_multiline_pattern_start two_lines
    ≡ pattern_start
        (skip_blank_inline two_lines)
        (drop (skip_blank_inline two_lines).pos (skip_blank_inline two_lines).source)
skip_multiline_pattern_start-pattern_start_example =
    skip_multiline_pattern_start-pattern_start two_lines

indented_two : skip_multiline_pattern_start two_lines ≡ (record two_lines { pos = 5 }, 2)
unfolding skip_multiline_pattern_start skip_blank_inline skip_spaces skip_while scan at_char is_eof
    current index is_indented_continuation skip_run moved current_is count_indent
indented_two = refl
