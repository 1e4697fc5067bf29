-- ===== src/Tests/SyntaxCases.antt =====
-- src/ftllexengine/syntax/parser/ at concrete inputs.
use ftllex_engine.Base.{
  ℕ, ◌≤◌, ◌≡◌, refl, inl, true, false, [], ◌∷◌, Text, All, codes, arith, drop_while, ◌==◌,
}
use ftllex_engine.Cursor.{Cursor}
use ftllex_engine.Outcome.{ParseContext, found, Ensures, levels}
use ftllex_engine.Syntax.{no_elements, text_element, Span}
use ftllex_engine.Syntax.Valid.{PlaceableIn}
use ftllex_engine.Terminals.Names.{Yields}
use ftllex_engine.Grammar.{parse_placeable, parse_pattern}
use ftllex_engine.Grammar.Total.{parse_placeable-Ensures}
use ftllex_engine.ResourceParser.{
  FluentParser, junk_entry, comment_entry, parse_junk, parse_nesting_depth_exceeded,
  normalize_line_endings,
}
use ftllex_engine.Entries.{comment}
use ftllex_engine.Rounds.{parse}
use ftllex_engine.Rounds.Valid.{EntryIn}
use ftllex_engine.Rounds.Total.{Answers, parse-Answers}
use ftllex_engine.Rounds.JunkCount.{junks}
use ftllex_engine.Rounds.JunkLimit.{parse-junks}
use ftllex_engine.Rounds.LineEndings.{Normalized, normalize_line_endings-Normalized}
use ftllex_engine.Cursor.{
  is_eof, index, current, moved, slice_to, scan, skip_while, skip_spaces, skip_whitespace, at_char,
  skip_line_end, find_in, find, skip_to_line_end, count, rfind_in, rfind,
}
use ftllex_engine.Identifier.{is_identifier_start, is_identifier_char}
use ftllex_engine.Primitives.{
  current_is, limited_run, parse_identifier, decimal_part, number_rest, parse_number,
}
use ftllex_engine.Whitespace.{
  skip_blank_inline, skip_blank, skip_run, is_indented_continuation, count_indent,
  skip_multiline_pattern_start,
}
use ftllex_engine.Syntax.{is_valid_selector, is_default, default_count, append}
use ftllex_engine.Patterns.{
  is_valid_variant_key_char, bounded_spaces, after_bracket, scan_key, is_variant_marker, trim_front,
  only_spaces, trim_text, trim_end, trim_pattern_blank_lines, append_newline, flush, add_text,
  add_placeable, skip_up_to, skip_common_indent, process_continuation_line, continue_line,
  ends_simple_pattern, text_end, read_text,
}
use ftllex_engine.Terminals.{
  identifier_node, parse_variable_reference, number_key_at, identifier_key_at, parse_variant_key,
  parse_message_attribute, message_reference_at, string_literal_at, number_literal_at,
  term_attribute, closing, at_arrow, behind_argument, select_of, pattern_of,
}
use ftllex_engine.Outcome.{is_depth_exceeded, enter_nesting}
use ftllex_engine.Grammar.{pattern_loop}
use ftllex_engine.Entries.{
  pattern_behind, parse_message_header, attribute_at, parse_attribute, attributes_loop,
  parse_message_attributes, has_elements, validate_message_content, parse_message, term_at,
  parse_term, hash_run, comment_type, comment_behind, parse_comment,
}
use ftllex_engine.ResourceParser.{
  normalize_from, has_blank_line_between, is_at_column_one, accumulate, add_comment, join_lines,
  finalize, pending_entries, junk_limit_exceeded, junk_lines, consume_junk_lines, junk_of,
  after_junk,
}
use ftllex_engine.Rounds.{
  indented_round, comment_round, bad_comment_round, attach_comment, unattached, with_comment,
  orphan, failed_round, message_round, definition_round, entry_round, parse_round, parse_entries,
  parse_source,
}

abbrev two_levels : ParseContext
two_levels = record { max_nesting_depth = 2; current_depth = 0 }

abbrev selected : Cursor
selected = record { source = codes "{ $n ->\n *[one] { F(1, k: 2) }\n}"; pos = 1 }

parse_placeable-Ensures_example :
    Ensures
      (Yields selected.source 2 (PlaceableIn selected.source (levels two_levels)))
      (parse_placeable 300 two_levels false selected)
parse_placeable-Ensures_example =
    parse_placeable-Ensures 300 two_levels false selected (omega arith) (omega arith)

abbrev parser : FluentParser
parser = record { max_source_size = 0; max_nesting_depth = 1; max_parse_errors = 2 }

abbrev resource_text : Text
resource_text = codes "# c\nm = x\n  .a = { $n }\r\n-t = { { 1 } }\n"

parse-Answers_example :
    Answers (All (EntryIn (normalize_line_endings resource_text) 1)) (parse parser resource_text)
parse-Answers_example = parse-Answers parser resource_text (inl refl)

parse-junks_example : Answers (λ entries. junks entries ≤ 2) (parse parser resource_text)
parse-junks_example = parse-junks parser resource_text (inl refl) (omega arith)

normalize_line_endings-Normalized_example :
    Normalized resource_text (normalize_line_endings resource_text)
    × All (λ ch. (ch == b'\r') ≡ false) (normalize_line_endings resource_text)
    × (normalize_line_endings (normalize_line_endings resource_text)
        ≡ normalize_line_endings resource_text)
normalize_line_endings-Normalized_example = normalize_line_endings-Normalized resource_text

-- The spaces of a blank line are put in front of the text of the line below.
blank_line_spaces :
    parse_pattern 100 two_levels false 0 (record { source = codes "a\n  b\n     \n  c"; pos = 0 })
    ≡ found
        (text_element
          (codes "a\n")
          (text_element (codes "b\n\n") (text_element (codes "   c") no_elements)))
        (record { source = codes "a\n  b\n     \n  c"; pos = 15 })
        false
unfolding parse_pattern pattern_loop is_eof at_char current index moved current_is read_text
    text_end slice_to is_indented_continuation skip_run continue_line process_continuation_line
    skip_spaces skip_while scan skip_common_indent skip_up_to count_indent add_text append
    append_newline flush pattern_of trim_pattern_blank_lines trim_front drop_while trim_end
    trim_text rfind rfind_in only_spaces
blank_line_spaces = refl

abbrev at_span : ℕ → ℕ → Span
at_span start end = record { start = start; end = end }

-- A comment that is pending at a malformed one comes behind its junk.
swapped_entries :
    parse parser (codes "# c\n#### bad")
    ≡ found
        (junk_entry (record {
          content = codes "#### bad";
          code = parse_junk;
          annotation_span = at_span 4 12;
          span = at_span 4 12;
        })
          ∷ comment_entry (record { content = codes "c"; kind = comment; span = at_span 0 4 })
          ∷ [])
        (record { source = codes "# c\n#### bad"; pos = 12 })
        false
unfolding normalize_from normalize_line_endings has_blank_line_between is_at_column_one accumulate
    add_comment join_lines finalize pending_entries junk_limit_exceeded junk_lines
    consume_junk_lines junk_of after_junk indented_round comment_round bad_comment_round
    attach_comment unattached with_comment orphan failed_round message_round definition_round
    entry_round parse_round parse_entries parse_source parse is_eof index current moved scan
    skip_while skip_spaces skip_whitespace at_char skip_line_end find_in find skip_to_line_end count
    rfind skip_blank parse_comment hash_run comment_type comment_behind current_is
swapped_entries = refl

-- The second junk entry has nothing nested, and is reported as nested too deep.
sticky_depth_flag :
    parse parser (codes "a={{1}}\nb ?")
    ≡ found
        (junk_entry (record {
          content = codes "a={{1}}\n";
          code = parse_nesting_depth_exceeded;
          annotation_span = at_span 0 0;
          span = at_span 0 8;
        })
          ∷ junk_entry (record {
            content = codes "b ?";
            code = parse_nesting_depth_exceeded;
            annotation_span = at_span 8 8;
            span = at_span 8 11;
          })
          ∷ [])
        (record { source = codes "a={{1}}\nb ?"; pos = 11 })
        true
unfolding is_eof index current moved scan skip_while skip_spaces skip_whitespace at_char
    skip_line_end find_in find skip_to_line_end count rfind is_identifier_start is_identifier_char
    current_is limited_run parse_identifier number_rest parse_number skip_blank_inline skip_blank
    skip_run is_indented_continuation count_indent skip_multiline_pattern_start is_valid_selector
    is_default default_count append is_valid_variant_key_char bounded_spaces after_bracket scan_key
    is_variant_marker trim_front only_spaces trim_text trim_end trim_pattern_blank_lines
    append_newline flush add_text add_placeable skip_up_to skip_common_indent
    process_continuation_line continue_line ends_simple_pattern text_end read_text identifier_node
    parse_variable_reference number_key_at identifier_key_at parse_variant_key
    parse_message_attribute message_reference_at string_literal_at number_literal_at term_attribute
    closing at_arrow behind_argument select_of pattern_of is_depth_exceeded enter_nesting
    parse_placeable pattern_loop parse_pattern pattern_behind parse_message_header attribute_at
    parse_attribute attributes_loop parse_message_attributes has_elements validate_message_content
    parse_message term_at parse_term hash_run comment_type comment_behind parse_comment
    normalize_from normalize_line_endings has_blank_line_between is_at_column_one accumulate
    add_comment join_lines finalize pending_entries junk_limit_exceeded junk_lines
    consume_junk_lines junk_of after_junk indented_round comment_round bad_comment_round
    attach_comment unattached with_comment orphan failed_round message_round definition_round
    entry_round parse_round parse_entries parse_source parse rfind_in slice_to decimal_part
sticky_depth_flag = refl
