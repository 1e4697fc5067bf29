-- ===== src/Terminals.antt =====
-- src/ftllexengine/syntax/parser/expressions.py: the rules without recursion, and the pieces of
-- the recursive ones that stand between two calls.
pub mod Onward
pub mod Literals
pub mod Names
pub mod Rules
pub mod Settled
use ftllex_engine.Base.{
  ℕ, zero, suc, ◌+◌, Bool, true, false, not, ◌&&◌, ◌||◌, Option, none, some, List, [], ◌∷◌, Text,
  ◌==◌, if◌then◌else◌, member, add, ok, raised,
}
use ftllex_engine.Cursor.{Cursor, current, is_eof, at_char, step}
use ftllex_engine.Identifier.{is_identifier_start}
use ftllex_engine.Primitives.{
  current_is, is_digit, parse_identifier, parse_number, parse_string_literal, left,
}
use ftllex_engine.Whitespace.{skip_blank, skip_blank_inline, is_indented_continuation}
use ftllex_engine.Syntax.{
  Span, Identifier, Literal, string_literal, number_literal, VariantKey, identifier_key, number_key,
  NamedArgument, InlineExpression, literal, variable_reference, message_reference, term_reference,
  function_reference, placeable, Expression, inline, select_expression, CallArguments,
  call_arguments, OptionalArguments, no_call, call, Positional, no_arguments, argument, Variants,
  no_variants, variants, Variant, variant, Pattern, no_elements, is_valid_selector, default_count,
}
use ftllex_engine.Outcome.{
  ParseContext, is_depth_exceeded, enter_nesting, Outcome, found, missing, raising, out_of_fuel,
  ◌⟫◌, or_missing, reading,
}
use ftllex_engine.Patterns.{
  PatternState, flush, add_placeable, continue_line, read_text, ends_simple_pattern, ends_pattern,
  trim_pattern_blank_lines,
}

-- `Span(start=start, end=end)`.
abbrev pub span_of : ℕ → ℕ → Span
span_of start end = record { start = start; end = end }

-- `parse_identifier`, and the `Identifier` node with the span of the name.
unfoldable pub identifier_node : Bool → Cursor → Outcome Identifier
identifier_node flag c = or_missing flag (parse_identifier c) ⟫ λ name d u.
    found (record { name = name; span = span_of c.pos d.pos }) d u

unfoldable pub parse_variable_reference : Bool → Cursor → Outcome InlineExpression
parse_variable_reference flag c =
    if at_char c b'$'
    then (identifier_node flag (step c) ⟫ λ id d u.
        found (variable_reference id (span_of c.pos d.pos)) d u)
    else missing flag

unfoldable pub number_key_at : Bool → Cursor → Outcome VariantKey
number_key_at flag c = or_missing flag (parse_number c) ⟫ λ raw d u. found (number_key raw) d u

unfoldable pub identifier_key_at : Bool → Cursor → Outcome VariantKey
identifier_key_at flag c = identifier_node flag c ⟫ λ id d u. found (identifier_key id) d u

unfoldable pub parse_variant_key : Bool → Cursor → Outcome VariantKey
parse_variant_key flag c =
    if current_is is_digit c || at_char c b'-'
    then elim (number_key_at flag c) [ missing u ↦ identifier_key_at flag c | other ↦ other ]
    else identifier_key_at flag c

-- `_parse_message_attribute`: a `.` that no identifier follows is passed.
unfoldable pub parse_message_attribute : Cursor → Option Identifier × Cursor
parse_message_attribute c =
    if at_char c b'.'
    then elim (identifier_node false (step c)) [ found id d _ ↦ (some id, d) | _ ↦ (none, step c) ]
    else (none, c)

-- The `MessageReference` behind its identifier.
unfoldable pub message_reference_at : ℕ → Identifier → Cursor → Bool → Outcome InlineExpression
message_reference_at start id c flag =
    let (attribute, d) = parse_message_attribute c in
    found (message_reference id attribute (span_of start d.pos)) d flag

-- `_parse_inline_string_literal`.
unfoldable pub string_literal_at : Bool → Cursor → Outcome InlineExpression
string_literal_at flag c = or_missing flag (parse_string_literal c) ⟫ λ value d u.
    found (literal (string_literal value)) d u

-- `_parse_inline_number_literal`.
unfoldable pub number_literal_at : Bool → Cursor → Outcome InlineExpression
number_literal_at flag c =
    or_missing flag (parse_number c) ⟫ λ raw d u. found (literal (number_literal raw)) d u

-- The optional attribute of a term reference, which must be there behind a `.`.
unfoldable pub term_attribute : Bool → Cursor → Outcome (Option Identifier)
term_attribute flag c =
    if at_char c b'.'
    then (identifier_node flag (step c) ⟫ λ id d u. found (some id) d u)
    else found none c flag

-- `if cursor.is_eof or cursor.current != ch: return None`, and the character is passed.
unfoldable pub closing {ℓ} : {A : Type ℓ} → ℕ → A → Cursor → Bool → Outcome A
closing ch a c flag = if at_char c ch then found a (step c) flag else missing flag

-- `{ expression -> `: the arrow of a select expression.
unfoldable pub at_arrow : Cursor → Bool
at_arrow c = at_char c b'-' && at_char (step c) b'>'

-- `cursor = skip_blank(cursor)` and an optional comma with the blanks behind it.
unfoldable pub behind_argument : Cursor → Cursor
behind_argument c = let d = skip_blank c in if at_char d b',' then skip_blank (step d) else d

-- The value of a named argument is a literal.
abbrev pub as_literal : InlineExpression → Option Literal
as_literal (literal l) = some l
as_literal _ = none

-- `arg_expr.id` of a `MessageReference`.
abbrev pub as_argument_name : InlineExpression → Option Identifier
as_argument_name (message_reference id attribute span) = some id
as_argument_name _ = none

abbrev pub with_positional : InlineExpression → CallArguments → CallArguments
with_positional a (call_arguments positional named) = call_arguments (argument a positional) named

abbrev pub with_named : Identifier → Literal → CallArguments → CallArguments
with_named id value (call_arguments positional named) =
    call_arguments positional (record { name = id; value = value } ∷ named)

-- The end of `parse_select_expression`: at least one variant, and exactly one default.
unfoldable pub select_of : InlineExpression → ℕ → Variants → Cursor → Bool → Outcome Expression
select_of selector start no_variants c flag = missing flag
select_of selector start (variants v rest) c flag =
    if default_count (variants v rest) == 1
    then found (select_expression selector (variants v rest) (span_of start c.pos)) c flag
    else missing flag

-- The end of a pattern parser.
unfoldable pub pattern_of : PatternState → Pattern
pattern_of s = trim_pattern_blank_lines ((flush s).elements)
