-- ===== src/Grammar/Sound.antt =====
-- What each rule promises at one amount of fuel: with fuel for the text that is left it returns a
-- tree that fits the text, with the cursor behind it, or None.
pub mod Steps
pub mod Placeables
pub mod Calls
pub mod Selects
use ftllex_engine.Base.{
  ℕ, zero, suc, ◌+◌, ◌-◌, ◌*◌, ◌≤◌, ◌<◌, ◌≡◌, refl, sym, ap, ◌∙◌, subst, inl, inr, Bool, true,
  false, not, ◌&&◌, ◌||◌, List, [], ◌∷◌, Text, length, ◌==◌, if◌then◌else◌, if-elim, if-cases,
  Bool-elim, Bool-cases, Exn-cases, Option-cases, arith, Option, none, some, All, member, add, ok,
  raised,
}
use ftllex_engine.Cursor.{Cursor, current, is_eof, at_char, step}
use ftllex_engine.Identifier.{is_identifier_start}
use ftllex_engine.Primitives.{current_is, is_digit}
use ftllex_engine.Whitespace.{skip_blank, skip_blank_inline, is_indented_continuation}
use ftllex_engine.Syntax.{
  Identifier, Literal, literal, message_reference, InlineExpression, Expression, CallArguments,
  call_arguments, Variants, no_variants, variants, Variant, Pattern, no_elements, is_valid_selector,
  default_count,
}
use ftllex_engine.Syntax.Valid.{
  SpanIn, IdentifierIn, OptionIn, KeyIn, Distinct, InlineIn, ExpressionIn, OptionalIn, ArgumentsIn,
  PositionalIn, VariantsIn, VariantIn, PatternIn, PlaceableIn,
}
use ftllex_engine.Outcome.{
  ParseContext, is_depth_exceeded, enter_nesting, Outcome, found, missing, ◌⟫◌, reading, Ensures,
  holds, rejected, Ensures-bind, Ensures-weaken, levels, levels-enter_nesting, levels_pos,
}
use ftllex_engine.Patterns.{
  PatternState, flush, add_placeable, continue_line, read_text, ends_simple_pattern,
  trim_pattern_blank_lines,
}
use ftllex_engine.Patterns.Kept.{trim-PatternIn, flush-PatternIn, add_placeable-PatternIn}
use ftllex_engine.Patterns.Lines.{
  continue_line-Onward, continue_line-PatternIn, read_text-Onward, read_text-PatternIn,
}
use ftllex_engine.Terminals.{
  closing, at_arrow, behind_argument, as_literal, as_argument_name, with_positional, with_named,
  select_of, pattern_of, span_of,
}
use ftllex_engine.Terminals.Onward.{
  Onward, Onward-here, Onward-le, step-Onward, next-Onward, step_char-Onward, current-inside,
  is_eof-inside, skip_blank-Onward, skip_blank_inline-Onward, behind_argument-Onward,
}
use ftllex_engine.Terminals.Names.{Yields, identifier_node-Ensures}
use ftllex_engine.Terminals.Rules.{
  closing-Ensures, variable_reference-Ensures, string_literal-Ensures, number_literal-Ensures,
  term_attribute-Ensures, variant_key-Ensures, message_reference-Ensures,
}
use ftllex_engine.Terminals.Settled.{
  IsSettled, skip_blank-IsSettled, behind_argument-IsSettled, current-ok,
}
use ftllex_engine.Grammar.{
  parse_placeable, parse_inline_expression, parse_argument_expression, hyphen_expression,
  identifier_expression, parse_function_reference, parse_term_reference, parse_call_arguments,
  arguments_loop, named_argument, parse_select_expression, variants_loop, parse_variant,
  parse_simple_pattern, pattern_loop,
}

-- The arguments that the loop finds behind those with the names `seen`.
abbrev pub LoopIn : Text → ℕ → List Text → CallArguments → Type 0
LoopIn text n seen (call_arguments positional named) =
    PositionalIn text n positional × All (λ a. IdentifierIn text a.name) named × Distinct seen named

-- Fuel for the text that is left behind the cursor.
abbrev pub Enough : Text → Cursor → ℕ → ℕ → Type 0
Enough text c rank fuel = 6 * (length text - c.pos) + rank < fuel

abbrev pub Inlines : Text → ParseContext → Cursor → Outcome InlineExpression → Type 0
Inlines text k c = Ensures (Yields text (suc c.pos) (InlineIn text (levels k)))

pub record Rules (text : Text) (f : ℕ) : Type 0 where
  pub placeable :
      (k : ParseContext) (flag : Bool) {from : ℕ} {c : Cursor}
      → Onward text from c
      → Enough text c 4 f
      → Ensures (Yields text (suc c.pos) (PlaceableIn text (levels k))) (parse_placeable f k flag c)
  pub inline_expression :
      (k : ParseContext) (flag : Bool) {from : ℕ} {c : Cursor}
      → Onward text from c
      → Enough text c 3 f
      → Inlines text k c (parse_inline_expression f k flag c)
  pub argument_expression :
      (k : ParseContext) (flag : Bool) {from : ℕ} {c : Cursor}
      → Onward text from c
      → Enough text c 3 f
      → Inlines text k c (parse_argument_expression f k flag c)
  pub hyphen :
      (k : ParseContext) (flag : Bool) {from : ℕ} {c : Cursor}
      → Onward text from c
      → Enough text c 2 f
      → Inlines text k c (hyphen_expression f k flag c)
  pub identifier :
      (k : ParseContext) (flag : Bool) {from : ℕ} {c : Cursor}
      → Onward text from c
      → Enough text c 2 f
      → Inlines text k c (identifier_expression f k flag c)
  pub function_reference :
      (k : ParseContext) (flag : Bool) {from : ℕ} {c : Cursor}
      → Onward text from c
      → Enough text c 1 f
      → Inlines text k c (parse_function_reference f k flag c)
  pub term_reference :
      (k : ParseContext) (flag : Bool) {from : ℕ} {c : Cursor}
      → Onward text from c
      → Enough text c 1 f
      → Inlines text k c (parse_term_reference f k flag c)
  pub call_arguments :
      (k : ParseContext) (flag : Bool) {from : ℕ} {c : Cursor}
      → Onward text from c
      → Enough text c 5 f
      → Ensures (Yields text c.pos (ArgumentsIn text (levels k))) (parse_call_arguments f k flag c)
  pub arguments_loop :
      (k : ParseContext) (seen : List Text) (seen_named flag : Bool) {from : ℕ} {c : Cursor}
      → Onward text from c
      → IsSettled c
      → Enough text c 4 f
      → Ensures
          (Yields text c.pos (LoopIn text (levels k) seen))
          (arguments_loop f k seen seen_named flag c)
  pub named_argument :
      (k : ParseContext) (seen : List Text) (a : InlineExpression) (flag : Bool) {from : ℕ}
      {c : Cursor}
      → Onward text from c
      → InlineIn text (levels k) a
      → Enough text c 4 f
      → Ensures (Yields text c.pos (LoopIn text (levels k) seen)) (named_argument f k seen a flag c)
  pub select_expression :
      (k : ParseContext) (flag : Bool) (selector : InlineExpression) (start : ℕ) {from : ℕ}
      {c : Cursor}
      → Onward text from c
      → start ≤ c.pos
      → InlineIn text (levels k) selector
      → is_valid_selector selector ≡ true
      → Enough text c 3 f
      → Ensures
          (Yields text c.pos (ExpressionIn text (levels k)))
          (parse_select_expression f k flag selector start c)
  pub variants_loop :
      (k : ParseContext) (flag : Bool) {from : ℕ} {c : Cursor}
      → Onward text from c
      → Enough text c 2 f
      → Ensures (Yields text c.pos (VariantsIn text (levels k))) (variants_loop f k flag c)
  pub variant :
      (k : ParseContext) (flag : Bool) {from : ℕ} {c : Cursor}
      → Onward text from c
      → Enough text c 1 f
      → Ensures (Yields text (suc c.pos) (VariantIn text (levels k))) (parse_variant f k flag c)
  pub simple_pattern :
      (k : ParseContext) (flag : Bool) {from : ℕ} {c : Cursor}
      → Onward text from c
      → Enough text c 2 f
      → Ensures (Yields text c.pos (PatternIn text (levels k))) (parse_simple_pattern f k flag c)
  pub pattern_loop :
      (ends : Cursor → Bool) (k : ParseContext) (flag : Bool) (s : PatternState) {from : ℕ}
      {c : Cursor}
      → Onward text from c
      → PatternIn text (levels k) s.elements
      → Enough text c 1 f
      → Ensures (Yields text c.pos (PatternIn text (levels k))) (pattern_loop ends f k flag s c)
