-- ===== src/Syntax/Valid.antt =====
-- src/ftllexengine/syntax/ast.py: the conditions that the nodes of a parsed text meet, those of
-- `Span.__post_init__` and `SelectExpression.__post_init__` among them.
use ftllex_engine.Base.{
  ℕ, ◌-◌, ◌≤◌, ◌<◌, ◌≡◌, true, false, Option, none, some, List, [], ◌∷◌, Text, length, slice, All,
  member, add,
}
use ftllex_engine.Identifier.Grammar.{IsIdentifier}
use ftllex_engine.Syntax.{
  Span, Identifier, VariantKey, identifier_key, number_key, NamedArgument, InlineExpression,
  literal, variable_reference, message_reference, term_reference, function_reference, placeable,
  Expression, inline, select_expression, CallArguments, call_arguments, OptionalArguments, no_call,
  call, Positional, no_arguments, argument, Variants, no_variants, variants, Variant, variant,
  Pattern, no_elements, text_element, placeable_element, is_valid_selector, default_count,
}

-- `Span.__post_init__`, and the span is a part of the text.
abbrev pub SpanIn : Text → Span → Type 0
SpanIn text s = (s.start ≤ s.end) × (s.end ≤ length text)

-- A name of the grammar, and its span is where the text has it.
pub record IdentifierIn (text : Text) (id : Identifier) : Type 0 where
  pub span_in : SpanIn text id.span
  pub located : slice text id.span.start id.span.end ≡ id.name
  pub grammatical : IsIdentifier id.name

abbrev pub OptionIn : Text → Option Identifier → Type 0
OptionIn text none = Unit
OptionIn text (some id) = IdentifierIn text id

abbrev pub KeyIn : Text → VariantKey → Type 0
KeyIn text (identifier_key id) = IdentifierIn text id
KeyIn text (number_key raw) = Unit

-- No named argument has the name of one before it, or one of `seen`.
unfoldable pub Distinct : List Text → List NamedArgument → Type 0
Distinct seen [] = Unit
Distinct seen (a ∷ rest) = (member a.name.name seen ≡ false) × Distinct (add a.name.name seen) rest

-- A tree over a text, with at most `levels` placeables and calls inside each other.
unfoldable mutual
  pub InlineIn : Text → ℕ → InlineExpression → Type 0
  InlineIn text levels (literal l) = Unit
  InlineIn text levels (variable_reference id span) = IdentifierIn text id × SpanIn text span
  InlineIn text levels (message_reference id attribute span) =
      IdentifierIn text id × OptionIn text attribute × SpanIn text span
  InlineIn text levels (term_reference id attribute arguments span) =
      IdentifierIn text id
      × OptionIn text attribute
      × OptionalIn text levels arguments
      × SpanIn text span
  InlineIn text levels (function_reference id arguments span) =
      IdentifierIn text id
      × (0 < levels)
      × ArgumentsIn text (levels - 1) arguments
      × SpanIn text span
  InlineIn text levels (placeable e) = (0 < levels) × ExpressionIn text (levels - 1) e

  pub ExpressionIn : Text → ℕ → Expression → Type 0
  ExpressionIn text levels (inline e) = InlineIn text levels e
  ExpressionIn text levels (select_expression selector vs span) =
      InlineIn text levels selector
      × (is_valid_selector selector ≡ true)
      × VariantsIn text levels vs
      × (default_count vs ≡ 1)
      × SpanIn text span

  pub OptionalIn : Text → ℕ → OptionalArguments → Type 0
  OptionalIn text levels no_call = Unit
  OptionalIn text levels (call arguments) = (0 < levels) × ArgumentsIn text (levels - 1) arguments

  pub ArgumentsIn : Text → ℕ → CallArguments → Type 0
  ArgumentsIn text levels (call_arguments positional named) =
      PositionalIn text levels positional
      × All (λ a. IdentifierIn text a.name) named
      × Distinct [] named

  pub PositionalIn : Text → ℕ → Positional → Type 0
  PositionalIn text levels no_arguments = Unit
  PositionalIn text levels (argument a rest) =
      InlineIn text levels a × PositionalIn text levels rest

  pub VariantsIn : Text → ℕ → Variants → Type 0
  VariantsIn text levels no_variants = Unit
  VariantsIn text levels (variants v rest) = VariantIn text levels v × VariantsIn text levels rest

  pub VariantIn : Text → ℕ → Variant → Type 0
  VariantIn text levels (variant key value default) = KeyIn text key × PatternIn text levels value

  pub PatternIn : Text → ℕ → Pattern → Type 0
  PatternIn text levels no_elements = Unit
  PatternIn text levels (text_element t rest) = PatternIn text levels rest
  PatternIn text levels (placeable_element e rest) =
      ((0 < levels) × ExpressionIn text (levels - 1) e) × PatternIn text levels rest

-- The placeable of a context with so many levels left.
abbrev pub PlaceableIn : Text → ℕ → Expression → Type 0
PlaceableIn text levels e = (0 < levels) × ExpressionIn text (levels - 1) e
