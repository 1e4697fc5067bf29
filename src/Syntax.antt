-- ===== src/Syntax.antt =====
-- src/ftllexengine/syntax/ast.py: the nodes of an expression and of a pattern.
pub mod Valid
use ftllex_engine.Base.{
  ℕ, Bool, true, false, not, Option, List, [], ◌∷◌, ◌+◌, ◌==◌, Text, if◌then◌else◌,
}

pub record Span : Type 0 where
  pub start : ℕ
  pub end : ℕ

-- A node the parser built, so its span is there.
pub record Identifier : Type 0 where
  pub name : Text
  pub span : Span

-- `FTLLiteral`; the value of a number is the number that `raw` writes.
pub data Literal : Type 0 where
  string_literal number_literal : Text → Literal

-- `VariantKey`.
pub data VariantKey : Type 0 where
  identifier_key : Identifier → VariantKey
  number_key : Text → VariantKey

pub record NamedArgument : Type 0 where
  pub name : Identifier
  pub value : Literal

-- The alternatives of `InlineExpression` and `Expression`; a tuple of nodes is a type of its own.
-- The spans that the parser leaves at None are left out.
mutual
  pub data InlineExpression : Type 0 where
    literal : Literal → InlineExpression
    variable_reference : Identifier → Span → InlineExpression
    message_reference : Identifier → Option Identifier → Span → InlineExpression
    term_reference : Identifier → Option Identifier → OptionalArguments → Span → InlineExpression
    function_reference : Identifier → CallArguments → Span → InlineExpression
    placeable : Expression → InlineExpression

  pub data Expression : Type 0 where
    inline : InlineExpression → Expression
    select_expression : InlineExpression → Variants → Span → Expression

  pub data CallArguments : Type 0 where
    call_arguments : Positional → List NamedArgument → CallArguments

  -- `CallArguments | None`.
  pub data OptionalArguments : Type 0 where
    no_call : OptionalArguments
    call : CallArguments → OptionalArguments

  pub data Positional : Type 0 where
    no_arguments : Positional
    argument : InlineExpression → Positional → Positional

  pub data Variants : Type 0 where
    no_variants : Variants
    variants : Variant → Variants → Variants

  pub data Variant : Type 0 where
    variant : VariantKey → Pattern → Bool → Variant

  pub data Pattern : Type 0 where
    no_elements : Pattern
    text_element : Text → Pattern → Pattern
    placeable_element : Expression → Pattern → Pattern

-- `isinstance(expression, (VariableReference, StringLiteral, ...))` of `parse_placeable`.
unfoldable pub is_valid_selector : InlineExpression → Bool
is_valid_selector (placeable e) = false
is_valid_selector _ = true

-- `variant.default`.
unfoldable pub is_default : Variant → Bool
is_default (variant key value default) = default

-- `sum(1 for variant in variants if variant.default)`.
unfoldable pub default_count : Variants → ℕ
default_count no_variants = 0
default_count (variants v rest) = (if is_default v then 1 else 0) + default_count rest

-- `list.append` on the elements of a pattern.
unfoldable pub append : Pattern → Pattern → Pattern
append no_elements end = end
append (text_element t rest) end = text_element t (append rest end)
append (placeable_element e rest) end = placeable_element e (append rest end)
