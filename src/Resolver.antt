-- ===== src/Resolver.antt =====
-- src/ftllexengine/runtime/resolver.py, resolver_runtime.py and resolver_selection.py: the class
-- `FluentResolver`. The registry of functions, and what Python and Babel do with numbers, are
-- parameters.
pub mod Selection
pub mod References
pub mod Walk
pub mod Balance
pub mod Chosen
pub mod Entered
pub mod Total
use ftllex_engine.Base.{
  ℕ, zero, suc, ◌+◌, ◌-◌, ◌*◌, ◌^◌, Bool, true, false, not, ◌&&◌, ◌||◌, Option, none, some, List,
  [], ◌∷◌, ◌++◌, Text, codes, text_eq, length, ltb, leb, ◌==◌, if◌then◌else◌, Exn, ok, raised,
  Exception, ℤ,
}
use ftllex_engine.Syntax.{
  Identifier, Literal, string_literal, number_literal, VariantKey, identifier_key, number_key,
  NamedArgument, InlineExpression, literal, variable_reference, message_reference, term_reference,
  function_reference, placeable, Expression, inline, select_expression, CallArguments,
  call_arguments, OptionalArguments, no_call, call, Positional, no_arguments, argument, Variants,
  no_variants, variants, Variant, variant, Pattern, no_elements, text_element, placeable_element,
}
use ftllex_engine.Entries.{Attribute, Definition}
use ftllex_engine.Depth.{DepthGuard, enter, exit, global_enter}
use ftllex_engine.Resolution.{
  ResolutionContext, push, pop, contains, is_depth_exceeded, track_expansion,
}

-- The categories of `FrozenFluentError` that a resolution makes; a formatting error has a fallback.
pub data ResolutionError : Type 0 where
  reference_error cyclic_error resolution_error depth_error : ResolutionError
  formatting_error : Text → ResolutionError

-- `FluentValue` by the cases that the resolver tells apart: `N` is the type of numbers, with the
-- precision of a `FluentNumber`, and of all values of other classes.
pub data FluentValue (N : Type 0) : Type 0 where
  string : Text → FluentValue N
  boolean : Bool → FluentValue N
  number : N → Option ℕ → FluentValue N
  nothing float : FluentValue N
  sequence : Text → FluentValue N
  other : N → FluentValue N

-- `Message`, as a program may build it: with or without a value.
pub record Message : Type 0 where
  pub id : Identifier
  pub value : Option Pattern
  pub attributes : List Attribute

-- How a call of a registered function ends: with a value, with a `FrozenFluentError`, or with another
-- `Exception`. A cancelled task, which ends the resolution, is left out.
pub data Called (N : Type 0) : Type 0 where
  returned : FluentValue N → Called N
  refused : ResolutionError → Called N
  failed : Called N

-- What the resolver is given: messages and terms, the recursion limit of the interpreter, the
-- registry of functions, and what Python and Babel do with numbers, which may raise. `str` is the text
-- of a value, `decimal` is `Decimal(str(value))`, `equals_literal` compares one with the text of a
-- literal, `get_plural_form` gives the cardinal rule of a locale, if there is the locale.
pub record Resolver (N : Type 0) : Type 1 where
  pub messages : Text → Option Message
  pub terms : Text → Option Definition
  pub recursion_limit : ℕ
  pub use_isolating : Bool
  pub locale : Text
  pub should_inject_locale : Text → Bool
  pub get_expected_positional_args : Text → Option ℕ
  pub call_function : Text → List (FluentValue N) → List (Text × FluentValue N) → Called N
  pub number_of : Text → FluentValue N
  pub str : N → Exn Text
  pub decimal : N → Exn N
  pub equals_literal : N → Text → Exn Bool
  pub has_babel : Bool
  pub get_plural_form : Text → Option (N → Exn Text)
  pub is_finite : N → Bool
  pub quantize : N → ℕ → Exn N

-- What changes in a resolution.
pub record ResolverState : Type 0 where
  pub context : ResolutionContext
  pub expression_guard : DepthGuard
  pub global_depth : ℕ
  pub errors : List ResolutionError

-- A call returns, raises a `FrozenFluentError` or another exception, or ran out of levels.
pub data Resolved {ℓ} (A : Type ℓ) : Type ℓ where
  resolved : A → ResolverState → Resolved A
  thrown : ResolutionError → ResolverState → Resolved A
  crashed : Exception → ResolverState → Resolved A
  starved : Resolved A

infixl 5 ◌⟫◌
abbrev pub ◌⟫◌ {ℓ κ} :
    {A : Type ℓ} {B : Type κ} → Resolved A → (A → ResolverState → Resolved B) → Resolved B
resolved a s ⟫ f = f a s
thrown e s ⟫ f = thrown e s
crashed e s ⟫ f = crashed e s
starved ⟫ f = starved

-- `errors.append`.
unfoldable pub report : ResolutionError → ResolverState → ResolverState
report e s = record s { errors = s.errors ++ e ∷ [] }

-- `context.track_expansion`, and `context.total_chars > context.max_expansion_size`.
unfoldable pub track : ℕ → ResolverState → ResolverState
track n s = record s { context = track_expansion n s.context }

unfoldable pub over_budget : ResolverState → Bool
over_budget s = ltb s.context.max_expansion_size s.context.total_chars

-- `with context.expression_guard`, whose `__exit__` runs also where the body raises.
unfoldable pub leave_guard {ℓ} : {A : Type ℓ} → Resolved A → Resolved A
leave_guard (resolved a s) = resolved a (record s { expression_guard = exit s.expression_guard })
leave_guard (thrown e s) = thrown e (record s { expression_guard = exit s.expression_guard })
leave_guard (crashed e s) = crashed e (record s { expression_guard = exit s.expression_guard })
leave_guard starved = starved

unfoldable pub guarded {ℓ} :
    {A : Type ℓ} → ResolverState → (ResolverState → Resolved A) → Resolved A
guarded s body = elim (enter s.expression_guard) [
  | raised e ↦ thrown depth_error s
  | ok g ↦ leave_guard (body (record s { expression_guard = g }))
]

-- `finally: context.pop()`.
unfoldable pub popped {ℓ} : {A : Type ℓ} → (ResolverState → Resolved A) → ResolverState → Resolved A
popped result s = elim (pop s.context).0 [
  | ok key ↦ result (record s { context = (pop s.context).1 })
  | raised e ↦ crashed e (record s { context = (pop s.context).1 })
]

unfoldable pub leave_key {ℓ} : {A : Type ℓ} → Resolved A → Resolved A
leave_key (resolved a s) = popped (resolved a) s
leave_key (thrown e s) = popped (thrown e) s
leave_key (crashed e s) = popped (crashed e) s
leave_key starved = starved

-- `FALLBACK_MISSING_MESSAGE` and its like.
abbrev pub in_braces : Text → Text → Text
in_braces mark name = b'{' ∷ mark ++ name ++ b'}' ∷ []

-- `f"{name}.{attribute}"`, if there is an attribute.
abbrev pub with_attribute : Text → Option Identifier → Text
with_attribute name none = name
with_attribute name (some id) = name ++ b'.' ∷ id.name

-- `_get_fallback_for_placeable` with its two helpers: the depth bounds what is nested.
unfoldable mutual
  pub fallback_inline : ℕ → InlineExpression → Text
  fallback_inline zero e = codes "{???}"
  fallback_inline (suc depth) (literal (string_literal value)) = value
  fallback_inline (suc depth) (literal (number_literal raw)) = raw
  fallback_inline (suc depth) (variable_reference id span) = in_braces (codes "$") id.name
  fallback_inline (suc depth) (message_reference id attribute span) =
      in_braces [] (with_attribute id.name attribute)
  fallback_inline (suc depth) (term_reference id attribute arguments span) =
      in_braces (codes "-") (with_attribute id.name attribute)
  fallback_inline (suc depth) (function_reference id arguments span) = in_braces (codes "!") id.name
  fallback_inline (suc depth) (placeable e) = fallback depth e

  pub fallback : ℕ → Expression → Text
  fallback depth (inline e) = fallback_inline depth e
  fallback zero (select_expression selector vs span) = codes "{???}"
  fallback (suc depth) (select_expression selector vs span) =
      b'{' ∷ fallback_inline depth selector ++ codes " -> ...}"

-- `next((a for a in reversed(attributes) if a.id.name == name), None)`.
unfoldable pub last_attribute : Text → List Attribute → Option Pattern
last_attribute name [] = none
last_attribute name (a ∷ attributes) = elim (last_attribute name attributes) [
  | some p ↦ some p
  | none ↦ if text_eq a.id.name name then some a.value else none
]

-- The pattern of a message or term, or of its attribute.
unfoldable pub pattern_at : Option Pattern → List Attribute → Option Identifier → Option Pattern
pattern_at value attributes none = value
pattern_at value attributes (some id) = last_attribute id.name attributes
