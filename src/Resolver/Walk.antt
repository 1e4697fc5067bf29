-- ===== src/Resolver/Walk.antt =====
-- src/ftllexengine/runtime/resolver.py: `_resolve_pattern` and `_resolve_expression`.
use ftllex_engine.Base.{
  ℕ, zero, suc, Bool, true, false, Option, none, some, List, [], ◌∷◌, ◌++◌, Text, length,
  if◌then◌else◌, Exn, ok, raised,
}
use ftllex_engine.Syntax.{
  InlineExpression, literal, variable_reference, message_reference, term_reference,
  function_reference, placeable, Expression, inline, select_expression, call_arguments, no_call,
  call, Positional, no_arguments, argument, Variants, no_variants, variants, Variant, variant,
  Pattern, no_elements, text_element, placeable_element,
}
use ftllex_engine.Resolver.{
  ResolutionError, resolution_error, formatting_error, FluentValue, string, Resolver, ResolverState,
  Resolved, resolved, thrown, starved, ◌⟫◌, report, track, over_budget, guarded, fallback, crashed,
}
use ftllex_engine.Resolver.Selection.{
  Arguments, Jump, format_value, literal_value, variable_value, named_values, call_with_locale,
  selected,
}
use ftllex_engine.Resolver.References.{message_value, term_value}

-- The check in front of the loop.
unfoldable pub within_budget : ResolverState → (ResolverState → Resolved Text) → Resolved Text
within_budget s loop = elim (over_budget s) [
  | true ↦ resolved [] (report resolution_error s)
  | false ↦ loop s
]

-- `parts.append`.
unfoldable pub prefixed : Text → Resolved Text → Resolved Text
prefixed part r = r ⟫ λ text s. resolved (part ++ text) s

-- A text element; `break` gives up the elements behind it.
unfoldable pub text_part : Text → ResolverState → (ResolverState → Resolved Text) → Resolved Text
text_part value s loop =
    let t = track (length value) s in
    elim (over_budget t) [
      | true ↦ resolved [] (report resolution_error t)
      | false ↦ prefixed value (loop t)
    ]

-- U+2068 and U+2069 around what a placeable gives.
unfoldable pub isolated : Bool → Text → Text
isolated use_isolating t = if use_isolating then 8296 ∷ t ++ 8297 ∷ [] else t

-- What stands for a placeable that failed.
unfoldable pub error_text : ResolutionError → Expression → Text
error_text (formatting_error (c ∷ t)) e = c ∷ t
error_text _ e = fallback 10 e

-- A placeable, given how its value was resolved and formatted.
unfoldable pub placeable_part :
    Bool → Expression → Resolved Text → (ResolverState → Resolved Text) → Resolved Text
placeable_part use_isolating e (resolved formatted s) loop =
    let t = track (length formatted) s in
    elim (over_budget t) [
      | true ↦ resolved [] (if over_budget s then t else report resolution_error t)
      | false ↦ prefixed (isolated use_isolating formatted) (loop t)
    ]
placeable_part use_isolating e (thrown error s) loop =
    prefixed (error_text error e) (loop (report error s))
placeable_part use_isolating e (crashed x s) loop = crashed x s
placeable_part use_isolating e starved loop = starved

abbrev pub as_value : {N : Type 0} → Resolved Text → Resolved (FluentValue N)
as_value r = r ⟫ λ t s. resolved (string t) s

module _ {N : Type 0} (r : Resolver N) (jump : Jump N) where
  unfoldable mutual
    -- The loop over the elements of a pattern.
    pub elements : Pattern → Arguments N → ResolverState → Resolved Text
    elements no_elements args s = resolved [] s
    elements (text_element value rest) args s = text_part value s (λ t. elements rest args t)
    elements (placeable_element e rest) args s =
        placeable_part r.use_isolating e
          (guarded s (λ t. resolve_expression e args t) ⟫ λ value t. format_value r value t)
          (λ t. elements rest args t)

    -- `_resolve_expression`.
    pub resolve_expression : Expression → Arguments N → ResolverState → Resolved (FluentValue N)
    resolve_expression (inline e) args s = resolve_inline e args s
    resolve_expression (select_expression selector vs span) args s = as_value (
        selected r (λ test t. first_variant test vs args t)
          (guarded s (λ t. resolve_inline selector args t)))

    pub resolve_inline : InlineExpression → Arguments N → ResolverState → Resolved (FluentValue N)
    resolve_inline (literal value) args s = resolved (literal_value r value) s
    resolve_inline (variable_reference id span) args s = variable_value id.name args s
    resolve_inline (message_reference id attribute span) args s =
        as_value (message_value r jump id attribute args s)
    resolve_inline (term_reference id attribute no_call span) args s =
        as_value (term_value r jump id attribute [] false (resolved tt) s)
    resolve_inline (term_reference id attribute (call (call_arguments no_arguments named)) span)
          args s =
        as_value (term_value r jump id attribute named false (resolved tt) s)
    resolve_inline
          (term_reference id attribute (call (call_arguments (argument e rest) named)) span) args
          s =
        as_value (
          term_value r jump id attribute named true
            (λ t. guarded t (λ u. resolve_inline e args u) ⟫ λ v w. guard_arguments rest args w) s)
    resolve_inline (function_reference id (call_arguments positional named) span) args s =
        guarded s (λ t. argument_values positional args t) ⟫ λ values t.
        call_with_locale r id.name values (named_values r [] named) t
    resolve_inline (placeable e) args s = guarded s (λ t. resolve_expression e args t)

    -- The positional arguments of a function, under one guard.
    pub argument_values : Positional → Arguments N → ResolverState → Resolved (List (FluentValue N))
    argument_values no_arguments args s = resolved [] s
    argument_values (argument e rest) args s = resolve_inline e args s ⟫ λ value t.
        argument_values rest args t ⟫ λ values u. resolved (value ∷ values) u

    -- The positional arguments of a term, each under a guard.
    pub guard_arguments : Positional → Arguments N → ResolverState → Resolved (Unit {0})
    guard_arguments no_arguments args s = resolved tt s
    guard_arguments (argument e rest) args s =
        guarded s (λ t. resolve_inline e args t) ⟫ λ v t. guard_arguments rest args t

    -- The first variant that passes the test, its pattern resolved.
    pub first_variant :
        (Variant → Exn Bool) → Variants → Arguments N → ResolverState → Option (Resolved Text)
    first_variant test no_variants args s = none
    first_variant test (variants (variant key value default) rest) args s =
        elim (test (variant key value default)) [
          | raised e ↦ some (crashed e s)
          | ok true ↦ some (within_budget s (λ t. elements value args t))
          | ok false ↦ first_variant test rest args s
        ]

-- `_resolve_pattern` where the patterns of messages and terms may nest so often.
unfoldable pub resolve_pattern : {N : Type 0} → Resolver N → ℕ → Jump N
resolve_pattern r zero pattern args s = starved
resolve_pattern r (suc n) pattern args s =
    within_budget s (λ t. elements r (resolve_pattern r n) pattern args t)
