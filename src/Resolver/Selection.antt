-- ===== src/Resolver/Selection.antt =====
-- src/ftllexengine/runtime/resolver_runtime.py, resolver_selection.py and plural_rules.py: values,
-- calls of functions and the choice of a variant.
use ftllex_engine.Base.{
  ℕ, Bool, true, false, Option, none, some, List, [], ◌∷◌, ◌++◌, Text, codes, text_eq, length, ◌==◌,
  if◌then◌else◌, Dict, lookup, insert, text_key, Exn, ok, raised, ◌>>=◌,
}
use ftllex_engine.Syntax.{
  Literal, string_literal, number_literal, identifier_key, number_key, NamedArgument, Variant,
  variant, Pattern, is_default,
}
use ftllex_engine.Resolver.{
  reference_error, resolution_error, FluentValue, string, boolean, number, nothing, float, sequence,
  other, returned, refused, failed, Resolver, ResolverState, Resolved, resolved, thrown, starved,
  ◌⟫◌, report, in_braces, crashed,
}

-- `args`, and the call of `_resolve_pattern` on the pattern of a message or a term.
abbrev pub Arguments : Type 0 → Type 0
Arguments N = Dict Text (FluentValue N)

abbrev pub Jump : Type 0 → Type 0
Jump N = Pattern → Arguments N → ResolverState → Resolved Text

-- `str` of a value.
unfoldable pub printed : Exn Text → ResolverState → Resolved Text
printed (ok t) s = resolved t s
printed (raised e) s = crashed e s

-- `_format_value`.
unfoldable pub format_value :
    {N : Type 0} → Resolver N → FluentValue N → ResolverState → Resolved Text
format_value r (string t) s = resolved t s
format_value r (boolean b) s = resolved (if b then codes "true" else codes "false") s
format_value r (number n precision) s = printed (r.str n) s
format_value r nothing s = resolved [] s
format_value r float s = thrown resolution_error s
format_value r (sequence kind) s = resolved (b'[' ∷ kind ++ b']' ∷ []) s
format_value r (other n) s = printed (r.str n) s

unfoldable pub literal_value : {N : Type 0} → Resolver N → Literal → FluentValue N
literal_value r (string_literal t) = string t
literal_value r (number_literal raw) = r.number_of raw

-- `_resolve_variable_reference`.
unfoldable pub variable_value :
    {N : Type 0} → Text → Arguments N → ResolverState → Resolved (FluentValue N)
variable_value name args s = elim (lookup name args) [
  | none ↦ thrown reference_error s
  | some value ↦ resolved value s
]

-- The named arguments of a call; they are literals.
unfoldable pub named_values :
    {N : Type 0} → Resolver N → Arguments N → List NamedArgument → Arguments N
named_values r found [] = found
named_values r found (a ∷ named) =
    named_values r (insert a.name.name (literal_value r a.value) found) named

-- `_call_function_safe`.
unfoldable pub call_function_safe :
    {N : Type 0}
    → Resolver N
    → Text
    → List (FluentValue N)
    → Arguments N
    → ResolverState
    → Resolved (FluentValue N)
call_function_safe r name positional named s = elim (r.call_function name positional named) [
  | returned value ↦ resolved value s
  | refused e ↦ thrown e s
  | failed ↦ resolved (string (in_braces (codes "!") name)) (report resolution_error s)
]

-- `len(positional_values) == expected_args`, if a number is expected.
unfoldable pub fits_arity : Option ℕ → ℕ → Bool
fits_arity none n = true
fits_arity (some expected) n = n == expected

-- `_resolve_function_call` behind the arguments.
unfoldable pub call_with_locale :
    {N : Type 0}
    → Resolver N
    → Text
    → List (FluentValue N)
    → Arguments N
    → ResolverState
    → Resolved (FluentValue N)
call_with_locale r name positional named s = elim (r.should_inject_locale name) [
  | false ↦ call_function_safe r name positional named s
  | true ↦ elim (fits_arity (r.get_expected_positional_args name) (length positional)) [
    | false ↦ thrown resolution_error s
    | true ↦ call_function_safe r name (positional ++ string r.locale ∷ []) named s
  ]
]

-- `Decimal(str(numeric_for_match))`, for a number.
unfoldable pub decimal_of : {N : Type 0} → Resolver N → FluentValue N → Exn (Option N)
decimal_of r (number n precision) = r.decimal n >>= λ d. ok (some d)
decimal_of r value = ok none

-- The test of `_find_exact_variant`.
unfoldable pub is_exact : {N : Type 0} → Resolver N → Option N → Text → Variant → Exn Bool
is_exact r decimal text (variant (identifier_key id) pattern default) = ok (text_eq id.name text)
is_exact r (some n) text (variant (number_key raw) pattern default) = r.equals_literal n raw
is_exact r none text (variant (number_key raw) pattern default) = ok false

-- The test of `_find_plural_variant`.
unfoldable pub is_plural : Text → Variant → Exn Bool
is_plural category (variant (identifier_key id) pattern default) = ok (text_eq id.name category)
is_plural category (variant (number_key raw) pattern default) = ok false

-- The test of `_find_default_variant`, and the one that the first variant passes.
unfoldable pub has_default : Variant → Exn Bool
has_default v = ok (is_default v)

unfoldable pub is_any : Variant → Exn Bool
is_any v = ok true

-- A search of the variants that resolves the pattern of the first one that passes the test.
abbrev pub Find : Type 0
Find = (Variant → Exn Bool) → ResolverState → Option (Resolved Text)

-- `_resolve_fallback_variant`.
unfoldable pub fallback_variant : Find → ResolverState → Resolved Text
fallback_variant find s = elim (find has_default s) [
  | some result ↦ result
  | none ↦ elim (find is_any s) [ some result ↦ result | none ↦ thrown resolution_error s ]
]

-- `get_babel_locale`, with the root locale where there is no such locale.
unfoldable pub plural_form : {N : Type 0} → Resolver N → Option (N → Exn Text)
plural_form r = elim (r.get_plural_form r.locale) [
  | some form ↦ some form
  | none ↦ r.get_plural_form (codes "root")
]

-- The number that the rule gets.
unfoldable pub with_precision : {N : Type 0} → Resolver N → N → Option ℕ → Exn N
with_precision r n none = ok n
with_precision r n (some precision) = r.quantize n precision

-- `select_plural_category` for cardinal rules; none is its `BabelImportError`.
unfoldable pub select_plural_category : {N : Type 0} → Resolver N → N → Option ℕ → Exn (Option Text)
select_plural_category r n precision = elim r.has_babel [
  | false ↦ ok none
  | true ↦ elim (plural_form r) [
    | none ↦ ok (some (codes "other"))
    | some form ↦ elim (r.is_finite n) [
      | false ↦ ok (some (codes "other"))
      | true ↦ (with_precision r n precision >>= form) >>= λ category. ok (some category)
    ]
  ]
]

-- The search for the variant of a plural category, if plural rules are installed.
unfoldable pub variant_of : Exn (Option Text) → Find → ResolverState → Resolved Text
variant_of (raised e) find s = crashed e s
variant_of (ok none) find s = fallback_variant find (report resolution_error s)
variant_of (ok (some category)) find s = elim (find (is_plural category) s) [
  | some result ↦ result
  | none ↦ fallback_variant find s
]

-- The second pass of `_resolve_select_expression`, for a number.
unfoldable pub plural_variant :
    {N : Type 0} → Resolver N → FluentValue N → Find → ResolverState → Resolved Text
plural_variant r (number n precision) find s =
    variant_of (select_plural_category r n precision) find s
plural_variant r value find s = fallback_variant find s

-- The first pass, once the selector is formatted.
unfoldable pub exact_variant :
    {N : Type 0}
    → Resolver N
    → FluentValue N
    → Exn (Option N)
    → Text
    → Find
    → ResolverState
    → Resolved Text
exact_variant r value (raised e) text find s = crashed e s
exact_variant r value (ok decimal) text find s = elim (find (is_exact r decimal text) s) [
  | some result ↦ result
  | none ↦ plural_variant r value find s
]

-- `_resolve_select_expression`, given how the selector was resolved.
unfoldable pub selected :
    {N : Type 0} → Resolver N → Find → Resolved (FluentValue N) → Resolved Text
selected r find (resolved value s) =
    format_value r value s ⟫ λ text t. exact_variant r value (decimal_of r value) text find t
selected r find (thrown e s) = fallback_variant find (report e s)
selected r find (crashed e s) = crashed e s
selected r find starved = starved
