-- ===== src/Tests/ResolverCases.antt =====
-- src/ftllexengine/runtime/resolver.py at concrete inputs.
use ftllex_engine.Base.{
  ℕ, ◌≡◌, refl, true, false, none, some, [], ◌∷◌, ◌++◌, Text, codes, text_eq, lookup, member, add,
  discard, last, without_last, if◌then◌else◌, ℤ, ◌⊎◌, Exception, ok, raised, value_error, leb,
}
use ftllex_engine.Syntax.{
  Identifier, Span, message_reference, variable_reference, inline, Pattern, no_elements,
  text_element, placeable_element,
}
use ftllex_engine.Depth.{enter, exit, global_enter, depth_clamp}
use ftllex_engine.Resolution.{push, pop, contains, is_depth_exceeded, track_expansion}
use ftllex_engine.Resolver.{
  failed, string, Resolver, ResolverState, resolved, cyclic_error, reference_error, report, track,
  over_budget, leave_guard, guarded, popped, leave_key, fallback_inline, fallback, last_attribute,
  pattern_at, Message, crashed, number,
}
use ftllex_engine.Resolver.Selection.{format_value, variable_value, printed}
use ftllex_engine.Resolver.References.{
  resolve_message, leave_global, globally, settled, inside_key, extended, message_value,
}
use ftllex_engine.Resolver.Walk.{
  resolve_pattern, within_budget, prefixed, text_part, isolated, error_text, placeable_part,
  elements, resolve_expression, resolve_inline,
}
use ftllex_engine.Resolver.Balance.{Kept}
use ftllex_engine.Resolver.Chosen.{Raises}
use ftllex_engine.Resolver.Total.{resolve_message-Kept}

abbrev somewhere : Span
somewhere = record { start = 0; end = 0 }

abbrev named : Text → Identifier
named name = record { name = name; span = somewhere }

abbrev message_of : Text → Pattern → Message
message_of name value = record { id = named name; value = some value; attributes = [] }

-- `a = A { b }` and `b = B { a }`.
abbrev message_a : Message
message_a = message_of (codes "a") (
    text_element (codes "A ") (
      placeable_element (inline (message_reference (named (codes "b")) none somewhere))
        no_elements))

abbrev message_b : Message
message_b = message_of (codes "b") (
    text_element (codes "B ") (
      placeable_element (inline (message_reference (named (codes "a")) none somewhere))
        no_elements))

abbrev resolver : Resolver ℕ
resolver = record {
  messages = λ name.
      if text_eq name (codes "a")
      then some message_a
      else if text_eq name (codes "b")
      then some message_b
      else none;
  terms = λ name. none;
  recursion_limit = 1000;
  use_isolating = true;
  locale = codes "en";
  should_inject_locale = λ name. false;
  get_expected_positional_args = λ name. none;
  call_function = λ name positional named. failed;
  number_of = string;
  str = λ n. if leb n 999 then ok (n ∷ []) else raised value_error;
  decimal = λ n. ok n;
  equals_literal = λ n raw. ok false;
  has_babel = false;
  get_plural_form = λ locale. none;
  is_finite = λ n. true;
  quantize = λ n precision. ok n;
}

abbrev at_start : ℕ → ResolverState
at_start max_expansion_size = record {
  context = record {
    stack = [];
    seen = [];
    max_depth = 5;
    max_expansion_size = max_expansion_size;
    total_chars = 0;
  };
  expression_guard = record { max_depth = ℤ.pos 5; current_depth = ℤ.pos 0 };
  global_depth = 0;
  errors = [];
}

resolve_message-Kept_example :
    let result =
      resolve_message resolver (resolve_pattern resolver 5) message_a none [] (at_start 100) in
    ((t : Text) × (u : ResolverState) × (result ≡ resolved t u) × Kept (at_start 100) u)
    ⊎ ((e : Exception) × (u : ResolverState) × (result ≡ crashed e u)
        × Kept (at_start 100) u
        × Raises resolver e)
resolve_message-Kept_example = resolve_message-Kept resolver message_a none [] (at_start 100)

-- The message in the message of the message is a cycle, and its name stands in its place.
cyclic_text :
    resolve_message resolver (resolve_pattern resolver 5) message_a none [] (at_start 100)
    ≡ resolved
        (codes "A " ++ 8296 ∷ codes "B " ++ 8296 ∷ codes "{a}" ++ 8297 ∷ 8297 ∷ [])
        (record (at_start 100) {
          context = record (at_start 100).context { total_chars = 14 };
          errors = cyclic_error ∷ [];
        })
unfolding report track over_budget leave_guard guarded popped leave_key fallback_inline fallback
    last_attribute pattern_at format_value variable_value leave_global globally settled inside_key
    resolve_message extended message_value within_budget prefixed text_part isolated error_text
    placeable_part elements resolve_expression resolve_inline resolve_pattern enter exit
    global_enter push pop contains is_depth_exceeded track_expansion lookup member add discard last
    without_last text_eq depth_clamp
cyclic_text = refl

-- What stands for a variable that is missing does not count for the budget: a budget of no characters
-- lets it through.
fallback_over_budget :
    resolve_message resolver
      (resolve_pattern resolver 5)
      (message_of
        (codes "c")
        (placeable_element (inline (variable_reference (named (codes "x")) somewhere)) no_elements))
      none
      []
      (at_start 0)
    ≡ resolved (codes "{$x}") (record (at_start 0) { errors = reference_error ∷ [] })
unfolding report track over_budget leave_guard guarded popped leave_key fallback_inline fallback
    last_attribute pattern_at format_value variable_value leave_global globally settled inside_key
    resolve_message extended message_value within_budget prefixed text_part isolated error_text
    placeable_part elements resolve_expression resolve_inline resolve_pattern enter exit
    global_enter push pop contains is_depth_exceeded track_expansion lookup member add discard last
    without_last text_eq depth_clamp
fallback_over_budget = refl

-- A number whose text Python refuses to make is an exception of the call.
unprintable :
    resolve_message resolver
      (resolve_pattern resolver 5)
      (message_of
        (codes "c")
        (placeable_element (inline (variable_reference (named (codes "x")) somewhere)) no_elements))
      none
      ((codes "x", number 1000 none) ∷ [])
      (at_start 100)
    ≡ crashed value_error (at_start 100)
unfolding printed report track over_budget leave_guard guarded popped leave_key fallback_inline
    fallback last_attribute pattern_at format_value variable_value leave_global globally settled
    inside_key resolve_message extended message_value within_budget prefixed text_part isolated
    error_text placeable_part elements resolve_expression resolve_inline resolve_pattern enter exit
    global_enter push pop contains is_depth_exceeded track_expansion lookup member add discard last
    without_last text_eq depth_clamp
unprintable = refl
