-- ===== src/Resolver/Total.antt =====
-- The walk of a pattern with as many levels as the context has room for.
use ftllex_engine.Base.{
  ℕ, zero, suc, ◌≡◌, refl, Bool, true, false, Option, [], Text, length, Bool-elim, if-cases, arith,
  sym, append-nil, Exception, Exn, ok, raised, some, inl, inr, ◌⊎◌,
}
use ftllex_engine.Syntax.{
  Identifier, InlineExpression, literal, variable_reference, message_reference, term_reference,
  function_reference, placeable, Expression, inline, select_expression, call_arguments, no_call,
  call, Positional, no_arguments, argument, Variants, no_variants, variants, Variant, variant,
  Pattern, no_elements, text_element, placeable_element,
}
use ftllex_engine.Resolution.{track_expansion}
use ftllex_engine.Resolver.{
  Resolver, ResolverState, Resolved, resolved, track, over_budget, Message, crashed,
}
use ftllex_engine.Resolver.Selection.{Arguments, Jump}
use ftllex_engine.Resolver.References.{resolve_message}
use ftllex_engine.Resolver.Walk.{
  within_budget, prefixed, text_part, isolated, error_text, placeable_part, elements,
  resolve_expression, resolve_inline, argument_values, guard_arguments, first_variant,
  resolve_pattern,
}
use ftllex_engine.Resolver.Balance.{
  Kept, Kept-trans, same, Ends, gives, fails, Returns, returns, Returns-Ends, Returns-from, Room,
  Room-Kept, Safe, Sure, Ends-bind, guarded-Ends, crashes, breaks,
}
use ftllex_engine.Resolver.Chosen.{
  Kept-report, as_value-Ends, format_value-Ends, variable_value-Ends, call_with_locale-Ends, Found,
  absent, present, selected-Ends, Raises, Raising,
}
use ftllex_engine.Resolver.Entered.{
  Enters, resolve_message-Returns, message_value-Ends, term_value-Ends,
}

Kept-track : (k : ℕ) (s : ResolverState) → Kept s (track k s)
unfolding track track_expansion
Kept-track k s = record {
  stack = refl;
  seen = refl;
  max_depth = refl;
  max_expansion_size = refl;
  total_chars = omega arith;
  expression_guard = refl;
  global_depth = refl;
  errors = ([], sym (append-nil s.errors));
}

prefixed-Returns :
    {P : Exception → Type 0} (part : Text) {s : ResolverState} {r : Resolved Text}
    → Returns P s r
    → Returns P s (prefixed part r)
unfolding prefixed
prefixed-Returns part (returns k) = returns k
prefixed-Returns part (breaks p k) = breaks p k

module _ {P : Exception → Type 0} (n : ℕ) {loop : ResolverState → Resolved Text}
    (sure : Sure P n loop) where
  within_budget-Returns : (s : ResolverState) → Room n s → Returns P s (within_budget s loop)
  unfolding within_budget
  within_budget-Returns s room =
      Bool-elim (Returns P s) (over_budget s) (λ _. returns (Kept-report _ s)) (λ _. sure s room)

  sure_from :
      {s t : ResolverState} (part : Text)
      → Kept s t
      → Room n s
      → Returns P s (prefixed part (loop t))
  sure_from {s} {t} part k room =
      Returns-from k (prefixed-Returns part (sure t (Room-Kept n k room)))

  text_part-Returns :
      (value : Text) (s : ResolverState) → Room n s → Returns P s (text_part value s loop)
  unfolding text_part
  text_part-Returns value s room =
      let k = Kept-track (length value) s in
      Bool-elim (Returns P s) (over_budget (track (length value) s))
        (λ _. returns (Kept-trans k (Kept-report _ _))) (λ _. sure_from value k room)

  placeable_part-Returns :
      (use_isolating : Bool) (e : Expression) {s : ResolverState} {r : Resolved Text}
      → Room n s
      → Ends P s r
      → Returns P s (placeable_part use_isolating e r loop)
  unfolding placeable_part
  placeable_part-Returns use_isolating e {s} room (gives {a = formatted} {t = t} k) =
      let u = track (length formatted) t in
      let l = Kept-trans k (Kept-track (length formatted) t) in
      Bool-elim (Returns P s) (over_budget u)
        (λ _.
          returns
            (if-cases (Kept s) (over_budget t) (λ _. l) (λ _. Kept-trans l (Kept-report _ u))))
        (λ _. sure_from (isolated use_isolating formatted) l room)
  placeable_part-Returns use_isolating e room (fails {e = error} {t = t} k) =
      sure_from (error_text error e) (Kept-trans k (Kept-report error t)) room
  placeable_part-Returns use_isolating e room (crashes p k) = breaks p k

tested-Found :
    {P : Exception → Type 0} {s : ResolverState} (x : Exn Bool) {a : Resolved Text}
    {o : Option (Resolved Text)}
    → Raising P x
    → Ends P s a
    → Found P s o
    → Found P s (elim x as (λ _. Option (Resolved Text)) [
      | raised e ↦ some (crashed e s)
      | ok true ↦ some a
      | ok false ↦ o
    ])
tested-Found (raised e) p q f = present (crashes (p e refl) same)
tested-Found (ok true) p q f = present q
tested-Found (ok false) p q f = f

module _ {N : Type 0} (r : Resolver N) (n : ℕ) (jump : Jump N)
    (enters : Enters (Raises r) n jump) where
  mutual
    unfolding elements resolve_expression resolve_inline argument_values guard_arguments
        first_variant

    elements-Returns :
        (pattern : Pattern) (args : Arguments N) → Sure (Raises r) n (elements r jump pattern args)
    elements-Returns no_elements args s room = returns same
    elements-Returns (text_element value rest) args s room =
        text_part-Returns n (λ t. elements-Returns rest args t) value s room
    elements-Returns (placeable_element e rest) args s room =
        placeable_part-Returns n (λ t. elements-Returns rest args t) r.use_isolating e room
          (Ends-bind n room (guarded-Ends n (λ t. expression-Ends e args t) s room)
            λ value t room'. format_value-Ends r value t)

    expression-Ends :
        (e : Expression) (args : Arguments N) → Safe (Raises r) n (resolve_expression r jump e args)
    expression-Ends (inline e) args s room = inline-Ends e args s room
    expression-Ends (select_expression selector vs span) args s room = as_value-Ends (
        selected-Ends r n _ (λ test raising t. variant-Found test raising vs args t) room
          (guarded-Ends n (λ t. inline-Ends selector args t) s room))

    inline-Ends :
        (e : InlineExpression) (args : Arguments N)
        → Safe (Raises r) n (resolve_inline r jump e args)
    inline-Ends (literal value) args s room = gives same
    inline-Ends (variable_reference id span) args s room = variable_value-Ends id.name args s
    inline-Ends (message_reference id attribute span) args s room =
        as_value-Ends (message_value-Ends n jump enters r id attribute args s room)
    inline-Ends (term_reference id attribute no_call span) args s room =
        as_value-Ends
          (term_value-Ends n jump enters r id attribute [] false (λ t room'. gives same) s room)
    inline-Ends (term_reference id attribute (call (call_arguments no_arguments named)) span) args s
          room =
        as_value-Ends
          (term_value-Ends n jump enters r id attribute named false (λ t room'. gives same) s room)
    inline-Ends (term_reference id attribute (call (call_arguments (argument e rest) named)) span)
          args s room =
        as_value-Ends (
          term_value-Ends n jump enters r id attribute named true
            (λ t room'.
              Ends-bind n room' (guarded-Ends n (λ u. inline-Ends e args u) t room')
                λ v w. guard_arguments-Ends rest args w)
            s room)
    inline-Ends (function_reference id (call_arguments positional named) span) args s room =
        Ends-bind n room (guarded-Ends n (λ t. argument_values-Ends positional args t) s room)
          λ values t room'. call_with_locale-Ends r id.name values _ t
    inline-Ends (placeable e) args s room = guarded-Ends n (λ t. expression-Ends e args t) s room

    argument_values-Ends :
        (positional : Positional) (args : Arguments N)
        → Safe (Raises r) n (argument_values r jump positional args)
    argument_values-Ends no_arguments args s room = gives same
    argument_values-Ends (argument e rest) args s room =
        Ends-bind n room (inline-Ends e args s room) λ value t room'.
          Ends-bind n room' (argument_values-Ends rest args t room') λ values u room''. gives same

    guard_arguments-Ends :
        (positional : Positional) (args : Arguments N)
        → Safe (Raises r) n (guard_arguments r jump positional args)
    guard_arguments-Ends no_arguments args s room = gives same
    guard_arguments-Ends (argument e rest) args s room =
        Ends-bind n room (guarded-Ends n (λ t. inline-Ends e args t) s room)
          λ v t. guard_arguments-Ends rest args t

    variant-Found :
        (test : Variant → Exn Bool)
        → ((v : Variant) → Raising (Raises r) (test v))
        → (vs : Variants) (args : Arguments N) (s : ResolverState) → Room n s
        → Found (Raises r) s (first_variant r jump test vs args s)
    variant-Found test raising no_variants args s room = absent
    variant-Found test raising (variants (variant key value default) rest) args s room =
        tested-Found (test (variant key value default)) (raising (variant key value default))
          (Returns-Ends (within_budget-Returns n (λ t. elements-Returns value args t) s room))
          (variant-Found test raising rest args s room)

resolve_pattern-Enters :
    {N : Type 0} (r : Resolver N) (n : ℕ) → Enters (Raises r) n (resolve_pattern r n)
unfolding resolve_pattern
resolve_pattern-Enters r zero pattern args s deep shallow = absurd (omega arith)
resolve_pattern-Enters r (suc n) pattern args s deep shallow =
    within_budget-Returns n
      (λ t. elements-Returns r n (resolve_pattern r n) (resolve_pattern-Enters r n) pattern args t)
      s (omega arith)

-- With one level for each reference that the maximum depth of the context allows, `resolve_message`
-- gives a text, or raises what `str`, a conversion or comparison of a number, or a plural rule raised;
-- whatever the message refers to and whatever the functions it calls return or raise, it raises no
-- error of its own, finds the context not corrupted, and the levels are not used up. In both cases the
-- stack of keys and its set, the limits of the context, the depth of expressions and the global depth
-- are behind the call what they were before it, the errors from before stand in front of the new
-- ones, and the count of characters does not go down.
pub resolve_message-Kept :
    {N : Type 0} (r : Resolver N) (message : Message) (attribute : Option Identifier)
    (args : Arguments N) (s : ResolverState)
    → let result =
        resolve_message r (resolve_pattern r s.context.max_depth) message attribute args s in
      ((t : Text) × (u : ResolverState) × (result ≡ resolved t u) × Kept s u)
      ⊎ ((e : Exception) × (u : ResolverState) × (result ≡ crashed e u) × Kept s u × Raises r e)
resolve_message-Kept r message attribute args s =
    let n = s.context.max_depth in
    returned (
      resolve_message-Returns n (resolve_pattern r n) (resolve_pattern-Enters r n) r message
        attribute args s (omega arith))
  where
    returned :
        {x : Resolved Text}
        → Returns (Raises r) s x
        → ((t : Text) × (u : ResolverState) × (x ≡ resolved t u) × Kept s u)
          ⊎ ((e : Exception) × (u : ResolverState) × (x ≡ crashed e u) × Kept s u × Raises r e)
    returned (returns {a = a} {t = u} k) = inl (a, u, refl, k)
    returned (breaks {e = e} {t = u} p k) = inr (e, u, refl, k, p)
