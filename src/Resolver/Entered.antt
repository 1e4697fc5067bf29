-- ===== src/Resolver/Entered.antt =====
-- Messages and terms: the pattern is entered with the key on the stack, and the key is popped again.
use ftllex_engine.Base.{
  some, ℕ, suc, ◌+◌, ◌≤◌, ◌≡◌, refl, ap, ◌∙◌, Bool, true, false, Option, List, [], ◌∷◌, ◌++◌, Text,
  ok, raised, ℤ, length, Bool-elim, Bool-cases, member, ◌<◌, Option-elim, inl, inr, ◌⊎◌,
  depth_limit, arith, Exception, sym, append-nil,
}
use ftllex_engine.Syntax.{Identifier, NamedArgument, Pattern}
use ftllex_engine.Depth.{global_enter, le_int, depth_clamp}
use ftllex_engine.Resolution.{push, contains, is_depth_exceeded}
use ftllex_engine.Resolver.{
  Resolver, ResolverState, Resolved, with_attribute, pattern_at, Message, ResolutionError,
}
use ftllex_engine.Resolver.Selection.{Arguments, Jump, named_values}
use ftllex_engine.Resolver.References.{
  leave_global, globally, settled, inside_key, resolve_message, extended, message_value, guard_each,
  warned, term_value,
}
use ftllex_engine.Resolver.Balance.{
  Kept, Kept-trans, same, Ends, gives, fails, Returns, returns, Returns-Ends, Ends-from, Room,
  Room-Kept, Safe, Ends-bind, Ends-then, guarded-Ends, inside_key-Returns, crashes, breaks,
}
use ftllex_engine.Resolver.Chosen.{Kept-report}

length_snoc : (xs : List Text) (x : Text) → length (xs ++ x ∷ []) ≡ suc (length xs)
length_snoc [] x = refl
length_snoc (y ∷ xs) x = ap suc (length_snoc xs x)

-- Entering a pattern with one more key on the stack returns, as long as the depth is not exceeded.
abbrev pub Enters : {N : Type 0} → (Exception → Type 0) → ℕ → Jump N → Type 0
Enters {N} P n jump =
    (pattern : Pattern) (args : Arguments N) (s : ResolverState)
    → s.context.max_depth < n + length s.context.stack
    → length s.context.stack ≤ s.context.max_depth
    → Returns P s (jump pattern args s)

left_global :
    (s t : ResolverState) (d : ℕ)
    → Kept (record s { global_depth = d }) t
    → Kept s (record t { global_depth = s.global_depth })
left_global s t d k = record {
  stack = k.stack;
  seen = k.seen;
  max_depth = k.max_depth;
  max_expansion_size = k.max_expansion_size;
  total_chars = k.total_chars;
  expression_guard = k.expression_guard;
  global_depth = refl;
  errors = k.errors;
}

extended_errors :
    (s t : ResolverState) (new : List ResolutionError)
    → Kept (record s { errors = [] }) t
    → Kept s (record t { errors = s.errors ++ new })
extended_errors s t new k = record {
  stack = k.stack;
  seen = k.seen;
  max_depth = k.max_depth;
  max_expansion_size = k.max_expansion_size;
  total_chars = k.total_chars;
  expression_guard = k.expression_guard;
  global_depth = k.global_depth;
  errors = (new, refl);
}

nested_errors :
    (s t : ResolverState)
    → Kept (record s { errors = [] }) t
    → Kept s (record t { errors = s.errors })
nested_errors s t k = record {
  stack = k.stack;
  seen = k.seen;
  max_depth = k.max_depth;
  max_expansion_size = k.max_expansion_size;
  total_chars = k.total_chars;
  expression_guard = k.expression_guard;
  global_depth = k.global_depth;
  errors = ([], sym (append-nil s.errors));
}

settled-Returns :
    {P : Exception → Type 0} (key : Text) {s : ResolverState} {r : Resolved Text}
    → Ends P s r
    → Returns P s (settled key r)
unfolding settled
settled-Returns key (gives k) = returns k
settled-Returns key (crashes p k) = breaks p k
settled-Returns key (fails {e} {t} k) = returns (Kept-trans k (Kept-report e t))

leave_global-Returns :
    {P : Exception → Type 0} (s : ResolverState) (d : ℕ) {r : Resolved Text}
    → Returns P (record s { global_depth = d }) r
    → Returns P s (leave_global s.global_depth r)
unfolding leave_global
leave_global-Returns s d (returns {t = t} k) = returns (left_global s t d k)
leave_global-Returns s d (breaks {t = t} p k) = breaks p (left_global s t d k)

enter-cases :
    (m : ℤ) (d : ℕ) → (global_enter m d ≡ raised depth_limit) ⊎ (global_enter m d ≡ ok (d + 1, d))
unfolding global_enter
enter-cases m d = elim (Bool-cases (le_int m (ℤ.pos d))) [
  | inl full ↦ inl (rw full refl)
  | inr free ↦ inr (rw free refl)
]

globally-Ends :
    {P : Exception → Type 0} (limit : ℕ) (body : ResolverState → Resolved Text) (s : ResolverState)
    → Returns P
        (record s { global_depth = s.global_depth + 1 })
        (body (record s { global_depth = s.global_depth + 1 }))
    → Ends P s (globally limit body s)
unfolding globally
globally-Ends limit body s r =
    elim (enter-cases (depth_clamp limit (ℤ.pos s.context.max_depth) 50) s.global_depth) [
      | inl h ↦ rw (h, globally) (fails same)
      | inr h ↦ rw (h, globally) (Returns-Ends (leave_global-Returns s (s.global_depth + 1) r))
    ]

extended-Returns :
    {P : Exception → Type 0} (s : ResolverState) {r : Resolved Text}
    → Returns P (record s { errors = [] }) r
    → Returns P s (extended s.errors r)
unfolding extended
extended-Returns s (returns {t = t} k) = returns (extended_errors s t t.errors k)
extended-Returns s (breaks {t = t} p k) = breaks p (nested_errors s t k)

guard_each-Ends :
    {P : Exception → Type 0} (n : ℕ) (named : List NamedArgument) → Safe P n (guard_each named)
unfolding guard_each
guard_each-Ends n [] s room = gives same
guard_each-Ends n (a ∷ named) s room =
    Ends-bind n room (guarded-Ends n (λ t room'. gives same) s room)
      λ u t room'. guard_each-Ends n named t room'

Kept-warned : (positional : Bool) (s : ResolverState) → Kept s (warned positional s)
unfolding warned
Kept-warned true s = Kept-report _ s
Kept-warned false s = same

module _ {P : Exception → Type 0} {N : Type 0} (n : ℕ) (jump : Jump N)
    (enters : Enters P n jump) where
  inside-Returns :
      (key : Text) (pattern : Pattern) (args : Arguments N) (s : ResolverState)
      → Room n s
      → contains key s.context ≡ false
      → is_depth_exceeded s.context ≡ false
      → Returns P s (inside_key key (jump pattern args) s)
  unfolding is_depth_exceeded push
  inside-Returns key pattern args s room new shallow =
      let longer = length_snoc s.context.stack key in
      let below : length s.context.stack < s.context.max_depth = ground arith in
      inside_key-Returns key (jump pattern args) s new (
        enters pattern args (record s { context = push key s.context }) (omega arith) (omega arith))

  pub resolve_message-Returns :
      (r : Resolver N) (message : Message) (attribute : Option Identifier) (args : Arguments N)
      (s : ResolverState)
      → Room n s
      → Returns P s (resolve_message r jump message attribute args s)
  unfolding resolve_message
  resolve_message-Returns r message attribute args s room =
      let key = with_attribute message.id.name attribute in
      Option-elim (Returns P s) (pattern_at message.value message.attributes attribute)
        (returns (Kept-report _ s))
        λ pattern.
          Bool-elim (Returns P s) (contains key s.context) (λ _. returns (Kept-report _ s))
            λ new.
              Bool-elim (Returns P s) (is_depth_exceeded s.context) (λ _. returns (Kept-report _ s))
                λ shallow. settled-Returns key (
                  globally-Ends r.recursion_limit (inside_key key (jump pattern args)) s (
                    inside-Returns key pattern args (record s { global_depth = s.global_depth + 1 })
                      room new shallow))

  pub message_value-Ends :
      (r : Resolver N) (id : Identifier) (attribute : Option Identifier) (args : Arguments N)
      → Safe P n (message_value r jump id attribute args)
  unfolding message_value
  message_value-Ends r id attribute args s room =
      Option-elim (Ends P s) (r.messages id.name) (fails same) λ message. Returns-Ends (
        extended-Returns s
          (resolve_message-Returns r message attribute args (record s { errors = [] }) room))

  entered-Ends :
      (key : Text) (pattern : Pattern) (args : Arguments N) (positional : Bool) {s : ResolverState}
      (t : ResolverState)
      → Kept s t
      → Room n s
      → contains key s.context ≡ false
      → is_depth_exceeded s.context ≡ false
      → Ends P t (inside_key key (jump pattern args) (warned positional t))
  unfolding contains is_depth_exceeded
  entered-Ends key pattern args positional t k room new shallow =
      let w = Kept-trans k (Kept-warned positional t) in
      Ends-from (Kept-warned positional t) (
        Returns-Ends (
          inside-Returns key pattern args (warned positional t) (Room-Kept n w room)
            (ap (member key) w.seen ∙ new) (rw (w.stack, w.max_depth) shallow)))

  pub term_value-Ends :
      (r : Resolver N) (id : Identifier) (attribute : Option Identifier)
      (named : List NamedArgument) (positional : Bool)
      {evaluate : ResolverState → Resolved (Unit {0})}
      → Safe P n evaluate
      → Safe P n (term_value r jump id attribute named positional evaluate)
  unfolding term_value
  term_value-Ends r id attribute named positional safe s room =
      let key = b'-' ∷ with_attribute id.name attribute in
      Option-elim (Ends P s) (r.terms id.name) (fails same) λ term.
        Option-elim (Ends P s) (pattern_at (some term.value) term.attributes attribute) (fails same)
          λ pattern.
            Bool-elim (Ends P s) (contains key s.context) (λ _. gives (Kept-report _ s))
              λ new.
                Bool-elim (Ends P s) (is_depth_exceeded s.context) (λ _. gives (Kept-report _ s))
                  λ shallow. Ends-then (guard_each-Ends n named s room) λ u t k.
                    Ends-then (safe t (Room-Kept n k room)) λ v w l.
                      entered-Ends key pattern (named_values r [] named) positional w
                        (Kept-trans k l) room new shallow
