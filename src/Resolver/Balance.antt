-- ===== src/Resolver/Balance.antt =====
-- What a part of a resolution may change: the count of characters and the list of errors.
use ftllex_engine.Base.{
  ℕ, ◌+◌, ◌≤◌, ◌≡◌, refl, ap, sym, subst, ◌∙◌, inl, inr, false, Text, ok, member, discard, last,
  without_last, length, arith, List, [], ◌++◌, append-nil, append_assoc, Exception,
}
use ftllex_engine.Depth.{exit}
use ftllex_engine.Depth.Balance.{within, exit-within, enter-cases}
use ftllex_engine.Resolution.{ResolutionContext, push, pop, contains}
use ftllex_engine.Resolution.Stack.{
  pop-some, last-append, without_last-append, member-add, discard-add_new, text_eq_refl,
}
use ftllex_engine.Resolver.{
  ResolutionError, ResolverState, Resolved, resolved, thrown, ◌⟫◌, leave_guard, guarded, popped,
  leave_key, crashed,
}
use ftllex_engine.Resolver.References.{inside_key}

pub record Kept (s t : ResolverState) : Type 0 where
  pub stack : t.context.stack ≡ s.context.stack
  pub seen : t.context.seen ≡ s.context.seen
  pub max_depth : t.context.max_depth ≡ s.context.max_depth
  pub max_expansion_size : t.context.max_expansion_size ≡ s.context.max_expansion_size
  pub total_chars : s.context.total_chars ≤ t.context.total_chars
  pub expression_guard : t.expression_guard ≡ s.expression_guard
  pub global_depth : t.global_depth ≡ s.global_depth
  pub errors : (new : List ResolutionError) × (t.errors ≡ s.errors ++ new)

pub same : {s : ResolverState} → Kept s s
same {s} = record {
  stack = refl;
  seen = refl;
  max_depth = refl;
  max_expansion_size = refl;
  total_chars = omega arith;
  expression_guard = refl;
  global_depth = refl;
  errors = ([], sym (append-nil s.errors));
}

pub Kept-trans : {s t u : ResolverState} → Kept s t → Kept t u → Kept s u
Kept-trans {s} k l = record {
  stack = l.stack ∙ k.stack;
  seen = l.seen ∙ k.seen;
  max_depth = l.max_depth ∙ k.max_depth;
  max_expansion_size = l.max_expansion_size ∙ k.max_expansion_size;
  total_chars = let a = k.total_chars in let b = l.total_chars in omega arith;
  expression_guard = l.expression_guard ∙ k.expression_guard;
  global_depth = l.global_depth ∙ k.global_depth;
  errors = (
    k.errors.0 ++ l.errors.0,
    l.errors.1
        ∙ ap (λ xs. xs ++ l.errors.0) k.errors.1
        ∙ append_assoc s.errors k.errors.0 l.errors.0,
  );
}

-- The part returned or raised, and kept what it may not change; `P` holds of an exception that is no
-- `FrozenFluentError`.
pub data Ends {ℓ} {A : Type ℓ} (P : Exception → Type 0) (s : ResolverState)
    : Resolved A → Type ℓ where
  gives : {a : A} {t : ResolverState} → Kept s t → Ends P s (resolved a t)
  fails : {e : ResolutionError} {t : ResolverState} → Kept s t → Ends P s (thrown e t)
  crashes : {e : Exception} {t : ResolverState} → P e → Kept s t → Ends P s (crashed e t)

-- The part returned, or such an exception was raised.
pub data Returns {ℓ} {A : Type ℓ} (P : Exception → Type 0) (s : ResolverState)
    : Resolved A → Type ℓ where
  returns : {a : A} {t : ResolverState} → Kept s t → Returns P s (resolved a t)
  breaks : {e : Exception} {t : ResolverState} → P e → Kept s t → Returns P s (crashed e t)

-- The context has room for the levels that are left.
abbrev pub Room : ℕ → ResolverState → Type 0
Room n s = s.context.max_depth ≤ n + length s.context.stack

pub Room-Kept : (n : ℕ) {s t : ResolverState} → Kept s t → Room n s → Room n t
Room-Kept n {s} {t} k room =
    let same_length = ap length k.stack in let same_depth = k.max_depth in omega arith

left_guard :
    (s t : ResolverState)
    → Kept (record s { expression_guard = within s.expression_guard }) t
    → Kept s (record t { expression_guard = exit t.expression_guard })
left_guard s t k = record {
  stack = k.stack;
  seen = k.seen;
  max_depth = k.max_depth;
  max_expansion_size = k.max_expansion_size;
  total_chars = k.total_chars;
  expression_guard = ap exit k.expression_guard ∙ exit-within s.expression_guard;
  global_depth = k.global_depth;
  errors = k.errors;
}

abbrev pub Safe {ℓ} :
    {A : Type ℓ} → (Exception → Type 0) → ℕ → (ResolverState → Resolved A) → Type ℓ
Safe P n body = (s : ResolverState) → Room n s → Ends P s (body s)

abbrev pub Sure {ℓ} :
    {A : Type ℓ} → (Exception → Type 0) → ℕ → (ResolverState → Resolved A) → Type ℓ
Sure P n body = (s : ResolverState) → Room n s → Returns P s (body s)

popped_eq {ℓ} :
    {A : Type ℓ} (result : ResolverState → Resolved A) (s : ResolverState) (key : Text)
    (c : ResolutionContext)
    → pop s.context ≡ (ok key, c)
    → popped result s ≡ result (record s { context = c })
unfolding popped
popped_eq result s key c h = rw (h, popped) (ap (λ p. result (record s { context = p.1 })) h)

-- Without the key that was pushed the stack and the set are as before.
abbrev without_key : ResolutionContext → Text → ResolutionContext
without_key c key = record c { stack = without_last c.stack; seen = discard key c.seen }

left_key :
    (s t : ResolverState) (key : Text)
    → contains key s.context ≡ false
    → Kept (record s { context = push key s.context }) t
    → Kept s (record t { context = without_key t.context key })
unfolding contains push
left_key s t key new k = record {
  stack = ap without_last k.stack ∙ without_last-append s.context.stack key;
  seen = ap (discard key) k.seen ∙ discard-add_new key s.context.seen new;
  max_depth = k.max_depth;
  max_expansion_size = k.max_expansion_size;
  total_chars = k.total_chars;
  expression_guard = k.expression_guard;
  global_depth = k.global_depth;
  errors = k.errors;
}

pop-pushed :
    (s t : ResolverState) (key : Text)
    → Kept (record s { context = push key s.context }) t
    → pop t.context ≡ (ok key, without_key t.context key)
unfolding push
pop-pushed s t key k =
    pop-some t.context key (ap last k.stack ∙ last-append s.context.stack key)
      (ap (member key) k.seen ∙ member-add key key s.context.seen ∙ rw (text_eq_refl key) refl)

module _ {P : Exception → Type 0} where
  pub Returns-Ends {ℓ} :
      {A : Type ℓ} {s : ResolverState} {r : Resolved A} → Returns P s r → Ends P s r
  Returns-Ends (returns k) = gives k
  Returns-Ends (breaks p k) = crashes p k

  pub Ends-from {ℓ} :
      {A : Type ℓ} {s t : ResolverState} {r : Resolved A} → Kept s t → Ends P t r → Ends P s r
  Ends-from k (gives l) = gives (Kept-trans k l)
  Ends-from k (fails l) = fails (Kept-trans k l)
  Ends-from k (crashes p l) = crashes p (Kept-trans k l)

  pub Returns-from {ℓ} :
      {A : Type ℓ} {s t : ResolverState} {r : Resolved A} → Kept s t → Returns P t r → Returns P s r
  Returns-from k (returns l) = returns (Kept-trans k l)
  Returns-from k (breaks p l) = breaks p (Kept-trans k l)

  pub Ends-then {ℓ κ} :
      {A : Type ℓ} {B : Type κ} {s : ResolverState} {r : Resolved A}
      {f : A → ResolverState → Resolved B}
      → Ends P s r
      → ((a : A) (t : ResolverState) → Kept s t → Ends P t (f a t))
      → Ends P s (r ⟫ f)
  Ends-then (gives {a} {t} k) f = Ends-from k (f a t k)
  Ends-then (fails k) f = fails k
  Ends-then (crashes p k) f = crashes p k

  pub Ends-bind {ℓ κ} :
      {A : Type ℓ} {B : Type κ} (n : ℕ) {s : ResolverState} {r : Resolved A}
      {f : A → ResolverState → Resolved B}
      → Room n s
      → Ends P s r
      → ((a : A) → Safe P n (f a))
      → Ends P s (r ⟫ f)
  Ends-bind n room e f = Ends-then e λ a t k. f a t (Room-Kept n k room)

  leave_guard-Ends {ℓ} :
      {A : Type ℓ} (s : ResolverState) {r : Resolved A}
      → Ends P (record s { expression_guard = within s.expression_guard }) r
      → Ends P s (leave_guard r)
  unfolding leave_guard
  leave_guard-Ends s (gives {t = t} k) = gives (left_guard s t k)
  leave_guard-Ends s (fails {t = t} k) = fails (left_guard s t k)
  leave_guard-Ends s (crashes {t = t} p k) = crashes p (left_guard s t k)

  pub guarded-Ends {ℓ} :
      {A : Type ℓ} (n : ℕ) {body : ResolverState → Resolved A}
      → Safe P n body
      → Safe P n (λ s. guarded s body)
  unfolding guarded
  guarded-Ends n safe s room = elim (enter-cases s.expression_guard) [
    | inl (full, h) ↦ rw (h, guarded) (fails same)
    | inr (free, h) ↦
        rw (h, guarded)
          (leave_guard-Ends s
            (safe (record s { expression_guard = within s.expression_guard }) room))
  ]

  -- The key that was pushed is popped again.
  leave_key-Returns :
      (s : ResolverState) (key : Text)
      → contains key s.context ≡ false
      → {r : Resolved Text} → Returns P (record s { context = push key s.context }) r
      → Returns P s (leave_key r)
  unfolding leave_key
  leave_key-Returns s key new (returns {a = a} {t = t} k) =
      subst (Returns P s) (sym (popped_eq (resolved a) t key _ (pop-pushed s t key k)))
        (returns (left_key s t key new k))
  leave_key-Returns s key new (breaks {e = e} {t = t} p k) =
      subst (Returns P s) (sym (popped_eq (crashed e) t key _ (pop-pushed s t key k)))
        (breaks p (left_key s t key new k))

  pub inside_key-Returns :
      (key : Text) (body : ResolverState → Resolved Text) (s : ResolverState)
      → contains key s.context ≡ false
      → Returns P
          (record s { context = push key s.context })
          (body (record s { context = push key s.context }))
      → Returns P s (inside_key key body s)
  unfolding inside_key
  inside_key-Returns key body s new r = leave_key-Returns s key new r
