-- ===== src/Resolver/Chosen.antt =====
-- Values, calls and the choice of a variant return or raise, and keep the state.
use ftllex_engine.Base.{
  ℕ, ◌≡◌, refl, Bool, true, false, Option, none, some, List, [], ◌∷◌, Text, lookup, text_key, ap,
  ◌⊎◌, inl, inr, Bool-elim, Option-elim, Option-cases, length, arith, Exception, Exn, ok, raised,
  ◌>>=◌, codes,
}
use ftllex_engine.Syntax.{Variant, variant, identifier_key, number_key}
use ftllex_engine.Resolver.{
  ResolutionError, FluentValue, string, boolean, number, nothing, float, sequence, other, Called,
  returned, refused, failed, Resolver, ResolverState, Resolved, report,
}
use ftllex_engine.Resolver.Selection.{
  Arguments, Find, printed, format_value, variable_value, call_function_safe, fits_arity,
  call_with_locale, decimal_of, is_exact, is_plural, has_default, is_any, fallback_variant,
  plural_form, with_precision, select_plural_category, variant_of, plural_variant, exact_variant,
  selected,
}
use ftllex_engine.Resolver.Walk.{as_value}
use ftllex_engine.Resolver.Balance.{
  Kept, same, Ends, gives, fails, crashes, Ends-from, Room, Room-Kept, Safe, Ends-bind,
}

-- Where an exception can come from that is no `FrozenFluentError`: from what Python and Babel do with
-- a number or a value.
pub data Raises {N : Type 0} (r : Resolver N) : Exception → Type 0 where
  printing : {e : Exception} (n : N) → r.str n ≡ raised e → Raises r e
  converting : {e : Exception} (n : N) → r.decimal n ≡ raised e → Raises r e
  comparing : {e : Exception} (n : N) (raw : Text) → r.equals_literal n raw ≡ raised e → Raises r e
  quantizing : {e : Exception} (n : N) (p : ℕ) → r.quantize n p ≡ raised e → Raises r e
  categorizing :
      {e : Exception} (locale : Text) (form : N → Exn Text) (n : N)
      → r.get_plural_form locale ≡ some form
      → form n ≡ raised e
      → Raises r e

pub Kept-report : (e : ResolutionError) (s : ResolverState) → Kept s (report e s)
unfolding report
Kept-report e s = record {
  stack = refl;
  seen = refl;
  max_depth = refl;
  max_expansion_size = refl;
  total_chars = omega arith;
  expression_guard = refl;
  global_depth = refl;
  errors = (e ∷ [], refl);
}

-- What raises, raises such an exception.
abbrev pub Raising {ℓ} : {A : Type ℓ} → (Exception → Type 0) → Exn A → Type ℓ
Raising P x = (e : Exception) → x ≡ raised e → P e

ok-Raising {ℓ} : {A : Type ℓ} (P : Exception → Type 0) (a : A) → Raising P (ok a)
ok-Raising P a e h = absurd cc

bind-Raising {ℓ κ} :
    {A : Type ℓ} {B : Type κ} (P : Exception → Type 0) (x : Exn A) {f : A → Exn B}
    → Raising P x
    → ((a : A) → Raising P (f a))
    → Raising P (x >>= f)
bind-Raising P (ok a) p q e h = q a e h
bind-Raising {A = A} P (raised d) p q e h =
    p e (ap (λ x. elim x as (λ _. Exn A) [ ok b ↦ raised d | raised y ↦ raised y ]) h)

Called-elim :
    {N : Type 0} (Q : Resolved (FluentValue N) → Type 0) (c : Called N)
    {v : FluentValue N → Resolved (FluentValue N)} {e : ResolutionError → Resolved (FluentValue N)}
    {f : Resolved (FluentValue N)}
    → ((x : FluentValue N) → Q (v x))
    → ((x : ResolutionError) → Q (e x))
    → Q f
    → Q (elim c [ returned x ↦ v x | refused x ↦ e x | failed ↦ f ])
Called-elim Q (returned x) v e f = v x
Called-elim Q (refused x) v e f = e x
Called-elim Q failed v e f = f

module _ {P : Exception → Type 0} where
  pub as_value-Ends :
      {N : Type 0} {s : ResolverState} {r : Resolved Text}
      → Ends P s r
      → Ends P s (as_value {N = N} r)
  as_value-Ends (gives k) = gives k
  as_value-Ends (fails k) = fails k
  as_value-Ends (crashes p k) = crashes p k

  printed-Ends : (t : Exn Text) (s : ResolverState) → Raising P t → Ends P s (printed t s)
  unfolding printed
  printed-Ends (ok t) s h = gives same
  printed-Ends (raised e) s h = crashes (h e refl) same

  pub variable_value-Ends :
      {N : Type 0} (name : Text) (args : Arguments N) (s : ResolverState)
      → Ends P s (variable_value name args s)
  unfolding variable_value
  variable_value-Ends name args s =
      Option-elim (Ends P s) (lookup name args) (fails same) (λ value. gives same)

  call_function_safe-Ends :
      {N : Type 0} (r : Resolver N) (name : Text) (positional : List (FluentValue N))
      (named : Arguments N) (s : ResolverState)
      → Ends P s (call_function_safe r name positional named s)
  unfolding call_function_safe
  call_function_safe-Ends r name positional named s =
      Called-elim (Ends P s) (r.call_function name positional named) (λ value. gives same)
        (λ e. fails same) (gives (Kept-report _ s))

  pub call_with_locale-Ends :
      {N : Type 0} (r : Resolver N) (name : Text) (positional : List (FluentValue N))
      (named : Arguments N) (s : ResolverState)
      → Ends P s (call_with_locale r name positional named s)
  unfolding call_with_locale
  call_with_locale-Ends r name positional named s =
      Bool-elim (Ends P s) (r.should_inject_locale name)
        (λ inject.
          Bool-elim (Ends P s)
            (fits_arity (r.get_expected_positional_args name) (length positional))
            (λ fits. call_function_safe-Ends r name _ named s) (λ no. fails same))
        (λ no. call_function_safe-Ends r name positional named s)

-- Whatever the search finds was resolved from the state of the search.
pub data Found (P : Exception → Type 0) (s : ResolverState) : Option (Resolved Text) → Type 0 where
  absent : Found P s none
  present : {r : Resolved Text} → Ends P s r → Found P s (some r)

abbrev pub Finds : (Exception → Type 0) → ℕ → Find → Type 0
Finds P n find =
    (test : Variant → Exn Bool)
    → ((v : Variant) → Raising P (test v))
    → (s : ResolverState) → Room n s
    → Found P s (find test s)

module _ {N : Type 0} (r : Resolver N) where
  pub format_value-Ends :
      (value : FluentValue N) (s : ResolverState) → Ends (Raises r) s (format_value r value s)
  unfolding format_value
  format_value-Ends (string t) s = gives same
  format_value-Ends (boolean b) s = gives same
  format_value-Ends (number n precision) s = printed-Ends (r.str n) s λ e h. printing n h
  format_value-Ends nothing s = gives same
  format_value-Ends float s = fails same
  format_value-Ends (sequence kind) s = gives same
  format_value-Ends (other n) s = printed-Ends (r.str n) s λ e h. printing n h

  decimal_of-Raising : (value : FluentValue N) → Raising (Raises r) (decimal_of r value)
  unfolding decimal_of
  decimal_of-Raising (number n precision) =
      bind-Raising _ (r.decimal n) (λ e h. converting n h) (λ d. ok-Raising _ (some d))
  decimal_of-Raising (string t) = ok-Raising _ none
  decimal_of-Raising (boolean b) = ok-Raising _ none
  decimal_of-Raising nothing = ok-Raising _ none
  decimal_of-Raising float = ok-Raising _ none
  decimal_of-Raising (sequence kind) = ok-Raising _ none
  decimal_of-Raising (other n) = ok-Raising _ none

  is_exact-Raising :
      (decimal : Option N) (text : Text) (v : Variant)
      → Raising (Raises r) (is_exact r decimal text v)
  unfolding is_exact
  is_exact-Raising decimal text (variant (identifier_key id) pattern default) = ok-Raising _ _
  is_exact-Raising (some n) text (variant (number_key raw) pattern default) =
      λ e h. comparing n raw h
  is_exact-Raising none text (variant (number_key raw) pattern default) = ok-Raising _ false

  with_precision-Raising :
      (n : N) (precision : Option ℕ) → Raising (Raises r) (with_precision r n precision)
  unfolding with_precision
  with_precision-Raising n none = ok-Raising _ n
  with_precision-Raising n (some p) = λ e h. quantizing n p h

  plural_form-cases :
      (plural_form r ≡ none)
      ⊎ ((locale : Text) × (form : N → Exn Text) × (r.get_plural_form locale ≡ some form)
          × (plural_form r ≡ some form))
  unfolding plural_form
  plural_form-cases = elim (Option-cases (r.get_plural_form r.locale)) [
    | inr (form, h) ↦ inr (r.locale, form, h, rw (h, plural_form) refl)
    | inl h ↦ elim (Option-cases (r.get_plural_form (codes "root"))) [
      | inr (form, h') ↦ inr (codes "root", form, h', rw (h, plural_form) h')
      | inl h' ↦ inl (rw (h, plural_form) h')
    ]
  ]

  category-Raising :
      (n : N) (precision : Option ℕ) → Raising (Raises r) (select_plural_category r n precision)
  unfolding select_plural_category
  category-Raising n precision =
      Bool-elim (Raising (Raises r)) r.has_babel
        (λ _. elim plural_form-cases [
          | inl h ↦ rw h (ok-Raising _ _)
          | inr (locale, form, h, e) ↦ rw e (
              Bool-elim (Raising (Raises r)) (r.is_finite n)
                (λ _.
                  bind-Raising _ (with_precision r n precision >>= form)
                    (bind-Raising _ (with_precision r n precision)
                      (with_precision-Raising n precision)
                      (λ m x g. categorizing locale form m h g))
                    (λ category. ok-Raising _ (some category)))
                (λ _. ok-Raising _ _))
        ])
        (λ _. ok-Raising _ none)

Found-elim :
    {P : Exception → Type 0} {s : ResolverState} {o : Option (Resolved Text)} {x : Resolved Text}
    → Found P s o
    → Ends P s x
    → Ends P s (elim o as (λ _. Resolved Text) [ some result ↦ result | none ↦ x ])
Found-elim absent x = x
Found-elim (present e) x = e

is_plural-Raising :
    (P : Exception → Type 0) (category : Text) (v : Variant) → Raising P (is_plural category v)
unfolding is_plural
is_plural-Raising P category (variant (identifier_key id) pattern default) = ok-Raising _ _
is_plural-Raising P category (variant (number_key raw) pattern default) = ok-Raising _ false

module _ {N : Type 0} (r : Resolver N) (n : ℕ) (find : Find) (finds : Finds (Raises r) n find) where
  fallback_variant-Ends : Safe (Raises r) n (fallback_variant find)
  unfolding fallback_variant has_default is_any
  fallback_variant-Ends s room =
      Found-elim (finds has_default (λ v. ok-Raising _ _) s room)
        (Found-elim (finds is_any (λ v. ok-Raising _ true) s room) (fails same))

  reported-Ends :
      (e : ResolutionError) → Safe (Raises r) n (λ s. fallback_variant find (report e s))
  reported-Ends e s room =
      Ends-from (Kept-report e s)
        (fallback_variant-Ends (report e s) (Room-Kept n (Kept-report e s) room))

  variant_of-Ends :
      (category : Exn (Option Text))
      → Raising (Raises r) category
      → Safe (Raises r) n (variant_of category find)
  unfolding variant_of
  variant_of-Ends (raised e) h s room = crashes (h e refl) same
  variant_of-Ends (ok none) h s room = reported-Ends _ s room
  variant_of-Ends (ok (some category)) h s room =
      Found-elim (finds (is_plural category) (is_plural-Raising (Raises r) category) s room)
        (fallback_variant-Ends s room)

  plural_variant-Ends : (value : FluentValue N) → Safe (Raises r) n (plural_variant r value find)
  unfolding plural_variant
  plural_variant-Ends (number k precision) s room =
      variant_of-Ends (select_plural_category r k precision) (category-Raising r k precision) s room
  plural_variant-Ends (string t) s room = fallback_variant-Ends s room
  plural_variant-Ends (boolean b) s room = fallback_variant-Ends s room
  plural_variant-Ends nothing s room = fallback_variant-Ends s room
  plural_variant-Ends float s room = fallback_variant-Ends s room
  plural_variant-Ends (sequence kind) s room = fallback_variant-Ends s room
  plural_variant-Ends (other k) s room = fallback_variant-Ends s room

  exact_variant-Ends :
      (value : FluentValue N) (decimal : Exn (Option N)) (text : Text)
      → Raising (Raises r) decimal
      → Safe (Raises r) n (exact_variant r value decimal text find)
  unfolding exact_variant
  exact_variant-Ends value (raised e) text h s room = crashes (h e refl) same
  exact_variant-Ends value (ok decimal) text h s room =
      Found-elim (finds (is_exact r decimal text) (is_exact-Raising r decimal text) s room)
        (plural_variant-Ends value s room)

  pub selected-Ends :
      {s : ResolverState} {result : Resolved (FluentValue N)}
      → Room n s
      → Ends (Raises r) s result
      → Ends (Raises r) s (selected r find result)
  unfolding selected
  selected-Ends room (gives {a = value} {t = t} k) = Ends-from k (
      Ends-bind n (Room-Kept n k room) (format_value-Ends r value t)
        λ text. exact_variant-Ends value (decimal_of r value) text (decimal_of-Raising r value))
  selected-Ends room (fails {e = e} {t = t} k) =
      Ends-from k (reported-Ends e t (Room-Kept n k room))
  selected-Ends room (crashes p k) = crashes p k
