-- ===== src/Grammar/Sound/Steps.antt =====
-- What stands between two calls of the rules keeps the promises.
use ftllex_engine.Base.{
  ℕ, suc, ◌-◌, ◌≤◌, ◌≡◌, sym, subst, inl, inr, Bool, true, false, ◌||◌, List, [], Text, ◌==◌,
  if-cases, Exn-cases, Option-cases, arith, none, some, member, add,
}
use ftllex_engine.Cursor.{Cursor, current, is_eof, at_char, step}
use ftllex_engine.Primitives.{current_is}
use ftllex_engine.Whitespace.{skip_blank_inline}
use ftllex_engine.Syntax.{
  Identifier, Literal, literal, message_reference, InlineExpression, Expression, CallArguments,
  call_arguments, Variants, no_variants, variants, is_valid_selector, default_count,
}
use ftllex_engine.Syntax.Valid.{
  IdentifierIn, Distinct, InlineIn, ExpressionIn, ArgumentsIn, VariantsIn, PatternIn, PlaceableIn,
}
use ftllex_engine.Outcome.{
  ParseContext, enter_nesting, Outcome, found, missing, ◌⟫◌, Ensures, holds, rejected, Ensures-bind,
  Ensures-weaken, levels, levels-enter_nesting,
}
use ftllex_engine.Patterns.{PatternState, flush}
use ftllex_engine.Patterns.Kept.{trim-PatternIn, flush-PatternIn}
use ftllex_engine.Terminals.{
  closing, at_arrow, as_literal, as_argument_name, with_positional, with_named, select_of,
  pattern_of,
}
use ftllex_engine.Terminals.Onward.{
  Onward, Onward-le, step-Onward, step_char-Onward, skip_blank_inline-Onward,
}
use ftllex_engine.Terminals.Names.{Yields}
use ftllex_engine.Terminals.Rules.{closing-Ensures}
use ftllex_engine.Grammar.Sound.{LoopIn, Inlines}

pub argument_name-IdentifierIn :
    (text : Text) (n : ℕ) (a : InlineExpression) (id : Identifier)
    → InlineIn text n a
    → as_argument_name a ≡ some id
    → IdentifierIn text id
unfolding InlineIn
argument_name-IdentifierIn text n (message_reference id attribute span) other (h, _, _) e =
    subst (IdentifierIn text) (ground arith) h
argument_name-IdentifierIn text n (literal l) id h e = absurd (ground arith)
argument_name-IdentifierIn text n _ id h e = absurd (ground arith)

pub select_of-Ensures :
    (text : Text) (n : ℕ) {from : ℕ} {c : Cursor} (selector : InlineExpression) (start : ℕ)
    (vs : Variants) (flag : Bool)
    → Onward text from c
    → start ≤ c.pos
    → InlineIn text n selector
    → is_valid_selector selector ≡ true
    → VariantsIn text n vs
    → Ensures (Yields text c.pos (ExpressionIn text n)) (select_of selector start vs c flag)
unfolding select_of ExpressionIn
select_of-Ensures text n selector start no_variants flag o le s v h = rejected
select_of-Ensures text n {c = c} selector start (variants w rest) flag (same, ahead, inside) le s v
      h =
    if-cases {A = Outcome Expression} (Ensures (Yields text c.pos (ExpressionIn text n)))
      (default_count (variants w rest) == 1)
      (λ one. holds ((same, omega arith, inside), (s, v, h, ground arith, (le, inside))))
      (λ _. rejected)

-- A closing character behind blanks, as the last thing of a rule.
pub closed-Ensures {ℓ} :
    {A : Type ℓ} {text : Text} {from : ℕ} {c : Cursor} (P : A → Type 0) (k : ℕ) (a : A)
    (flag : Bool)
    → Onward text from c
    → P a
    → Ensures (Yields text (suc c.pos) P) (closing k a c flag)
closed-Ensures P k a flag o h =
    Ensures-weaken (closing-Ensures k a flag o) λ b d u (on, e). (on, subst P (sym e) h)

pub at_arrow-Onward :
    {text : Text} {from : ℕ} {c : Cursor}
    → Onward text from c
    → at_arrow c ≡ true
    → Onward text (suc c.pos) (step (step c))
unfolding at_arrow
at_arrow-Onward {c = c} o h =
    let next = step_char-Onward b'-' o (ground arith) in
    let (_, a, _) = next in Onward-le (step-Onward next) a

pub LoopIn-ArgumentsIn :
    (text : Text) (n : ℕ) (a : CallArguments) → LoopIn text n [] a → ArgumentsIn text n a
unfolding InlineIn
LoopIn-ArgumentsIn text n (call_arguments positional named) h = h

pub with_positional-LoopIn :
    (text : Text) (n : ℕ) (seen : List Text) (a : InlineExpression) (rest : CallArguments)
    → InlineIn text n a
    → LoopIn text n seen rest
    → LoopIn text n seen (with_positional a rest)
unfolding InlineIn
with_positional-LoopIn text n seen a (call_arguments positional named) h (p, all, d) =
    ((h, p), all, d)

pub with_named-LoopIn :
    (text : Text) (n : ℕ) (seen : List Text) (id : Identifier) (l : Literal) (rest : CallArguments)
    → IdentifierIn text id
    → member id.name seen ≡ false
    → LoopIn text n (add id.name seen) rest
    → LoopIn text n seen (with_named id l rest)
unfolding Distinct
with_named-LoopIn text n seen id l (call_arguments positional named) h new (p, all, d) =
    (p, (h, all), (new, d))

pub pattern_of-PatternIn :
    (text : Text) (n : ℕ) (s : PatternState)
    → PatternIn text n s.elements
    → PatternIn text n (pattern_of s)
unfolding pattern_of
pattern_of-PatternIn text n s i =
    trim-PatternIn text n ((flush s).elements) (flush-PatternIn text n s i)

-- The character at the cursor belongs to a text element.
pub text_goes_on :
    (ends : Cursor → Bool) (c : Cursor)
    → (is_eof c || ends c) ≡ false
    → at_char c b'\n' ≡ false
    → at_char c b'{' ≡ false
    → (is_eof c || current_is (λ ch. ch == b'{' || ch == b'\n') c || ends c) ≡ false
unfolding at_char current_is
text_goes_on ends c go newline brace = elim (Exn-cases (current c)) [
  | inl (e, r) ↦ ground arith
  | inr (ch, r) ↦ ground arith
]

module _ (text : Text) where
  pub braced-Ensures :
      (k : ParseContext) (c : Cursor) {from : ℕ} {r : Outcome Expression}
      → suc c.pos ≤ from
      → Ensures (Yields text from (PlaceableIn text (levels k))) r
      → Inlines text k c (r ⟫ λ e d u. found (InlineExpression.placeable e) d u)
  unfolding InlineIn
  braced-Ensures k c le h = Ensures-bind h λ e d u (on, i). holds (Onward-le on le, i)

  -- The arguments in parentheses, and what is made of them.
  pub called-Ensures :
      (k : ParseContext) (Q : InlineExpression → Cursor → Bool → Type 0) {from : ℕ}
      {r : Outcome CallArguments} {body : CallArguments → Cursor → Bool → Outcome InlineExpression}
      → Ensures (Yields text from (ArgumentsIn text (levels (enter_nesting k)))) r
      → ((arguments : CallArguments) (g : Cursor) (t : Bool)
          → Onward text (suc from) g
          → ArgumentsIn text (levels k - 1) arguments
          → Ensures Q (body arguments g t))
      → Ensures Q (
          r ⟫ λ arguments e v.
          closing b')' arguments (skip_blank_inline e) v ⟫ λ arguments g t. body arguments g t)
  called-Ensures k Q h made = Ensures-bind h λ arguments e v (on, i).
      let (_, p3, _) = on in
      let blank = skip_blank_inline-Onward on in
      let (_, p4, _) = blank in
      Ensures-bind
        (closed-Ensures (ArgumentsIn text (levels (enter_nesting k))) b')' arguments v blank i)
        λ arguments g t (on2, j).
          made arguments g t (Onward-le on2 (omega arith))
            (subst (λ n. ArgumentsIn text n arguments) (levels-enter_nesting k) j)

  -- The value of a named argument, and the arguments behind it.
  pub value-Ensures :
      (n : ℕ) (seen : List Text) (id : Identifier) (value : InlineExpression) (flag : Bool)
      {from to : ℕ} {r : Outcome CallArguments}
      → IdentifierIn text id
      → member id.name seen ≡ false
      → from ≤ to
      → Ensures (Yields text to (LoopIn text n (add id.name seen))) r
      → Ensures
          (Yields text from (LoopIn text n seen))
          (elim (as_literal value) as (λ _. Outcome CallArguments) [
            | none ↦ missing flag
            | some l ↦ r ⟫ λ rest e v. found (with_named id l rest) e v
          ])
  value-Ensures n seen id value flag {r = r} named new le h =
      elim (Option-cases (as_literal value)) [
        | inl e ↦ rw e rejected
        | inr (l, e) ↦ rw e (
            Ensures-bind h λ rest d v (on, j).
              holds (Onward-le on le, with_named-LoopIn text n seen id l rest named new j))
      ]
