-- ===== src/Grammar/Sound/Placeables.antt =====
-- Placeables and the choice of an inline expression by its first character, one unit of fuel up.
use ftllex_engine.Base.{
  ℕ, suc, ◌≡◌, subst, inl, inr, Bool, false, ◌&&◌, ◌||◌, Text, ◌==◌, Bool-elim, Exn-cases, arith,
}
use ftllex_engine.Cursor.{Cursor, current, step}
use ftllex_engine.Identifier.{is_identifier_start}
use ftllex_engine.Primitives.{current_is, is_digit}
use ftllex_engine.Whitespace.{skip_blank}
use ftllex_engine.Syntax.{Expression, is_valid_selector}
use ftllex_engine.Syntax.Valid.{Distinct, InlineIn, ExpressionIn, PlaceableIn}
use ftllex_engine.Outcome.{
  ParseContext, is_depth_exceeded, enter_nesting, Ensures, rejected, Ensures-bind, Ensures-weaken,
  levels, levels-enter_nesting, levels_pos,
}
use ftllex_engine.Terminals.{at_arrow}
use ftllex_engine.Terminals.Onward.{
  Onward, Onward-le, next-Onward, current-inside, skip_blank-Onward,
}
use ftllex_engine.Terminals.Names.{Yields}
use ftllex_engine.Terminals.Rules.{
  variable_reference-Ensures, string_literal-Ensures, number_literal-Ensures,
}
use ftllex_engine.Grammar.{
  parse_placeable, parse_inline_expression, parse_argument_expression, hyphen_expression,
}
use ftllex_engine.Grammar.Sound.{Enough, Inlines, Rules}
use ftllex_engine.Grammar.Sound.Steps.{closed-Ensures, at_arrow-Onward, braced-Ensures}

module _ (text : Text) (f : ℕ) (rules : Rules text f) where
  pub placeable-step :
      (k : ParseContext) (flag : Bool) {from : ℕ} {c : Cursor}
      → Onward text from c
      → Enough text c 4 (suc f)
      → Ensures
          (Yields text (suc c.pos) (PlaceableIn text (levels k)))
          (parse_placeable (suc f) k flag c)
  unfolding parse_placeable InlineIn Distinct
  placeable-step k flag {c = c} o h =
      let P = Ensures (Yields text (suc c.pos) (PlaceableIn text (levels k))) in
      let blank = skip_blank-Onward o in
      let (_, p1, _) = blank in
      let within : (e : Expression)
          → ExpressionIn text (levels (enter_nesting k)) e
          → is_depth_exceeded k ≡ false
          → PlaceableIn text (levels k) e =
        λ e i deep.
          (levels_pos k deep, subst (λ n. ExpressionIn text n e) (levels-enter_nesting k) i) in
      Bool-elim P (is_depth_exceeded k) (λ _. rejected)
        λ deep.
          Ensures-bind (rules.inline_expression (enter_nesting k) flag blank (omega arith))
            λ e d u (on, i).
              let blank2 = skip_blank-Onward on in
              let (_, p2, _) = on in
              let (_, p3, i3) = blank2 in
              Bool-elim P (is_valid_selector e && at_arrow (skip_blank d))
                (λ arrow.
                  let next = at_arrow-Onward blank2 (ground arith) in
                  let (_, p4, _) = next in
                  Ensures-bind
                    (rules.select_expression (enter_nesting k) u e (skip_blank c).pos next
                      (omega arith) i (ground arith) (omega arith))
                    λ s g v (on3, r).
                      let (_, p5, _) = skip_blank-Onward on3 in
                      let (_, p6, _) = on3 in
                      Ensures-weaken
                        (closed-Ensures (PlaceableIn text (levels k)) b'}' s v
                          (skip_blank-Onward on3) (within s r deep))
                        λ a h t (on4, r2). (Onward-le on4 (omega arith), r2))
                (λ _.
                  Ensures-weaken
                    (closed-Ensures (PlaceableIn text (levels k)) b'}' (Expression.inline e) u
                      blank2 (within (Expression.inline e) i deep))
                    λ a g v (on3, r). (Onward-le on3 (omega arith), r))

  pub inline_expression-step :
      (k : ParseContext) (flag : Bool) {from : ℕ} {c : Cursor}
      → Onward text from c
      → Enough text c 3 (suc f)
      → Inlines text k c (parse_inline_expression (suc f) k flag c)
  unfolding parse_placeable InlineIn Distinct
  inline_expression-step k flag {c = c} o h = elim (Exn-cases (current c)) [
    | inl (e, r) ↦ rw (r, parse_inline_expression) rejected
    | inr (ch, r) ↦
        rw (r, parse_inline_expression)
          (let P = Inlines text k c in
            let next = next-Onward o (current-inside c ch r) in
            let (_, p, _) = next in
            Bool-elim P (ch == b'$') (λ _. variable_reference-Ensures flag o (levels k))
              λ _.
                Bool-elim P (ch == b'"') (λ _. string_literal-Ensures flag o (levels k))
                  λ _.
                    Bool-elim P (ch == b'-') (λ _. rules.hyphen k flag o (omega arith))
                      λ _.
                        Bool-elim P (ch == b'{')
                          (λ _.
                            braced-Ensures text k c (omega arith)
                              (rules.placeable k flag next (omega arith)))
                          λ _.
                            Bool-elim P (is_digit ch)
                              (λ _. number_literal-Ensures flag o (levels k))
                              λ _.
                                Bool-elim P (is_identifier_start ch)
                                  (λ _. rules.identifier k flag o (omega arith)) (λ _. rejected))
  ]

  pub argument_expression-step :
      (k : ParseContext) (flag : Bool) {from : ℕ} {c : Cursor}
      → Onward text from c
      → Enough text c 3 (suc f)
      → Inlines text k c (parse_argument_expression (suc f) k flag c)
  unfolding parse_placeable InlineIn Distinct
  argument_expression-step k flag {c = c} o h = elim (Exn-cases (current c)) [
    | inl (e, r) ↦ rw (r, parse_argument_expression) rejected
    | inr (ch, r) ↦
        rw (r, parse_argument_expression)
          (let P = Inlines text k c in
            let next = next-Onward o (current-inside c ch r) in
            let (_, p, _) = next in
            Bool-elim P (ch == b'$') (λ _. variable_reference-Ensures flag o (levels k))
              λ _.
                Bool-elim P (ch == b'"') (λ _. string_literal-Ensures flag o (levels k))
                  λ _.
                    Bool-elim P (ch == b'-') (λ _. rules.hyphen k flag o (omega arith))
                      λ _.
                        Bool-elim P (is_digit ch) (λ _. number_literal-Ensures flag o (levels k))
                          λ _.
                            Bool-elim P (ch == b'{')
                              (λ _.
                                braced-Ensures text k c (omega arith)
                                  (rules.placeable k flag next (omega arith)))
                              λ _.
                                Bool-elim P (is_identifier_start ch || ch == b'_')
                                  (λ _. rules.identifier k flag o (omega arith)) (λ _. rejected))
  ]

  pub hyphen-step :
      (k : ParseContext) (flag : Bool) {from : ℕ} {c : Cursor}
      → Onward text from c
      → Enough text c 2 (suc f)
      → Inlines text k c (hyphen_expression (suc f) k flag c)
  unfolding parse_placeable InlineIn Distinct
  hyphen-step k flag {c = c} o h =
      Bool-elim (Inlines text k c) (current_is is_identifier_start (step c))
        (λ _. rules.term_reference k flag o (omega arith))
        (λ _. number_literal-Ensures flag o (levels k))
