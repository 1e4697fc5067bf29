-- ===== src/Grammar/Sound/Calls.antt =====
-- References, calls and their arguments, one unit of fuel up.
use ftllex_engine.Base.{
  ℕ, suc, ◌≡◌, inl, inr, Bool, true, false, List, [], Text, ◌==◌, Bool-elim, Option-cases, arith,
  member, add, ok,
}
use ftllex_engine.Cursor.{Cursor, current, is_eof, at_char}
use ftllex_engine.Whitespace.{skip_blank, skip_blank_inline}
use ftllex_engine.Syntax.{InlineExpression}
use ftllex_engine.Syntax.Valid.{Distinct, InlineIn, ArgumentsIn}
use ftllex_engine.Outcome.{
  ParseContext, is_depth_exceeded, enter_nesting, Ensures, holds, rejected, Ensures-bind,
  Ensures-weaken, levels, levels_pos,
}
use ftllex_engine.Terminals.{as_argument_name}
use ftllex_engine.Terminals.Onward.{
  Onward, Onward-here, Onward-le, step_char-Onward, skip_blank-Onward, skip_blank_inline-Onward,
  behind_argument-Onward,
}
use ftllex_engine.Terminals.Names.{Yields, identifier_node-Ensures}
use ftllex_engine.Terminals.Rules.{term_attribute-Ensures, message_reference-Ensures}
use ftllex_engine.Terminals.Settled.{
  IsSettled, skip_blank-IsSettled, behind_argument-IsSettled, current-ok,
}
use ftllex_engine.Grammar.{
  parse_placeable, identifier_expression, parse_function_reference, parse_term_reference,
  parse_call_arguments, arguments_loop, named_argument,
}
use ftllex_engine.Grammar.Sound.{LoopIn, Enough, Inlines, Rules}
use ftllex_engine.Grammar.Sound.Steps.{
  argument_name-IdentifierIn, LoopIn-ArgumentsIn, with_positional-LoopIn, called-Ensures,
  value-Ensures,
}

module _ (text : Text) (f : ℕ) (rules : Rules text f) where
  pub identifier-step :
      (k : ParseContext) (flag : Bool) {from : ℕ} {c : Cursor}
      → Onward text from c
      → Enough text c 2 (suc f)
      → Inlines text k c (identifier_expression (suc f) k flag c)
  unfolding parse_placeable InlineIn Distinct
  identifier-step k flag {c = c} o h =
      Ensures-bind (identifier_node-Ensures flag o) λ id d u (on, named).
        let (_, p, _) = on in
        Bool-elim (Inlines text k c) (at_char (skip_blank_inline d) b'(')
          (λ _. rules.function_reference k u o (omega arith))
          (λ _.
            Ensures-weaken (message_reference-Ensures (levels k) c.pos id u on (omega arith) named)
              λ a e v (on2, i). (Onward-le on2 p, i))

  pub function_reference-step :
      (k : ParseContext) (flag : Bool) {from : ℕ} {c : Cursor}
      → Onward text from c
      → Enough text c 1 (suc f)
      → Inlines text k c (parse_function_reference (suc f) k flag c)
  unfolding parse_placeable InlineIn Distinct
  function_reference-step k flag {c = c} o h =
      let P = Inlines text k c in
      Bool-elim P (is_depth_exceeded k) (λ _. rejected)
        λ deep. Ensures-bind (identifier_node-Ensures flag o) λ id d u (on, named).
          let (_, p, _) = on in
          Bool-elim P (at_char (skip_blank_inline d) b'(')
            (λ paren.
              let blank = skip_blank_inline-Onward on in
              let (_, p2, _) = blank in
              let next = step_char-Onward b'(' blank paren in
              let (_, p3, i3) = next in
              called-Ensures text k (Yields text (suc c.pos) (InlineIn text (levels k)))
                (rules.call_arguments (enter_nesting k) u next (omega arith))
                λ arguments g t (same, ahead, inside) i. holds (
                  (same, omega arith, inside),
                  (named, levels_pos k deep, i, (omega arith, inside)),
                ))
            (λ _. rejected)

  pub term_reference-step :
      (k : ParseContext) (flag : Bool) {from : ℕ} {c : Cursor}
      → Onward text from c
      → Enough text c 1 (suc f)
      → Inlines text k c (parse_term_reference (suc f) k flag c)
  unfolding parse_placeable InlineIn Distinct
  term_reference-step k flag {c = c} o h =
      let P = Inlines text k c in
      Bool-elim P (at_char c b'-')
        (λ minus.
          let next = step_char-Onward b'-' o minus in
          let (_, p1, _) = next in
          Ensures-bind (identifier_node-Ensures flag next) λ id d u (on, named).
            let (_, p2, _) = on in
            Ensures-bind (term_attribute-Ensures u on) λ attribute e v (on2, i).
              let (same, p3, inside) = skip_blank_inline-Onward on2 in
              let (_, p4, _) = on2 in
              Bool-elim P (at_char (skip_blank_inline e) b'(')
                (λ paren.
                  Bool-elim P (is_depth_exceeded k) (λ _. rejected)
                    λ deep.
                      let next2 = step_char-Onward b'(' (skip_blank_inline-Onward on2) paren in
                      let (_, p5, _) = next2 in
                      called-Ensures text k (Yields text (suc c.pos) (InlineIn text (levels k)))
                        (rules.call_arguments (enter_nesting k) v next2 (omega arith))
                        λ arguments g t (same, ahead, inside) j. holds (
                          (same, omega arith, inside),
                          (named, i, (levels_pos k deep, j), (omega arith, inside)),
                        ))
                (λ _. holds ((same, omega arith, inside), (named, i, tt, (omega arith, inside)))))
        (λ _. rejected)

  pub call_arguments-step :
      (k : ParseContext) (flag : Bool) {from : ℕ} {c : Cursor}
      → Onward text from c
      → Enough text c 5 (suc f)
      → Ensures
          (Yields text c.pos (ArgumentsIn text (levels k)))
          (parse_call_arguments (suc f) k flag c)
  unfolding parse_placeable InlineIn Distinct
  call_arguments-step k flag o h =
      let blank = skip_blank-Onward o in
      let (_, p, _) = blank in
      Ensures-weaken
        (rules.arguments_loop k [] false flag blank (skip_blank-IsSettled o) (omega arith))
        λ a d u (on, i). (Onward-le on p, LoopIn-ArgumentsIn text (levels k) a i)

  pub arguments_loop-step :
      (k : ParseContext) (seen : List Text) (seen_named flag : Bool) {from : ℕ} {c : Cursor}
      → Onward text from c
      → IsSettled c
      → Enough text c 4 (suc f)
      → Ensures
          (Yields text c.pos (LoopIn text (levels k) seen))
          (arguments_loop (suc f) k seen seen_named flag c)
  unfolding parse_placeable InlineIn Distinct
  arguments_loop-step k seen seen_named flag {c = c} o settled h =
      let P = Ensures (Yields text c.pos (LoopIn text (levels k) seen)) in
      let blank = skip_blank-Onward o in
      let (_, p1, _) = blank in
      Bool-elim P (is_eof c) (λ _. holds (Onward-here o, (tt, tt, tt)))
        λ inside.
          let (ch, r) = current-ok c inside in
          let r2 : current (skip_blank c) ≡ ok ch = rw settled r in
          rw r2 (
            Bool-elim P (ch == b')') (λ _. holds (blank, (tt, tt, tt)))
              λ _.
                Ensures-bind (rules.argument_expression k flag blank (omega arith)) λ a d u (on, i).
                  let (_, p2, _) = on in
                  let blank2 = skip_blank-Onward on in
                  let (_, p3, _) = blank2 in
                  Bool-elim P (at_char (skip_blank d) b':')
                    (λ colon.
                      let next = step_char-Onward b':' blank2 colon in
                      let (_, p4, _) = next in
                      let (_, p5, _) = skip_blank-Onward next in
                      Ensures-weaken
                        (rules.named_argument k seen a u (skip_blank-Onward next) i (omega arith))
                        λ b e v (on3, j). (Onward-le on3 (omega arith), j))
                    (λ _.
                      Bool-elim P seen_named (λ _. rejected)
                        λ _.
                          let behind = behind_argument-Onward blank2 in
                          let (_, p4, _) = behind in
                          Ensures-bind
                            (rules.arguments_loop k seen false u behind
                              (behind_argument-IsSettled blank2) (omega arith))
                            λ rest e v (on3, j). holds (
                              Onward-le on3 (omega arith),
                              with_positional-LoopIn text (levels k) seen a rest i j,
                            )))

  pub named_argument-step :
      (k : ParseContext) (seen : List Text) (a : InlineExpression) (flag : Bool) {from : ℕ}
      {c : Cursor}
      → Onward text from c
      → InlineIn text (levels k) a
      → Enough text c 4 (suc f)
      → Ensures
          (Yields text c.pos (LoopIn text (levels k) seen))
          (named_argument (suc f) k seen a flag c)
  unfolding parse_placeable InlineIn Distinct
  named_argument-step k seen a flag {c = c} o i h =
      let P = Ensures (Yields text c.pos (LoopIn text (levels k) seen)) in
      elim (Option-cases (as_argument_name a)) [
        | inl r ↦ rw (r, named_argument) rejected
        | inr (id, r) ↦
            let named = argument_name-IdentifierIn text (levels k) a id i r in
            rw (r, named_argument)
              (Bool-elim P (member id.name seen) (λ _. rejected)
                λ new.
                  Bool-elim P (is_eof c) (λ _. rejected)
                    λ inside.
                      Ensures-bind (rules.argument_expression k flag o (omega arith))
                        λ value d u (on, j).
                          let (_, p1, _) = on in
                          let behind = behind_argument-Onward on in
                          let (_, p2, _) = behind in
                          value-Ensures text (levels k) seen id value u named new (omega arith) (
                            rules.arguments_loop k (add id.name seen) true u behind
                              (behind_argument-IsSettled on) (omega arith)))
      ]
