-- ===== src/Grammar/Sound/Selects.antt =====
-- Select expressions, variants and patterns, one unit of fuel up.
use ftllex_engine.Base.{
  ℕ, suc, ◌≤◌, ◌≡◌, Bool, true, ◌||◌, Text, if◌then◌else◌, if-elim, Bool-elim, arith,
}
use ftllex_engine.Cursor.{Cursor, is_eof, at_char, step}
use ftllex_engine.Whitespace.{skip_blank, is_indented_continuation}
use ftllex_engine.Syntax.{InlineExpression, is_valid_selector}
use ftllex_engine.Syntax.Valid.{
  KeyIn, Distinct, InlineIn, ExpressionIn, VariantsIn, VariantIn, PatternIn,
}
use ftllex_engine.Outcome.{ParseContext, Ensures, holds, Ensures-bind, Ensures-weaken, levels}
use ftllex_engine.Patterns.{
  PatternState, flush, add_placeable, continue_line, read_text, ends_simple_pattern,
}
use ftllex_engine.Patterns.Kept.{flush-PatternIn, add_placeable-PatternIn}
use ftllex_engine.Patterns.Lines.{
  continue_line-Onward, continue_line-PatternIn, read_text-Onward, read_text-PatternIn,
}
use ftllex_engine.Terminals.Onward.{
  Onward, Onward-here, Onward-le, step-Onward, step_char-Onward, skip_blank-Onward,
  skip_blank_inline-Onward,
}
use ftllex_engine.Terminals.Names.{Yields}
use ftllex_engine.Terminals.Rules.{closing-Ensures, variant_key-Ensures}
use ftllex_engine.Grammar.{
  parse_placeable, parse_select_expression, variants_loop, parse_variant, parse_simple_pattern,
  pattern_loop,
}
use ftllex_engine.Grammar.Sound.{Enough, Rules}
use ftllex_engine.Grammar.Sound.Steps.{
  text_goes_on, select_of-Ensures, closed-Ensures, pattern_of-PatternIn,
}

module _ (text : Text) (f : ℕ) (rules : Rules text f) where
  pub select_expression-step :
      (k : ParseContext) (flag : Bool) (selector : InlineExpression) (start : ℕ) {from : ℕ}
      {c : Cursor}
      → Onward text from c
      → start ≤ c.pos
      → InlineIn text (levels k) selector
      → is_valid_selector selector ≡ true
      → Enough text c 3 (suc f)
      → Ensures
          (Yields text c.pos (ExpressionIn text (levels k)))
          (parse_select_expression (suc f) k flag selector start c)
  unfolding parse_placeable InlineIn Distinct
  select_expression-step k flag selector start o le i valid h =
      let blank = skip_blank-Onward o in
      let (_, p, _) = blank in
      Ensures-bind (rules.variants_loop k flag blank (omega arith)) λ vs d u (on, j).
        let (_, p2, _) = on in
        Ensures-weaken
          (select_of-Ensures text (levels k) selector start vs u on (omega arith) i valid j)
          λ e g v (on2, r). (Onward-le on2 (omega arith), r)

  pub variants_loop-step :
      (k : ParseContext) (flag : Bool) {from : ℕ} {c : Cursor}
      → Onward text from c
      → Enough text c 2 (suc f)
      → Ensures (Yields text c.pos (VariantsIn text (levels k))) (variants_loop (suc f) k flag c)
  unfolding parse_placeable InlineIn Distinct
  variants_loop-step k flag {c = c} o h =
      let P = Ensures (Yields text c.pos (VariantsIn text (levels k))) in
      let blank = skip_blank-Onward o in
      let (_, p, _) = blank in
      Bool-elim P (is_eof c) (λ _. holds (Onward-here o, tt))
        λ _.
          Bool-elim P (is_eof (skip_blank c) || at_char (skip_blank c) b'}')
            (λ _. holds (blank, tt))
            λ _. Ensures-bind (rules.variant k flag blank (omega arith)) λ v d u (on, i).
              let (_, p2, _) = on in
              Ensures-bind (rules.variants_loop k u on (omega arith))
                λ rest e t (on2, j). holds (Onward-le on2 (omega arith), (i, j))

  pub variant-step :
      (k : ParseContext) (flag : Bool) {from : ℕ} {c : Cursor}
      → Onward text from c
      → Enough text c 1 (suc f)
      → Ensures
          (Yields text (suc c.pos) (VariantIn text (levels k)))
          (parse_variant (suc f) k flag c)
  unfolding parse_placeable InlineIn Distinct
  variant-step k flag {c = c} o h =
      let star : Onward text c.pos (if at_char c b'*' then step c else c) =
        if-elim {A = Cursor} (Onward text c.pos) (at_char c b'*') _ _ (step-Onward o)
          (Onward-here o) in
      let (_, p0, _) = star in
      Ensures-bind (closing-Ensures b'[' (at_char c b'*') flag star) λ default d u (on1, _).
        let (_, p1, _) = on1 in
        let blank1 = skip_blank-Onward on1 in
        let (_, q1, _) = blank1 in
        Ensures-bind (variant_key-Ensures u blank1) λ key e v (on2, i).
          let (_, p2, _) = on2 in
          let blank2 = skip_blank-Onward on2 in
          let (_, q2, _) = blank2 in
          Ensures-bind (closed-Ensures (KeyIn text) b']' key v blank2 i) λ key2 g w (on3, i2).
            let (_, p3, _) = on3 in
            let blank3 = skip_blank_inline-Onward on3 in
            let (_, q3, _) = blank3 in
            Ensures-bind (rules.simple_pattern k w blank3 (omega arith))
              λ value m t (on4, j). holds (Onward-le on4 (omega arith), (i2, j))

  pub simple_pattern-step :
      (k : ParseContext) (flag : Bool) {from : ℕ} {c : Cursor}
      → Onward text from c
      → Enough text c 2 (suc f)
      → Ensures
          (Yields text c.pos (PatternIn text (levels k)))
          (parse_simple_pattern (suc f) k flag c)
  unfolding parse_placeable InlineIn Distinct
  simple_pattern-step k flag o h =
      rules.pattern_loop ends_simple_pattern k flag _ o tt (omega arith)

  pub pattern_loop-step :
      (ends : Cursor → Bool) (k : ParseContext) (flag : Bool) (s : PatternState) {from : ℕ}
      {c : Cursor}
      → Onward text from c
      → PatternIn text (levels k) s.elements
      → Enough text c 1 (suc f)
      → Ensures
          (Yields text c.pos (PatternIn text (levels k)))
          (pattern_loop ends (suc f) k flag s c)
  unfolding parse_placeable InlineIn Distinct
  pattern_loop-step ends k flag s {c = c} o i h =
      let n = levels k in
      let P = Ensures (Yields text c.pos (PatternIn text n)) in
      Bool-elim P (is_eof c || ends c) (λ _. holds (Onward-here o, pattern_of-PatternIn text n s i))
        λ go.
          Bool-elim P (at_char c b'\n')
            (λ newline.
              Bool-elim P (is_indented_continuation c)
                (λ _.
                  let on = continue_line-Onward s o newline in
                  let (_, p, _) = on in
                  Ensures-weaken
                    (rules.pattern_loop ends k flag (continue_line s c).0 on
                      (continue_line-PatternIn s c text n i) (omega arith))
                    λ a d u (on2, j). (Onward-le on2 (omega arith), j))
                (λ _. holds (Onward-here o, pattern_of-PatternIn text n s i)))
            (λ other.
              Bool-elim P (at_char c b'{')
                (λ brace.
                  let next = step_char-Onward b'{' o brace in
                  let (_, p, _) = next in
                  Ensures-bind (rules.placeable k flag next (omega arith)) λ e d u (on, j).
                    let (_, q, _) = on in
                    Ensures-weaken
                      (rules.pattern_loop ends k u (add_placeable (flush s) e) on
                        (add_placeable-PatternIn text n (flush s) e (flush-PatternIn text n s i) j)
                        (omega arith))
                      λ a g v (on2, r). (Onward-le on2 (omega arith), r))
                (λ plain.
                  let on = read_text-Onward ends s o (text_goes_on ends c go other plain) in
                  let (_, p, _) = on in
                  Ensures-weaken
                    (rules.pattern_loop ends k flag (read_text ends s c).0 on
                      (read_text-PatternIn ends s c text n i) (omega arith))
                    λ a d u (on2, j). (Onward-le on2 (omega arith), j)))
