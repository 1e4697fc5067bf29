-- ===== src/Patterns/Lines.antt =====
-- The loops of the pattern parsers go forward over the text.
use ftllex_engine.Base.{
  ℕ, zero, suc, ◌<◌, ◌≡◌, Bool, true, false, ◌||◌, Text, length, if-elim, Bool-elim, arith, Option,
  none, some, ltb, ◌==◌,
}
use ftllex_engine.Cursor.{Cursor, at_char, is_eof, slice_to}
use ftllex_engine.Primitives.{current_is, left}
use ftllex_engine.Syntax.Valid.{PatternIn}
use ftllex_engine.Terminals.Onward.{
  Onward, Onward-here, Onward-le, step-Onward, next-Onward, step_char-Onward, is_eof-inside,
  skip_run-Onward, count_indent-Onward, skip_spaces-Onward,
}
use ftllex_engine.Patterns.{
  PatternState, skip_up_to, skip_common_indent, process_continuation_line, continue_line, text_end,
  read_text,
}
use ftllex_engine.Patterns.Kept.{append_newline-PatternIn, add_text-PatternIn}

skip_up_to-Onward :
    (n : ℕ) {text : Text} {from : ℕ} {c : Cursor}
    → Onward text from c
    → Onward text c.pos (skip_up_to n c)
unfolding skip_up_to
skip_up_to-Onward zero o = Onward-here o
skip_up_to-Onward (suc n) {text} {c = c} o =
    let (_, b, _) = step-Onward o in
    Bool-elim {A = Cursor} (Onward text c.pos) (at_char c b' ')
      (λ _. Onward-le (skip_up_to-Onward n (step-Onward o)) b) (λ _. Onward-here o)

skip_common_indent-Onward :
    (n : ℕ) {text : Text} {from : ℕ} {c : Cursor}
    → Onward text from c
    → Onward text c.pos (skip_common_indent n c).0
unfolding skip_common_indent
skip_common_indent-Onward n {c = c} o =
    let (_, a, _) = skip_up_to-Onward n o in
    Onward-le (count_indent-Onward (left (skip_up_to n c)) 0 (skip_up_to-Onward n o)) a

process_continuation_line-Onward :
    (common_indent : Option ℕ) {text : Text} {from : ℕ} {c : Cursor}
    → Onward text from c
    → Onward text c.pos (process_continuation_line c common_indent).0
unfolding process_continuation_line
process_continuation_line-Onward none {c = c} o =
    let newlines = skip_run-Onward b'\n' (left c) o in
    let (_, a, _) = newlines in Onward-le (skip_spaces-Onward newlines) a
process_continuation_line-Onward (some n) {c = c} o =
    let newlines = skip_run-Onward b'\n' (left c) o in
    let (_, a, _) = newlines in Onward-le (skip_common_indent-Onward n newlines) a

-- A continuation line passes at least its newline, and keeps the placeables.
pub continue_line-Onward :
    (s : PatternState) {text : Text} {from : ℕ} {c : Cursor}
    → Onward text from c
    → at_char c b'\n' ≡ true
    → Onward text (suc c.pos) (continue_line s c).1
unfolding continue_line
continue_line-Onward s {c = c} o h =
    let next = step_char-Onward b'\n' o h in
    let (_, a, _) = next in Onward-le (process_continuation_line-Onward s.common_indent next) a

pub continue_line-PatternIn :
    (s : PatternState) (c : Cursor) (text : Text) (levels : ℕ)
    → PatternIn text levels s.elements
    → PatternIn text levels (continue_line s c).0.elements
unfolding continue_line
continue_line-PatternIn s c text levels a = append_newline-PatternIn text levels s.elements a

module _ (ends : Cursor → Bool) where
  text_end-Onward :
      (fuel : ℕ) {text : Text} {from : ℕ} {c : Cursor}
      → Onward text from c
      → Onward text c.pos (text_end ends fuel c)
  unfolding text_end
  text_end-Onward zero o = Onward-here o
  text_end-Onward (suc fuel) {text} {c = c} o =
      let (_, b, _) = step-Onward o in
      Bool-elim {A = Cursor} (Onward text c.pos)
        (is_eof c || current_is (λ ch. ch == b'{' || ch == b'\n') c || ends c) (λ _. Onward-here o)
        (λ _. Onward-le (text_end-Onward fuel (step-Onward o)) b)

  -- A text element has at least one character.
  text_end-next :
      (fuel : ℕ) {text : Text} {from : ℕ} {c : Cursor}
      → Onward text from c
      → 0 < fuel
      → c.pos < length c.source
      → (is_eof c || current_is (λ ch. ch == b'{' || ch == b'\n') c || ends c) ≡ false
      → Onward text (suc c.pos) (text_end ends fuel c)
  unfolding text_end
  text_end-next zero o lt inside h = absurd (omega arith)
  text_end-next (suc fuel) {text} {c = c} o lt inside h =
      let next = next-Onward o inside in
      let (_, b, _) = next in rw (h, text_end) (Onward-le (text_end-Onward fuel next) b)

  pub read_text-Onward :
      (s : PatternState) {text : Text} {from : ℕ} {c : Cursor}
      → Onward text from c
      → (is_eof c || current_is (λ ch. ch == b'{' || ch == b'\n') c || ends c) ≡ false
      → Onward text (suc c.pos) (read_text ends s c).1
  unfolding read_text
  read_text-Onward s {c = c} o h =
      let inside = is_eof-inside c (ground arith) in text_end-next (left c) o (omega arith) inside h

  pub read_text-PatternIn :
      (s : PatternState) (c : Cursor) (text : Text) (levels : ℕ)
      → PatternIn text levels s.elements
      → PatternIn text levels (read_text ends s c).0.elements
  unfolding read_text
  read_text-PatternIn s c text levels a =
      let d = text_end ends (left c) c in
      if-elim {A = PatternState} (λ t. PatternIn text levels t.elements) (ltb c.pos d.pos) _ _
        (add_text-PatternIn text levels s (slice_to c d.pos) a) a
