-- ===== src/Entries/Sound.antt =====
-- The rules for entries return, and what they return fits the text.
use ftllex_engine.Base.{
  ℕ, zero, suc, ◌+◌, ◌*◌, ◌-◌, ◌<◌, ◌≡◌, ap, Bool, true, List, [], ◌∷◌, Text, All, length, if-cases,
  if-elim, Bool-elim, arith,
}
use ftllex_engine.Cursor.{Cursor, at_char, step, skip_spaces}
use ftllex_engine.Primitives.{left}
use ftllex_engine.Whitespace.{
  skip_blank_inline, skip_run, behind_newlines, is_indented_continuation,
  skip_multiline_pattern_start,
}
use ftllex_engine.Syntax.Valid.{IdentifierIn, PatternIn}
use ftllex_engine.Outcome.{
  ParseContext, Outcome, found, missing, raising, out_of_fuel, ◌⟫◌, levels, Ensures, holds,
  rejected, Ensures-bind, Ensures-weaken,
}
use ftllex_engine.Patterns.{ends_pattern}
use ftllex_engine.Terminals.Onward.{
  Onward, Onward-here, Onward-le, step-Onward, step_char-Onward, skip_blank_inline-Onward,
  skip_run-Onward, count_indent-Onward,
}
use ftllex_engine.Terminals.Names.{Yields, identifier_node-Ensures}
use ftllex_engine.Grammar.{parse_pattern}
use ftllex_engine.Grammar.Sound.Steps.{closed-Ensures}
use ftllex_engine.Grammar.Total.{all-Rules}
use ftllex_engine.Entries.{
  Attribute, pattern_behind, parse_message_header, attribute_at, parse_attribute, attributes_loop,
}
use ftllex_engine.Entries.Valid.{AttributeIn}

multiline_start-Onward :
    {text : Text} {from : ℕ} {c : Cursor}
    → Onward text from c
    → Onward text c.pos (skip_multiline_pattern_start c).0
unfolding skip_multiline_pattern_start
multiline_start-Onward {text} {c = c} o =
    let d = skip_blank_inline c in
    let blank = skip_blank_inline-Onward o in
    let next = step-Onward blank in
    let (_, a, _) = next in
    let (_, a0, _) = blank in
    let behind = skip_run-Onward b'\n' (left (step d)) next in
    let (_, b, _) = behind in
    let P : Cursor × ℕ → Type 0 = λ r. Onward text c.pos r.0 in
    if-elim P (at_char d b'\n') _ _
      (if-elim P (is_indented_continuation d) _ _
        (Onward-le (count_indent-Onward (left (behind_newlines d)) 0 behind) (omega arith)) blank)
      blank

pub pattern_behind-Ensures :
    {text : Text} {from : ℕ} {c : Cursor} (k : ParseContext) (flag : Bool)
    → Onward text from c
    → Ensures (Yields text c.pos (PatternIn text (levels k))) (pattern_behind k flag c)
unfolding pattern_behind parse_pattern PatternIn
pattern_behind-Ensures {text} {c = c} k flag o =
    let d = (skip_multiline_pattern_start c).0 in
    let start = multiline_start-Onward o in
    let (same, a, _) = start in
    let n = ap length same in
    Ensures-weaken
      ((all-Rules text (6 * left d + 2)).pattern_loop ends_pattern k flag _ start tt (omega arith))
      λ p e u (on, i). (Onward-le on a, i)

pub header-Ensures :
    {text : Text} {from : ℕ} {c : Cursor} (flag : Bool)
    → Onward text from c
    → Ensures (Yields text (suc c.pos) (IdentifierIn text)) (parse_message_header flag c)
unfolding parse_message_header
header-Ensures {text} flag o = Ensures-bind (identifier_node-Ensures flag o) λ id d u (on, named).
    let (_, a, _) = on in
    let blank = skip_blank_inline-Onward on in
    let (_, b, _) = blank in
    Ensures-weaken (closed-Ensures (IdentifierIn text) b'=' id u blank named)
      λ id e v (on2, named2). (Onward-le on2 (omega arith), named2)

attribute_at-Ensures :
    {text : Text} {from : ℕ} {c : Cursor} (k : ParseContext) (flag : Bool)
    → Onward text from c
    → at_char c b'.' ≡ true
    → Ensures (Yields text (suc c.pos) (AttributeIn text (levels k))) (attribute_at k flag c)
unfolding attribute_at
attribute_at-Ensures k flag o dot =
    let next = step_char-Onward b'.' o dot in
    let (_, a, _) = next in
    Ensures-bind (header-Ensures flag next) λ id d u (on, named).
      let (_, b, _) = on in
      Ensures-bind (pattern_behind-Ensures k u on) λ value e v ((same, ahead, inside), i). holds (
        (same, omega arith, inside),
        record { id_in = named; value_in = i; span_in = (omega arith, inside) },
      )

parse_attribute-Ensures :
    {text : Text} {from : ℕ} {c : Cursor} (k : ParseContext) (flag : Bool)
    → Onward text from c
    → Ensures (Yields text (suc c.pos) (AttributeIn text (levels k))) (parse_attribute k flag c)
unfolding parse_attribute
parse_attribute-Ensures {text} {c = c} k flag o =
    let blank = skip_blank_inline-Onward o in
    let (_, a, _) = blank in
    if-cases {A = Outcome Attribute}
      (Ensures (Yields text (suc c.pos) (AttributeIn text (levels k))))
      (at_char (skip_blank_inline c) b'.')
      (λ dot.
        Ensures-weaken (attribute_at-Ensures k flag blank dot)
          λ b d u (on, i). (Onward-le on (omega arith), i))
      (λ _. rejected)

-- The loop goes on behind an attribute, and ends where there is none.
after_attribute :
    {text : Text} {n from : ℕ} {saved : Cursor} {r : Outcome Attribute}
    {more : Cursor → Bool → Outcome (List Attribute)}
    → Onward text from saved
    → Ensures (Yields text from (AttributeIn text n)) r
    → ((d : Cursor) (u : Bool)
        → Onward text from d
        → Ensures (Yields text from (All (AttributeIn text n))) (more d u))
    → Ensures
        (Yields text from (All (AttributeIn text n)))
        (elim r as (λ _. Outcome (List Attribute)) [
          | found a d u ↦ more d u ⟫ λ rest e v. found (a ∷ rest) e v
          | missing u ↦ found [] saved u
          | raising e ↦ raising e
          | out_of_fuel ↦ out_of_fuel
        ])
after_attribute o (holds (on, i)) k =
    Ensures-bind (k _ _ on) λ rest e v (on2, j). holds (on2, (i, j))
after_attribute o rejected k = holds (o, tt)

pub attributes_loop-Ensures :
    (f : ℕ) {text : Text} {from : ℕ} {c : Cursor} (k : ParseContext) (flag : Bool)
    → Onward text from c
    → length text - c.pos < f
    → Ensures (Yields text c.pos (All (AttributeIn text (levels k)))) (attributes_loop f k flag c)
unfolding attributes_loop
attributes_loop-Ensures zero k flag o h = absurd (omega arith)
attributes_loop-Ensures (suc f) {text} {c = c} k flag o h =
    let P = Ensures (Yields text c.pos (All (AttributeIn text (levels k)))) in
    Bool-elim P (at_char c b'\n')
      (λ newline.
        let next = step_char-Onward b'\n' o newline in
        let (_, a, _) = next in
        let (same, b, inside) = skip_run-Onward b'\n' (left (step c)) next in
        let saved = skip_run b'\n' (left (step c)) (step c) in
        let on : Onward text (suc c.pos) saved = (same, omega arith, inside) in
        let here : Onward text c.pos saved = (same, omega arith, inside) in
        Bool-elim P (at_char (skip_spaces saved) b'.')
          (λ _.
            Ensures-weaken
              (after_attribute {from = suc c.pos} on
                (Ensures-weaken (parse_attribute-Ensures k flag on)
                  λ t d u (on2, i). (Onward-le on2 (omega arith), i))
                λ d u (same2, a2, in2).
                  Ensures-weaken (attributes_loop-Ensures f k u (same2, a2, in2) (omega arith))
                    λ t e v (on3, i). (Onward-le on3 a2, i))
              λ t e v (on3, i). (Onward-le on3 (omega arith), i))
          (λ _. holds (here, tt)))
      (λ _. holds (Onward-here o, tt))
