-- ===== src/Entries/Definitions.antt =====
-- Messages and terms: the parsers return, and the nodes fit the text.
use ftllex_engine.Base.{
  ℕ, suc, ◌≡◌, refl, ap, Bool, true, List, [], ◌∷◌, Text, All, length, if-cases, Bool-elim, arith,
}
use ftllex_engine.Cursor.{Cursor, at_char}
use ftllex_engine.Primitives.{left}
use ftllex_engine.Syntax.{Identifier, Pattern}
use ftllex_engine.Syntax.Valid.{IdentifierIn, PatternIn}
use ftllex_engine.Outcome.{ParseContext, Outcome, levels, Ensures, holds, rejected, Ensures-bind}
use ftllex_engine.Terminals.Onward.{Onward, step_char-Onward}
use ftllex_engine.Terminals.Names.{Yields}
use ftllex_engine.Entries.{
  Attribute, Definition, parse_message_attributes, has_elements, validate_message_content,
  definition, parse_message, term_at, parse_term,
}
use ftllex_engine.Entries.Valid.{AttributeIn, DefinitionIn}
use ftllex_engine.Entries.Sound.{pattern_behind-Ensures, header-Ensures, attributes_loop-Ensures}

attributes-Ensures :
    {text : Text} {from : ℕ} {c : Cursor} (k : ParseContext) (flag : Bool)
    → Onward text from c
    → Ensures
        (Yields text c.pos (All (AttributeIn text (levels k))))
        (parse_message_attributes k flag c)
unfolding parse_message_attributes
attributes-Ensures {c = c} k flag o =
    let (same, _, _) = o in
    let n = ap length same in attributes_loop-Ensures (suc (left c)) k flag o (omega arith)

definition-DefinitionIn :
    (text : Text) (n start : ℕ) (id : Identifier) (value : Pattern) (attributes : List Attribute)
    (c : Cursor)
    → Onward text start c
    → IdentifierIn text id
    → PatternIn text n value
    → All (AttributeIn text n) attributes
    → validate_message_content value attributes ≡ true
    → DefinitionIn text n (definition start id value attributes c)
definition-DefinitionIn text n start id value attributes c (same, ahead, inside) i j l content =
    record {
      id_in = i;
      value_in = j;
      attributes_in = l;
      comment_in = tt;
      span_in = (ahead, inside);
      has_content = content;
    }

-- From every cursor on the text `parse_message` returns None, or a message that fits the text, with the
-- cursor behind it.
pub message-Ensures :
    {text : Text} {from : ℕ} {c : Cursor} (k : ParseContext) (flag : Bool)
    → Onward text from c
    → Ensures (Yields text (suc c.pos) (DefinitionIn text (levels k))) (parse_message k flag c)
unfolding parse_message
message-Ensures {text} {c = c} k flag o =
    let P = Ensures (Yields text (suc c.pos) (DefinitionIn text (levels k))) in
    Ensures-bind (header-Ensures flag o) λ id d u (on, named).
      let (_, a, _) = on in
      Ensures-bind (pattern_behind-Ensures k u on) λ value e v (on2, i).
        let (_, b, _) = on2 in
        Ensures-bind (attributes-Ensures k v on2) λ attributes g t ((same, d2, inside), j).
          if-cases P (validate_message_content value attributes)
            (λ content. holds (
              (same, omega arith, inside),
              definition-DefinitionIn text (levels k) c.pos id value attributes g
                  (same, omega arith, inside) named i j content,
            ))
            (λ _. rejected)

has_content :
    (value : Pattern) (attributes : List Attribute)
    → has_elements value ≡ true
    → validate_message_content value attributes ≡ true
unfolding validate_message_content
has_content value [] h = h
has_content value (a ∷ attributes) h = refl

term_at-Ensures :
    {text : Text} {from : ℕ} {c : Cursor} (k : ParseContext) (flag : Bool)
    → Onward text from c
    → at_char c b'-' ≡ true
    → Ensures (Yields text (suc c.pos) (DefinitionIn text (levels k))) (term_at k flag c)
unfolding term_at
term_at-Ensures {text} {c = c} k flag o minus =
    let P = Ensures (Yields text (suc c.pos) (DefinitionIn text (levels k))) in
    let next = step_char-Onward b'-' o minus in
    let (_, z, _) = next in
    Ensures-bind (header-Ensures flag next) λ id d u (on, named).
      let (_, a, _) = on in
      Ensures-bind (pattern_behind-Ensures k u on) λ value e v (on2, i).
        let (_, b, _) = on2 in
        Bool-elim P (has_elements value)
          (λ elements.
            Ensures-bind (attributes-Ensures k v on2) λ attributes g t ((same, d2, inside), j).
              holds (
                (same, omega arith, inside),
                definition-DefinitionIn text (levels k) c.pos id value attributes g
                    (same, omega arith, inside) named i j (has_content value attributes elements),
              ))
          (λ _. rejected)

-- The same of `parse_term`.
pub term-Ensures :
    {text : Text} {from : ℕ} {c : Cursor} (k : ParseContext) (flag : Bool)
    → Onward text from c
    → Ensures (Yields text (suc c.pos) (DefinitionIn text (levels k))) (parse_term k flag c)
unfolding parse_term
term-Ensures {text} {c = c} k flag o =
    if-cases {A = Outcome Definition}
      (Ensures (Yields text (suc c.pos) (DefinitionIn text (levels k)))) (at_char c b'-')
      (λ minus. term_at-Ensures k flag o minus) (λ _. rejected)
