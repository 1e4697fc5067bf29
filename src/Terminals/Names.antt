-- ===== src/Terminals/Names.antt =====
-- Identifier nodes, and the rules made of them: the span of a name is where the text has it.
use ftllex_engine.Base.{
  ℕ, suc, ◌+◌, ◌-◌, ◌≤◌, ◌≡◌, refl, sym, ap, ◌∙◌, subst, Bool, true, false, [], ◌∷◌, Text, length,
  length-drop, drop, slice, take_while, take_while-All, ltb, if-elim, if-cases, arith,
}
use ftllex_engine.Cursor.{Cursor}
use ftllex_engine.Identifier.{is_identifier_start, is_identifier_char, max_identifier_length}
use ftllex_engine.Primitives.{Parsed}
use ftllex_engine.Primitives.Runs.{forward, Remains, forward_at}
use ftllex_engine.Primitives.Identifiers.{
  identifier_in, take_while-take, parse_identifier-identifier_in,
}
use ftllex_engine.Outcome.{found, ◌⟫◌, or_missing, Ensures, holds, rejected}
use ftllex_engine.Syntax.Valid.{IdentifierIn}
use ftllex_engine.Terminals.{identifier_node, span_of}
use ftllex_engine.Terminals.Onward.{Onward}

-- What is found has the property, and the cursor behind it is on the text from the offset on.
abbrev pub Yields {ℓ} : {A : Type ℓ} → Text → ℕ → (A → Type 0) → A → Cursor → Bool → Type 0
Yields text from P a d flag = Onward text from d × P a

length-take_while : (test : ℕ → Bool) (xs : Text) → length (take_while test xs) ≤ length xs
unfolding take_while
length-take_while test [] = omega arith
length-take_while test (x ∷ xs) =
    if-elim {A = Text} (λ ys. length ys ≤ suc (length xs)) (test x) _ _
      (omega (arith, length-take_while test xs)) (omega arith)

-- The name that the grammar finds at the cursor.
name_at :
    {text : Text} {from : ℕ} {c : Cursor} (x : ℕ) (xs : Text)
    → Onward text from c
    → Remains c (x ∷ xs)
    → is_identifier_start x ≡ true
    → ltb max_identifier_length (1 + length (take_while is_identifier_char xs)) ≡ false
    → let name = take_while is_identifier_char xs in
      Onward text (suc c.pos) (forward c (1 + length name))
      × IdentifierIn text
          (record { name = x ∷ name; span = span_of c.pos (c.pos + (1 + length name)) })
name_at {text} {c = c} x xs (same, ahead, inside) h s fits =
    let n = length (take_while is_identifier_char xs) in
    let shorter = length-take_while is_identifier_char xs in
    let rest : length xs ≡ length c.source - (c.pos + 1) =
      sym (ap length (forward_at c x xs h)) ∙ length-drop (c.pos + 1) c.source in
    let all : suc (length xs) ≡ length c.source - c.pos =
      sym (ap length h) ∙ length-drop c.pos c.source in
    let e : c.pos + (1 + n) - c.pos ≡ suc n = omega arith in
    let width : c.pos + (1 + n) ≤ length text = omega (arith, ap length same) in
    (
      (same, omega arith, width),
      record {
        span_in = (omega arith, width);
        located =
            subst (λ t. slice t c.pos (c.pos + (1 + n)) ≡ x ∷ take_while is_identifier_char xs) same
              (rw (e, h) (ap (◌∷◌ x) (take_while-take is_identifier_char xs)));
        grammatical = record {
          first = x;
          rest = take_while is_identifier_char xs;
          shape = refl;
          starts = s;
          continues = take_while-All is_identifier_char xs;
          fits = ground arith;
        };
      },
    )

identifier_in-Ensures :
    {text : Text} {from : ℕ} {c : Cursor} (flag : Bool) (xs : Text)
    → Onward text from c
    → Remains c xs
    → Ensures (Yields text (suc c.pos) (IdentifierIn text)) (
        or_missing flag (identifier_in c xs) ⟫ λ name d u.
        found (record { name = name; span = span_of c.pos d.pos }) d u)
identifier_in-Ensures flag [] o h = rejected
identifier_in-Ensures {text} {c = c} flag (x ∷ xs) o h =
    let name = take_while is_identifier_char xs in
    let P : Parsed Text → Type 0 = λ r. Ensures (Yields text (suc c.pos) (IdentifierIn text)) (
      or_missing flag r ⟫ λ name d u.
      found (record { name = name; span = span_of c.pos d.pos }) d u) in
    if-cases P (is_identifier_start x)
      (λ s.
        if-cases P (ltb max_identifier_length (1 + length name)) (λ _. rejected)
          (λ fits. holds (name_at x xs o h s fits)))
      (λ _. rejected)

-- An identifier node is a name of the grammar, its span is where the text has it, and the cursor
-- is behind it.
pub identifier_node-Ensures :
    {text : Text} {from : ℕ} {c : Cursor} (flag : Bool)
    → Onward text from c
    → Ensures (Yields text (suc c.pos) (IdentifierIn text)) (identifier_node flag c)
unfolding identifier_node
identifier_node-Ensures {c = c} flag o =
    rw (parse_identifier-identifier_in c) (identifier_in-Ensures flag (drop c.pos c.source) o refl)
