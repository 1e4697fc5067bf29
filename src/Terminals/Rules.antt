-- ===== src/Terminals/Rules.antt =====
-- What the rules without recursion find.
use ftllex_engine.Base.{
  ℕ, suc, ◌≤◌, ◌≡◌, refl, Bool, false, ◌||◌, Text, if-cases, arith, Option, none, some,
}
use ftllex_engine.Cursor.{Cursor, at_char}
use ftllex_engine.Primitives.{Parsed, current_is, is_digit}
use ftllex_engine.Outcome.{
  Outcome, found, missing, or_missing, Ensures, holds, rejected, Ensures-bind, Ensures-weaken,
}
use ftllex_engine.Syntax.{Identifier, InlineExpression, VariantKey}
use ftllex_engine.Syntax.Valid.{IdentifierIn, OptionIn, KeyIn, InlineIn}
use ftllex_engine.Terminals.{
  parse_variable_reference, number_key_at, identifier_key_at, parse_variant_key,
  parse_message_attribute, message_reference_at, string_literal_at, number_literal_at,
  term_attribute, closing,
}
use ftllex_engine.Terminals.Onward.{Onward, Onward-here, Onward-le, step_char-Onward}
use ftllex_engine.Terminals.Literals.{
  ParsedOnward, passed, refused, parse_number-Onward, parse_string_literal-Onward,
}
use ftllex_engine.Terminals.Names.{Yields, identifier_node-Ensures}

or_missing-Ensures {ℓ} :
    {A : Type ℓ} {text : Text} {from : ℕ} {r : Parsed A} (flag : Bool)
    → ParsedOnward text from r
    → Ensures (λ _ d _. Onward text from d) (or_missing flag r)
or_missing-Ensures flag (passed o) = holds o
or_missing-Ensures flag refused = rejected

-- A rule that passes one given character.
pub closing-Ensures {ℓ} :
    {A : Type ℓ} {text : Text} {from : ℕ} {c : Cursor} (k : ℕ) (a : A) (flag : Bool)
    → Onward text from c
    → Ensures (λ b d _. Onward text (suc c.pos) d × (b ≡ a)) (closing k a c flag)
unfolding closing
closing-Ensures {A = A} {text} {from} {c} k a flag o =
    if-cases {A = Outcome A} (Ensures (λ b d _. Onward text (suc c.pos) d × (b ≡ a))) (at_char c k)
      (λ h. holds (step_char-Onward k o h, refl)) (λ _. rejected)

module _ {text : Text} {from : ℕ} {c : Cursor} (flag : Bool) (o : Onward text from c) where
  pub variable_reference-Ensures :
      (levels : ℕ)
      → Ensures (Yields text (suc c.pos) (InlineIn text levels)) (parse_variable_reference flag c)
  unfolding parse_variable_reference InlineIn
  variable_reference-Ensures levels =
      if-cases {A = Outcome InlineExpression}
        (Ensures (Yields text (suc c.pos) (InlineIn text levels))) (at_char c b'$')
        (λ h.
          Ensures-bind (identifier_node-Ensures flag (step_char-Onward b'$' o h))
            λ id d u ((same, ahead, inside), named).
              let (_, before, _) = step_char-Onward b'$' o h in
              holds ((same, omega arith, inside), (named, (omega arith, inside))))
        (λ _. rejected)

  pub string_literal-Ensures :
      (levels : ℕ)
      → Ensures (Yields text (suc c.pos) (InlineIn text levels)) (string_literal_at flag c)
  unfolding string_literal_at InlineIn
  string_literal-Ensures levels =
      Ensures-bind (or_missing-Ensures flag (parse_string_literal-Onward o))
        λ value d u p. holds (p, tt)

  pub number_literal-Ensures :
      (levels : ℕ)
      → Ensures (Yields text (suc c.pos) (InlineIn text levels)) (number_literal_at flag c)
  unfolding number_literal_at InlineIn
  number_literal-Ensures levels =
      Ensures-bind (or_missing-Ensures flag (parse_number-Onward o)) λ raw d u p. holds (p, tt)

  pub term_attribute-Ensures : Ensures (Yields text c.pos (OptionIn text)) (term_attribute flag c)
  unfolding term_attribute
  term_attribute-Ensures =
      if-cases {A = Outcome (Option Identifier)} (Ensures (Yields text c.pos (OptionIn text)))
        (at_char c b'.')
        (λ h.
          Ensures-bind (identifier_node-Ensures flag (step_char-Onward b'.' o h))
            λ id d u (on, named).
              let (_, before, _) = step_char-Onward b'.' o h in
              holds (Onward-le on (omega arith), named))
        (λ _. holds (Onward-here o, tt))

  number_key-Ensures : Ensures (Yields text (suc c.pos) (KeyIn text)) (number_key_at flag c)
  unfolding number_key_at
  number_key-Ensures =
      Ensures-bind (or_missing-Ensures flag (parse_number-Onward o)) λ raw d u p. holds (p, tt)

  identifier_key-Ensures : Ensures (Yields text (suc c.pos) (KeyIn text)) (identifier_key_at flag c)
  unfolding identifier_key_at
  identifier_key-Ensures = Ensures-bind (identifier_node-Ensures flag o) λ id d u p. holds p

  pub variant_key-Ensures :
      Ensures (Yields text (suc c.pos) (KeyIn text)) (parse_variant_key flag c)
  unfolding parse_variant_key
  variant_key-Ensures =
      if-cases {A = Outcome VariantKey} (Ensures (Yields text (suc c.pos) (KeyIn text)))
        (current_is is_digit c || at_char c b'-') (λ _. retried number_key-Ensures)
        (λ _. identifier_key-Ensures)
    where
      retried :
          {r : Outcome VariantKey}
          → Ensures (Yields text (suc c.pos) (KeyIn text)) r
          → Ensures (Yields text (suc c.pos) (KeyIn text)) (elim r as (λ _. Outcome VariantKey) [
            | missing u ↦ identifier_key_at flag c
            | other ↦ other
          ])
      retried (holds p) = holds p
      retried rejected = identifier_key-Ensures

-- The attribute of a message reference, where there is one.
attribute_of-OptionIn :
    {text : Text} {from : ℕ} {d : Cursor} {r : Outcome Identifier}
    → Onward text from d
    → Ensures (Yields text from (IdentifierIn text)) r
    → let a = elim r as (λ _. Option Identifier × Cursor) [
      | found id e _ ↦ (some id, e)
      | _ ↦ (none, d)
    ] in
      Onward text from a.1 × OptionIn text a.0
attribute_of-OptionIn o (holds p) = p
attribute_of-OptionIn o rejected = (o, tt)

message_attribute-OptionIn :
    {text : Text} {from : ℕ} {c : Cursor}
    → Onward text from c
    → Onward text c.pos (parse_message_attribute c).1 × OptionIn text (parse_message_attribute c).0
unfolding parse_message_attribute
message_attribute-OptionIn {text} {c = c} o =
    if-cases {A = Option Identifier × Cursor} (λ a. Onward text c.pos a.1 × OptionIn text a.0)
      (at_char c b'.')
      (λ h.
        let (same, before, inside) = step_char-Onward b'.' o h in
        attribute_of-OptionIn (same, omega arith, inside)
          (Ensures-weaken (identifier_node-Ensures false (step_char-Onward b'.' o h))
            λ id d _ (on, named). (Onward-le on (omega arith), named)))
      (λ _. (Onward-here o, tt))

pub message_reference-Ensures :
    {text : Text} {from : ℕ} {c : Cursor} (levels start : ℕ) (id : Identifier) (flag : Bool)
    → Onward text from c
    → start ≤ c.pos
    → IdentifierIn text id
    → Ensures (Yields text c.pos (InlineIn text levels)) (message_reference_at start id c flag)
unfolding message_reference_at InlineIn
message_reference-Ensures levels start id flag o le named =
    let ((same, ahead, inside), attribute) = message_attribute-OptionIn o in
    holds ((same, ahead, inside), (named, attribute, (omega arith, inside)))
