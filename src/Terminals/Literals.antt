-- ===== src/Terminals/Literals.antt =====
-- Numbers, string literals and identifiers: what is read is behind the cursor, and an identifier is
-- where its span says.
use ftllex_engine.Base.{
  ℕ, zero, suc, ◌≤◌, ◌≡◌, inl, inr, true, not, ◌&&◌, ◌||◌, [], ◌∷◌, ◌++◌, Text, length, ltb, ◌==◌,
  if◌then◌else◌, if-elim, if-cases, Bool-elim, ok, raised, Exn, Exn-cases, arith,
}
use ftllex_engine.Cursor.{Cursor, current, at_char, step, slice_to, slice_ahead}
use ftllex_engine.Primitives.{
  Parsed, parsed, error, ParseError, Message, fail, current_is, Run, ended, overlong, limited_run,
  left, is_digit, decimal_part, number_rest, parse_number, max_number_length, unicode_escape,
  escape_of, parse_escape_sequence, string_loop, parse_string_literal, all_hex, hex_value,
  is_surrogate, max_code_point, max_string_literal_length,
}
use ftllex_engine.Terminals.Onward.{
  Onward, Onward-here, Onward-le, step-Onward, step_char-Onward, current_is-inside, EndsOnward,
  ends, over, limited_run-EndsOnward, limited_run-next, moved-Onward,
}

-- A result is at or behind the offset.
pub data ParsedOnward {ℓ} {A : Type ℓ} (text : Text) (from : ℕ) : Parsed A → Type ℓ where
  passed : {a : A} {d : Cursor} → Onward text from d → ParsedOnward text from (parsed a d)
  refused : {e : ParseError} → ParsedOnward text from (error e)

pub ParsedOnward-le {ℓ} :
    {A : Type ℓ} {text : Text} {from to : ℕ} {r : Parsed A}
    → ParsedOnward text to r
    → from ≤ to
    → ParsedOnward text from r
ParsedOnward-le (passed o) le = passed (Onward-le o le)
ParsedOnward-le refused le = refused

ParsedOnward-run :
    (limit start : ℕ) {text : Text} {from : ℕ} {r : Run}
    → EndsOnward text from r
    → ParsedOnward text from (elim r as (λ _. Parsed Text) [
      | ended d ↦ parsed (slice_to (record { source = d.source; pos = start }) d.pos) d
      | overlong d ↦ error (record { message = Message.number_too_long; cursor = d })
    ])
ParsedOnward-run limit start (ends h) = passed h
ParsedOnward-run limit start over = refused

decimal_part-Onward :
    (start : ℕ) {text : Text} {from : ℕ} {c : Cursor}
    → Onward text from c
    → ParsedOnward text from (decimal_part start c)
unfolding decimal_part
decimal_part-Onward start {text} {from} {c} o =
    if-cases {A = Parsed Text} (ParsedOnward text from) (current_is is_digit c)
      (λ _.
        ParsedOnward-run max_number_length start
          (limited_run-EndsOnward is_digit max_number_length start (left c) o))
      (λ _. refused)

number_rest-Onward :
    (start : ℕ) {text : Text} {from : ℕ} {r : Run}
    → EndsOnward text from r
    → ParsedOnward text from (number_rest start r)
unfolding number_rest
number_rest-Onward start over = refused
number_rest-Onward start {text} {from} (ends {d} h) =
    let (_, a, _) = h in
    let (_, b, _) = step-Onward h in
    if-cases {A = Parsed Text} (ParsedOnward text from) (at_char d b'.')
      (λ _. decimal_part-Onward start (Onward-le (step-Onward h) (omega arith))) (λ _. passed h)

-- The digits of a number from `d` on, whose first one is there.
number_from-Onward :
    (start : ℕ) {text : Text} {from : ℕ} {d : Cursor}
    → Onward text from d
    → current_is is_digit d ≡ true
    → ParsedOnward text
        (suc d.pos)
        (number_rest start (limited_run is_digit max_number_length start (left d) d))
number_from-Onward start o digit = number_rest-Onward start (
    limited_run-next is_digit max_number_length start _ o digit
      (let lt = current_is-inside is_digit _ digit in omega arith))

pub parse_number-Onward :
    {text : Text} {from : ℕ} {c : Cursor}
    → Onward text from c
    → ParsedOnward text (suc c.pos) (parse_number c)
unfolding parse_number
parse_number-Onward {text} {from} {c} o =
    if-cases {A = Cursor}
      (λ d. ParsedOnward text (suc c.pos) (
        if current_is is_digit d
        then number_rest c.pos (limited_run is_digit max_number_length c.pos (left d) d)
        else fail Message.expected_number d))
      (at_char c b'-') (λ _. digits (step c) (step-Onward o)) (λ _. digits c (Onward-here o))
  where
    digits :
        (d : Cursor)
        → Onward text c.pos d
        → ParsedOnward text (suc c.pos) (
            if current_is is_digit d
            then number_rest c.pos (limited_run is_digit max_number_length c.pos (left d) d)
            else fail Message.expected_number d)
    digits d h =
        if-cases {A = Parsed Text} (ParsedOnward text (suc c.pos)) (current_is is_digit d)
          (λ digit.
            ParsedOnward-le (number_from-Onward c.pos h digit) (let (_, a, _) = h in omega arith))
          (λ _. refused)

unicode_escape-Onward :
    (size : ℕ) {text : Text} {from : ℕ} {c : Cursor}
    → Onward text from c
    → ParsedOnward text from (unicode_escape size c)
unfolding unicode_escape
unicode_escape-Onward size {text} {from} {c} o =
    let digits = slice_ahead c size in
    let code_point = hex_value 0 digits in
    if-cases {A = Parsed ℕ} (ParsedOnward text from)
      (ltb (length digits) size || not (all_hex digits)) (λ _. refused)
      (λ _.
        if-cases {A = Parsed ℕ} (ParsedOnward text from)
          (size == 6 && ltb max_code_point code_point) (λ _. refused)
          (λ _.
            if-cases {A = Parsed ℕ} (ParsedOnward text from) (is_surrogate code_point)
              (λ _. refused) (λ _. passed (moved-Onward size o))))

escape_of-Onward :
    (ch : ℕ) {text : Text} {from : ℕ} {c : Cursor}
    → Onward text from c
    → ParsedOnward text from (escape_of ch c)
unfolding escape_of
escape_of-Onward ch {text} {from} {c} o =
    let on : (x : ℕ) → ParsedOnward text from (parsed x (step c)) =
      λ _. passed (moved-Onward 1 o) in
    let P : Parsed ℕ → Type 0 = ParsedOnward text from in
    if-elim P (ch == b'"') _ _ (on b'"') (
      if-elim P (ch == b'\\') _ _ (on b'\\') (
        if-elim P (ch == b'n') _ _ (on b'\n') (
          if-elim P (ch == b't') _ _ (on b'\t') (
            if-elim P (ch == b'u') _ _ (unicode_escape-Onward 4 (moved-Onward 1 o))
              (if-elim P (ch == b'U') _ _ (unicode_escape-Onward 6 (moved-Onward 1 o)) refused)))))

parse_escape_sequence-Onward :
    {text : Text} {from : ℕ} {c : Cursor}
    → Onward text from c
    → ParsedOnward text from (parse_escape_sequence c)
unfolding parse_escape_sequence
parse_escape_sequence-Onward {text} {from} {c} o = at_current (current c)
  where
    at_current :
        (r : Exn ℕ)
        → ParsedOnward text from (elim r as (λ _. Parsed ℕ) [
          | raised e ↦ fail Message.unexpected_eof_in_escape c
          | ok ch ↦ escape_of ch c
        ])
    at_current (raised e) = refused
    at_current (ok ch) = escape_of-Onward ch o

ParsedOnward-bind :
    {text : Text} {from : ℕ} {r : Parsed ℕ} (f : ℕ → Cursor → Parsed Text)
    → ParsedOnward text from r
    → ((x : ℕ) (d : Cursor) → Onward text from d → ParsedOnward text from (f x d))
    → ParsedOnward text from
        (elim r as (λ _. Parsed Text) [ error e ↦ error e | parsed x d ↦ f x d ])
ParsedOnward-bind f (passed {a} {d} o) k = k a d o
ParsedOnward-bind f refused k = refused

string_loop-Onward :
    (fuel : ℕ) (chars : Text) {text : Text} {from : ℕ} {c : Cursor}
    → Onward text from c
    → ParsedOnward text from (string_loop fuel chars c)
unfolding string_loop
string_loop-Onward zero chars o = refused
string_loop-Onward (suc fuel) chars {text} {from} {c} o = elim (Exn-cases (current c)) [
  | inl (e, h) ↦ rw (h, string_loop) refused
  | inr (ch, h) ↦
      rw (h, string_loop)
        (let next = moved-Onward 1 o in
          let P : Parsed Text → Type 0 = ParsedOnward text from in
          Bool-elim P (ltb max_string_literal_length (length chars)) (λ _. refused)
            (λ _.
              Bool-elim P (ch == b'"') (λ _. passed next)
                (λ _.
                  Bool-elim P (ch == b'\n') (λ _. refused)
                    (λ _.
                      Bool-elim P (ch == b'\\')
                        (λ _.
                          ParsedOnward-bind (λ x d. string_loop fuel (chars ++ x ∷ []) d)
                            (parse_escape_sequence-Onward next)
                            (λ x d on. string_loop-Onward fuel (chars ++ x ∷ []) on))
                        (λ _. string_loop-Onward fuel (chars ++ ch ∷ []) next)))))
]

pub parse_string_literal-Onward :
    {text : Text} {from : ℕ} {c : Cursor}
    → Onward text from c
    → ParsedOnward text (suc c.pos) (parse_string_literal c)
unfolding parse_string_literal
parse_string_literal-Onward {text} {c = c} o =
    if-cases {A = Parsed Text} (ParsedOnward text (suc c.pos)) (at_char c b'"')
      (λ quote. string_loop-Onward (left (step c)) [] (step_char-Onward b'"' o quote))
      (λ _. refused)
