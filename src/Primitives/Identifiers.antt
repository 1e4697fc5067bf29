-- ===== src/Primitives/Identifiers.antt =====
-- `parse_identifier` against the grammar of identifiers.
use ftllex_engine.Base.{
  ℕ, suc, ◌+◌, ◌-◌, ◌≤◌, ◌≡◌, refl, ap, sym, ◌∙◌, subst, ◌↔◌, Bool, true, false, [], ◌∷◌, Text,
  length, length-drop, drop, take, All, append-nil, take_while, drop_while,
  take_while-append-drop_while, take_while-All, take_while-append, take-length-append, ltb,
  if◌then◌else◌, Bool-cases, inl, inr, arith,
}
use ftllex_engine.Cursor.{Cursor, step, slice_to}
use ftllex_engine.Identifier.{max_identifier_length, is_identifier_start, is_identifier_char}
use ftllex_engine.Identifier.Grammar.{IsIdentifier}
use ftllex_engine.Primitives.{
  Parsed, parsed, fail, current_is, limited_run, left, identifier_end, parse_identifier,
  expected_identifier, identifier_too_long,
}
use ftllex_engine.Primitives.Runs.{
  forward, Remains, current_is_at, current_is_end, step-forward, forward_at, run_end,
  limited_run-run_end,
}

-- What the grammar says of the text that is left: the longest identifier, refused over the limit.
abbrev pub identifier_in : Cursor → Text → Parsed Text
identifier_in c [] = fail expected_identifier c
identifier_in c (x ∷ xs) =
    let name = take_while is_identifier_char xs in
    if is_identifier_start x
    then (if ltb max_identifier_length (1 + length name)
        then fail identifier_too_long (forward c (max_identifier_length + 1))
        else parsed (x ∷ name) (forward c (1 + length name)))
    else fail expected_identifier c

start_of :
    (c : Cursor)
    → current_is is_identifier_start c ≡ true
    → parse_identifier c
      ≡ identifier_end c.pos c
          (limited_run is_identifier_char max_identifier_length c.pos (left (step c)) (step c))
unfolding parse_identifier
start_of c h = rw h

no_start :
    (c : Cursor)
    → current_is is_identifier_start c ≡ false
    → parse_identifier c ≡ fail expected_identifier c
unfolding parse_identifier
no_start c h = rw h

slice_of :
    (c : Cursor) (x : ℕ) (xs : Text) (n : ℕ)
    → Remains c (x ∷ xs)
    → slice_to (record { source = c.source; pos = c.pos }) (c.pos + 1 + n) ≡ x ∷ take n xs
unfolding slice_to
slice_of c x xs n h = let e : c.pos + 1 + n - c.pos ≡ suc n = omega arith in rw (e, h)

pub take_while-take :
    (test : ℕ → Bool) (xs : Text) → take (length (take_while test xs)) xs ≡ take_while test xs
take_while-take test xs =
    sym (ap (take (length (take_while test xs))) (take_while-append-drop_while test xs))
    ∙ take-length-append (take_while test xs) (drop_while test xs)

-- The end of the run, as the grammar has it.
run_end-identifier_in :
    (c : Cursor) (x : ℕ) (xs : Text)
    → Remains c (x ∷ xs)
    → is_identifier_start x ≡ true
    → identifier_end c.pos c (
        run_end max_identifier_length c.pos
          (forward c 1)
          (length (take_while is_identifier_char xs)))
      ≡ identifier_in c (x ∷ xs)
run_end-identifier_in c x xs h s = rw s (
    let n = length (take_while is_identifier_char xs) in
    let a : c.pos + 1 + n - c.pos ≡ 1 + n = omega arith in
    let b : c.pos + 1 + (256 + 1 + c.pos - (c.pos + 1)) ≡ c.pos + 257 = omega arith in
    let d : c.pos + 1 + n ≡ c.pos + (1 + n) = omega arith in
    rw a (elim (Bool-cases (ltb 256 (1 + n))) [
      | inl over ↦ rw over (rw b)
      | inr fits ↦
          rw fits (rw (slice_of c x xs n h) (rw (take_while-take is_identifier_char xs) (rw d)))
    ]))

parse_identifier_at :
    (c : Cursor) (xs : Text) → Remains c xs → parse_identifier c ≡ identifier_in c xs
parse_identifier_at c [] h = no_start c (current_is_end is_identifier_start c h)
parse_identifier_at c (x ∷ xs) h = elim (Bool-cases (is_identifier_start x)) [
  | inr no_match ↦ no_start c (current_is_at is_identifier_start c x xs h ∙ no_match) ∙ rw no_match
  | inl match ↦
      let e = step-forward c x xs h in
      let room : length xs ≤ length c.source - (c.pos + 1) =
        omega (arith, ap length (forward_at c x xs h), length-drop (c.pos + 1) c.source) in
      start_of c (current_is_at is_identifier_start c x xs h ∙ match)
      ∙ rw e (
          ap (identifier_end c.pos c) (
            limited_run-run_end is_identifier_char max_identifier_length c.pos _ (forward c 1) xs
              (forward_at c x xs h) room (omega arith) (omega arith))
          ∙ run_end-identifier_in c x xs h match)
]

-- Remains every cursor `parse_identifier` returns the longest identifier at the front of the text that
-- is left with the cursor behind it; it refuses a text that does not begin with a letter, at the
-- cursor, and an identifier of more than 256 characters, behind its 257th character.
pub parse_identifier-identifier_in :
    (c : Cursor) → parse_identifier c ≡ identifier_in c (drop c.pos c.source)
parse_identifier-identifier_in c = parse_identifier_at c (drop c.pos c.source) refl

abbrev front : Text → Cursor
front source = record { source = source; pos = 0 }

abbrev back : Text → Cursor
back source = record { source = source; pos = length source }

whole_name :
    (x : ℕ) (xs : Text)
    → identifier_in (front (x ∷ xs)) (x ∷ xs) ≡ parsed (x ∷ xs) (back (x ∷ xs))
    → (is_identifier_start x ≡ true)
      × (take_while is_identifier_char xs ≡ xs)
      × (1 + length (take_while is_identifier_char xs) ≤ max_identifier_length)
whole_name x xs h = ground arith

name_whole :
    (x : ℕ) (xs : Text)
    → is_identifier_start x ≡ true
    → take_while is_identifier_char xs ≡ xs
    → length (x ∷ xs) ≤ max_identifier_length
    → identifier_in (front (x ∷ xs)) (x ∷ xs) ≡ parsed (x ∷ xs) (back (x ∷ xs))
name_whole x xs s e le =
    let one : 0 + (1 + length xs) ≡ suc (length xs) = omega arith in
    rw s (rw e (rw one (ground arith)))

parse_IsIdentifier :
    (name : Text) → parse_identifier (front name) ≡ parsed name (back name) → IsIdentifier name
parse_IsIdentifier [] h =
    let no_name = sym (parse_identifier-identifier_in (front [])) ∙ h in absurd cc
parse_IsIdentifier (x ∷ xs) h =
    let (s, e, le) = whole_name x xs (sym (parse_identifier-identifier_in (front (x ∷ xs))) ∙ h) in
    record {
      first = x;
      rest = xs;
      shape = refl;
      starts = s;
      continues =
          subst (All (λ c. is_identifier_char c ≡ true)) e (take_while-All is_identifier_char xs);
      fits = omega (arith, ap length e);
    }

IsIdentifier-parse :
    (name : Text) → IsIdentifier name → parse_identifier (front name) ≡ parsed name (back name)
IsIdentifier-parse name i =
    let e : take_while is_identifier_char i.rest ≡ i.rest =
      ap (take_while is_identifier_char) (sym (append-nil i.rest))
      ∙ take_while-append is_identifier_char i.rest [] i.continues tt in
    parse_identifier-identifier_in (front name)
    ∙ subst (λ n. identifier_in (front n) n ≡ parsed n (back n)) (sym i.shape)
        (name_whole i.first i.rest i.starts e
          (subst (λ n. length n ≤ max_identifier_length) i.shape i.fits))

-- The parser reads a text as one identifier, to its end, exactly if the text is a name of the
-- grammar: a letter, then letters, digits, `-` and `_`, at most 256 characters in all.
pub parse_identifier-eq-parsed_iff :
    (name : Text)
    → (parse_identifier (record { source = name; pos = 0 })
        ≡ parsed name (record { source = name; pos = length name }))
      ↔ IsIdentifier name
parse_identifier-eq-parsed_iff name = (parse_IsIdentifier name, IsIdentifier-parse name)
