-- ===== src/Identifier/Grammar.antt =====
-- The grammar `[a-zA-Z][a-zA-Z0-9_-]*` of at most 256 characters, and what the validator accepts.
use ftllex_engine.Base.{
  ℕ, suc, ◌+◌, ◌≤◌, ◌<◌, ◌≡◌, refl, ap, ◌∙◌, subst, sym, ◌↔◌, ◌⊎◌, inl, inr, true, [], ◌∷◌, ◌++◌,
  Text, All, length, length-append, Bool-cases, ◌==◌, arith,
}
use ftllex_engine.Identifier.{
  max_identifier_length, is_identifier_start, is_identifier_char, continuation_match,
  is_valid_identifier,
}

-- `EBNF: Identifier ::= [a-zA-Z] [a-zA-Z0-9_-]*`, with the limit on the length.
pub record IsIdentifier (name : Text) : Type 0 where
  pub first : ℕ
  pub rest : Text
  pub shape : name ≡ first ∷ rest
  pub starts : is_identifier_start first ≡ true
  pub continues : All (λ c. is_identifier_char c ≡ true) rest
  pub fits : length name ≤ max_identifier_length

abbrev pub Continues : Text → Type 0
Continues = All (λ c. is_identifier_char c ≡ true)

abbrev newline : Text
newline = b'\n' ∷ []

-- What the pattern accepts behind the first character.
match_cases :
    (text : Text)
    → continuation_match text ≡ true
    → Continues text ⊎ ((init : Text) × (text ≡ init ++ newline) × Continues init)
unfolding continuation_match is_identifier_char
match_cases [] h = inl tt
match_cases (c ∷ []) h = elim (Bool-cases (c == b'\n')) [
  | inl t ↦ inr ([], ground arith, tt)
  | inr f ↦ inl (ground arith, tt)
]
match_cases (c ∷ d ∷ text) h =
    let here : is_identifier_char c ≡ true = ground arith in
    elim (match_cases (d ∷ text) (ground arith)) [
      | inl all ↦ inl (here, all)
      | inr (init, e, all) ↦ inr (c ∷ init, ap (◌∷◌ c) e, (here, all))
    ]

match_all : (text : Text) → Continues text → continuation_match text ≡ true
unfolding continuation_match is_identifier_char
match_all [] h = refl
match_all (c ∷ []) h = ground (arith, h.0)
match_all (c ∷ d ∷ text) h = ground (arith, h.0, match_all (d ∷ text) h.1)

match_newline : (init : Text) → Continues init → continuation_match (init ++ newline) ≡ true
unfolding continuation_match is_identifier_char
match_newline [] h = refl
match_newline (c ∷ []) h = ground (arith, h.0)
match_newline (c ∷ d ∷ text) h = ground (arith, h.0, match_newline (d ∷ text) h.1)

abbrev Accepted : Text → Type 0
Accepted name =
    IsIdentifier name
    ⊎ ((init : Text) × (name ≡ init ++ newline)
        × IsIdentifier init
        × (length name ≤ max_identifier_length))

valid_parts :
    (c : ℕ) (name : Text)
    → is_valid_identifier (c ∷ name) ≡ true
    → (suc (length name) ≤ max_identifier_length)
      × (is_identifier_start c ≡ true)
      × (continuation_match name ≡ true)
unfolding is_valid_identifier
valid_parts c name h = ground arith

valid_make :
    (c : ℕ) (name : Text)
    → suc (length name) ≤ max_identifier_length
    → is_identifier_start c ≡ true
    → continuation_match name ≡ true
    → is_valid_identifier (c ∷ name) ≡ true
unfolding is_valid_identifier
valid_make c name le s m = ground arith

valid_cases : (name : Text) → is_valid_identifier name ≡ true → Accepted name
valid_cases [] h = absurd (unfold is_valid_identifier in cc)
valid_cases (c ∷ name) h =
    let (le, s, m) = valid_parts c name h in
    elim (match_cases name m) [
      | inl all ↦
          inl (record {
            first = c;
            rest = name;
            shape = refl;
            starts = s;
            continues = all;
            fits = le;
          })
      | inr (init, e, all) ↦
          let shorter : length name ≡ length init + 1 = ap length e ∙ length-append init newline in
          inr (
            c ∷ init,
            ap (◌∷◌ c) e,
            record {
              first = c;
              rest = init;
              shape = refl;
              starts = s;
              continues = all;
              fits = omega arith;
            },
            le,
          )
    ]

valid_of : (name : Text) → Accepted name → is_valid_identifier name ≡ true
valid_of name (inl i) =
    let le = subst (λ x. length x ≤ max_identifier_length) i.shape i.fits in
    rw i.shape (valid_make i.first i.rest le i.starts (match_all i.rest i.continues))
valid_of name (inr (init, e, i, le)) =
    let shape : name ≡ i.first ∷ (i.rest ++ newline) = e ∙ ap (λ x. x ++ newline) i.shape in
    let fits = subst (λ x. length x ≤ max_identifier_length) shape le in
    rw shape
      (valid_make i.first (i.rest ++ newline) fits i.starts (match_newline i.rest i.continues))

-- `is_valid_identifier` accepts exactly the names of the grammar, and besides them each such name
-- with one newline behind it, if that is no longer than 256 characters.
pub is_valid_identifier_iff :
    (name : Text)
    → (is_valid_identifier name ≡ true) ↔ (
        IsIdentifier name
        ⊎ ((init : Text) × (name ≡ init ++ b'\n' ∷ [])
            × IsIdentifier init
            × (length name ≤ max_identifier_length)))
is_valid_identifier_iff name = (valid_cases name, valid_of name)

start_char : (c : ℕ) → is_identifier_start c ≡ true → is_identifier_char c ≡ true
unfolding is_identifier_start is_identifier_char
start_char c h = ground arith

last_of_All : (init : Text) (c : ℕ) → Continues (init ++ c ∷ []) → is_identifier_char c ≡ true
last_of_All [] c h = h.0
last_of_All (x ∷ init) c h = last_of_All init c h.1

pub IsIdentifier-Continues : {name : Text} → IsIdentifier name → Continues name
IsIdentifier-Continues i = subst Continues (sym i.shape) (start_char i.first i.starts, i.continues)

-- A name of the grammar contains no newline, so the two cases exclude one another.
IsIdentifier-concat_newline : (init : Text) → ¬ IsIdentifier (init ++ b'\n' ∷ [])
IsIdentifier-concat_newline init i =
    let h = last_of_All init b'\n' (IsIdentifier-Continues i) in unfold is_identifier_char in cc

-- So the validator is wrong about each name of the grammar of fewer than 256 characters: with a
-- newline behind it, it is no identifier, and is accepted.
pub accepts_trailing_newline :
    (name : Text)
    → IsIdentifier name
    → length name < max_identifier_length
    → (is_valid_identifier (name ++ b'\n' ∷ []) ≡ true) × ¬ IsIdentifier (name ++ b'\n' ∷ [])
accepts_trailing_newline name i lt = (
  valid_of (name ++ newline) (inr (name, refl, i, omega (arith, length-append name newline))),
  IsIdentifier-concat_newline name,
)
