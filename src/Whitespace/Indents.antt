-- ===== src/Whitespace/Indents.antt =====
-- Where a pattern starts, and how far it is indented.
use ftllex_engine.Base.{
  ℕ, zero, suc, ◌+◌, ◌≤◌, ◌≡◌, refl, ap, sym, ◌∙◌, inl, inr, true, false, [], ◌∷◌, Text, length,
  drop, take_while, ◌==◌, if◌then◌else◌, Bool-cases, arith,
}
use ftllex_engine.Cursor.{Cursor, step, at_char}
use ftllex_engine.Primitives.{left}
use ftllex_engine.Primitives.Runs.{
  forward, Remains, step-forward, forward_at, forward-forward, at_char_at, at_char_end,
}
use ftllex_engine.Whitespace.{
  behind_newlines, count_indent, skip_blank_inline, skip_multiline_pattern_start,
}
use ftllex_engine.Whitespace.Lines.{
  leading, behind, continues, forward_zero, Remains-newlines, newlines-forward, length-left,
  continuation_at,
}

indent_stop : (fuel n : ℕ) (c : Cursor) → at_char c b' ' ≡ false → count_indent fuel n c ≡ (c, n)
unfolding count_indent
indent_stop zero n c h = refl
indent_stop (suc fuel) n c h = rw (h, count_indent) refl

indent_step :
    (fuel n : ℕ) (c : Cursor)
    → at_char c b' ' ≡ true
    → count_indent (suc fuel) n c ≡ count_indent fuel (n + 1) (step c)
unfolding count_indent
indent_step fuel n c h = rw (h, count_indent) refl

-- A cursor and a count, both further on.
abbrev counted : Cursor → ℕ → ℕ → Cursor × ℕ
counted c n k = (forward c k, n + k)

counted_zero : (c : Cursor) (n : ℕ) → (c, n) ≡ counted c n 0
counted_zero c n = let a = sym (forward_zero c) in let b : n ≡ n + 0 = omega arith in cc

counted_step : (c : Cursor) (n k : ℕ) → counted (forward c 1) (n + 1) k ≡ counted c n (suc k)
counted_step c n k =
    let a : c.pos + 1 + k ≡ c.pos + suc k = omega arith in
    let b : n + 1 + k ≡ n + suc k = omega arith in rw (a, b) refl

count_indent-forward :
    (fuel n : ℕ) (c : Cursor) (xs : Text)
    → Remains c xs
    → length xs ≤ fuel
    → count_indent fuel n c ≡ counted c n (length (leading b' ' xs))
unfolding take_while
count_indent-forward fuel n c [] h le =
    indent_stop fuel n c (at_char_end c b' ' h) ∙ counted_zero c n
count_indent-forward zero n c (x ∷ xs) h le = absurd (omega arith)
count_indent-forward (suc fuel) n c (x ∷ xs) h le = elim (Bool-cases (x == b' ')) [
  | inr no_match ↦
      rw no_match
        (indent_stop (suc fuel) n c (at_char_at c b' ' x xs h ∙ no_match) ∙ counted_zero c n)
  | inl match ↦ rw match (
      indent_step fuel n c (at_char_at c b' ' x xs h ∙ match)
      ∙ ap (count_indent fuel (n + 1)) (step-forward c x xs h)
      ∙ count_indent-forward fuel (n + 1) (forward c 1) xs (forward_at c x xs h) (omega arith)
      ∙ counted_step c n (length (leading b' ' xs)))
]

-- Where a pattern starts, and its indentation, at a cursor in front of the given text.
abbrev pub pattern_start : Cursor → Text → Cursor × ℕ
pattern_start d [] = (d, 0)
pattern_start d (x ∷ xs) =
    let indent = length (leading b' ' (behind b'\n' xs)) in
    if continues (x ∷ xs)
    then (forward d (1 + length (leading b'\n' xs) + indent), indent)
    else (d, 0)

indent_after :
    (d : Cursor) (x : ℕ) (xs : Text)
    → Remains d (x ∷ xs)
    → count_indent (left (behind_newlines d)) 0 (behind_newlines d) ≡ (
      forward d (1 + length (leading b'\n' xs) + length (leading b' ' (behind b'\n' xs))),
      length (leading b' ' (behind b'\n' xs)),
    )
indent_after d x xs h =
    let e = behind_newlines d in
    let k = length (leading b' ' (behind b'\n' xs)) in
    let next = Remains-newlines d x xs h in
    count_indent-forward (left e) 0 e (behind b'\n' xs) next (length-left e (behind b'\n' xs) next)
    ∙ ap (λ f. counted f 0 k) (newlines-forward d x xs h)
    ∙ (let a = forward-forward d (1 + length (leading b'\n' xs)) k in
        let b : 0 + k ≡ k = omega arith in cc)

start_at :
    (c : Cursor) (xs : Text)
    → Remains (skip_blank_inline c) xs
    → skip_multiline_pattern_start c ≡ pattern_start (skip_blank_inline c) xs
unfolding skip_multiline_pattern_start
start_at c [] h = rw (at_char_end (skip_blank_inline c) b'\n' h) refl
start_at c (x ∷ xs) h =
    let d = skip_blank_inline c in
    rw (at_char_at d b'\n' x xs h) (
      rw (continuation_at d (x ∷ xs) h) (
        rw (indent_after d x xs h)
          (elim (Bool-cases (x == b'\n')) [ inl t ↦ rw t refl | inr f ↦ rw f refl ])))

-- At every cursor `skip_multiline_pattern_start` skips the spaces; if a continuation line follows there,
-- it skips the newlines and the indentation as well and returns how many spaces the indentation has,
-- and else it returns no indentation.
pub skip_multiline_pattern_start-pattern_start :
    (c : Cursor)
    → skip_multiline_pattern_start c
      ≡ pattern_start
          (skip_blank_inline c)
          (drop (skip_blank_inline c).pos (skip_blank_inline c).source)
skip_multiline_pattern_start-pattern_start c =
    start_at c (drop (skip_blank_inline c).pos (skip_blank_inline c).source) refl
