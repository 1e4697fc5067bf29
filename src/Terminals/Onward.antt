-- ===== src/Terminals/Onward.antt =====
-- The characters and blanks that the parsers pass: the cursor goes forward over the same text.
use ftllex_engine.Base.{
  ℕ, zero, suc, ◌+◌, ◌-◌, ◌≤◌, ◌<◌, ◌≡◌, ap, ◌∙◌, Bool, true, false, Text, length, ltb, if-elim,
  Bool-elim, ok, arith,
}
use ftllex_engine.Cursor.{
  Cursor, current, is_eof, at_char, moved, step, skip_spaces, is_blank, is_space,
}
use ftllex_engine.Cursor.Scan.{Skips, skip-Skips}
use ftllex_engine.Primitives.{current_is, Run, ended, overlong, limited_run}
use ftllex_engine.Whitespace.{skip_blank, skip_blank_inline, skip_run, count_indent}
use ftllex_engine.Terminals.{behind_argument}

-- The cursor is on the text, at or behind the offset.
abbrev pub Onward : Text → ℕ → Cursor → Type 0
Onward text from c = (c.source ≡ text) × (from ≤ c.pos) × (c.pos ≤ length text)

pub Onward-here : {text : Text} {from : ℕ} {c : Cursor} → Onward text from c → Onward text c.pos c
Onward-here (same, ahead, inside) = (same, omega arith, inside)

pub Onward-le :
    {text : Text} {from to : ℕ} {c : Cursor} → Onward text to c → from ≤ to → Onward text from c
Onward-le (same, ahead, inside) le = (same, omega arith, inside)

pub at_char-inside : (c : Cursor) (k : ℕ) → at_char c k ≡ true → c.pos < length c.source
unfolding at_char is_eof
at_char-inside c k h = ground arith

pub current_is-inside :
    (test : ℕ → Bool) (c : Cursor) → current_is test c ≡ true → c.pos < length c.source
unfolding current_is current is_eof
current_is-inside test c h = ground arith

pub current-inside : (c : Cursor) (ch : ℕ) → current c ≡ ok ch → c.pos < length c.source
unfolding current is_eof
current-inside c ch h = ground arith

pub is_eof-inside : (c : Cursor) → is_eof c ≡ false → c.pos < length c.source
unfolding is_eof
is_eof-inside c h = ground arith

pub step-Onward :
    {text : Text} {from : ℕ} {c : Cursor} → Onward text from c → Onward text c.pos (step c)
unfolding moved
step-Onward (same, ahead, inside) =
    (same, ground (arith, ap length same), ground (arith, ap length same))

-- A step off a character.
pub next-Onward :
    {text : Text} {from : ℕ} {c : Cursor}
    → Onward text from c
    → c.pos < length c.source
    → Onward text (suc c.pos) (step c)
unfolding moved
next-Onward (same, ahead, inside) lt =
    (same, ground (arith, ap length same), ground (arith, ap length same))

pub step_char-Onward :
    {text : Text} {from : ℕ} {c : Cursor} (k : ℕ)
    → Onward text from c
    → at_char c k ≡ true
    → Onward text (suc c.pos) (step c)
step_char-Onward {c = c} k o h = next-Onward o (at_char-inside c k h)

pub Skips-Onward :
    (test : ℕ → Bool) {text : Text} {from : ℕ} {c d : Cursor}
    → Onward text from c
    → Skips test c d
    → Onward text c.pos d
unfolding Skips
Skips-Onward test (same, ahead, inside) (e, s) =
    (e ∙ same, s.forward, omega (arith, s.inside, ap length same))

pub skip_spaces-Onward :
    {text : Text} {from : ℕ} {c : Cursor} → Onward text from c → Onward text c.pos (skip_spaces c)
skip_spaces-Onward {c = c} (same, ahead, inside) =
    let (spaces, _, _) = skip-Skips c (omega (arith, ap length same)) in
    Skips-Onward is_space (same, ahead, inside) spaces

pub skip_blank_inline-Onward :
    {text : Text} {from : ℕ} {c : Cursor}
    → Onward text from c
    → Onward text c.pos (skip_blank_inline c)
unfolding skip_blank_inline
skip_blank_inline-Onward o = skip_spaces-Onward o

pub skip_blank-Onward :
    {text : Text} {from : ℕ} {c : Cursor} → Onward text from c → Onward text c.pos (skip_blank c)
unfolding skip_blank
skip_blank-Onward {c = c} (same, ahead, inside) =
    let (_, blanks, _) = skip-Skips c (omega (arith, ap length same)) in
    Skips-Onward is_blank (same, ahead, inside) blanks

pub behind_argument-Onward :
    {text : Text} {from : ℕ} {c : Cursor}
    → Onward text from c
    → Onward text c.pos (behind_argument c)
unfolding behind_argument
behind_argument-Onward {text} {c = c} o =
    let (a, b, i) = skip_blank-Onward o in
    let (a1, b1, i1) = step-Onward (skip_blank-Onward o) in
    if-elim {A = Cursor} (λ d. Onward text c.pos d) (at_char (skip_blank c) b',') _ _
      (Onward-le (skip_blank-Onward (step-Onward (skip_blank-Onward o))) (omega arith))
      (skip_blank-Onward o)

-- The loops over one character or class.
pub skip_run-Onward :
    (k fuel : ℕ) {text : Text} {from : ℕ} {c : Cursor}
    → Onward text from c
    → Onward text c.pos (skip_run k fuel c)
unfolding skip_run
skip_run-Onward k zero o = Onward-here o
skip_run-Onward k (suc fuel) {text} {c = c} o =
    let (_, b, _) = step-Onward o in
    Bool-elim {A = Cursor} (Onward text c.pos) (at_char c k)
      (λ _. Onward-le (skip_run-Onward k fuel (step-Onward o)) b) (λ _. Onward-here o)

pub count_indent-Onward :
    (fuel n : ℕ) {text : Text} {from : ℕ} {c : Cursor}
    → Onward text from c
    → Onward text c.pos (count_indent fuel n c).0
unfolding count_indent
count_indent-Onward zero n o = Onward-here o
count_indent-Onward (suc fuel) n {text} {c = c} o =
    let (_, b, _) = step-Onward o in
    Bool-elim {A = Cursor × ℕ} (λ r. Onward text c.pos r.0) (at_char c b' ')
      (λ _. Onward-le (count_indent-Onward fuel (n + 1) (step-Onward o)) b) (λ _. Onward-here o)

-- A run that ends within its limit ends at a later cursor.
pub data EndsOnward (text : Text) (from : ℕ) : Run → Type 0 where
  ends : {d : Cursor} → Onward text from d → EndsOnward text from (ended d)
  over : {d : Cursor} → EndsOnward text from (overlong d)

pub limited_run-EndsOnward :
    (test : ℕ → Bool) (limit start fuel : ℕ) {text : Text} {from : ℕ} {c : Cursor}
    → Onward text from c
    → EndsOnward text from (limited_run test limit start fuel c)
unfolding limited_run
limited_run-EndsOnward test limit start zero o = ends o
limited_run-EndsOnward test limit start (suc fuel) {text} {from} {c} o =
    let (_, a, _) = o in
    let (_, b, _) = step-Onward o in
    Bool-elim {A = Run} (EndsOnward text from) (current_is test c)
      (λ _.
        Bool-elim {A = Run} (EndsOnward text from) (ltb limit ((step c).pos - start)) (λ _. over)
          (λ _.
            limited_run-EndsOnward test limit start fuel (Onward-le (step-Onward o) (omega arith))))
      (λ _. ends o)

-- A run of at least one character.
pub limited_run-next :
    (test : ℕ → Bool) (limit start fuel : ℕ) {text : Text} {from : ℕ} {c : Cursor}
    → Onward text from c
    → current_is test c ≡ true
    → 0 < fuel
    → EndsOnward text (suc c.pos) (limited_run test limit start fuel c)
unfolding limited_run
limited_run-next test limit start zero o h lt = absurd (omega arith)
limited_run-next test limit start (suc fuel) {text} {c = c} o h lt =
    Bool-elim {A = Run} (EndsOnward text (suc c.pos)) (current_is test c)
      (λ _.
        Bool-elim {A = Run} (EndsOnward text (suc c.pos)) (ltb limit ((step c).pos - start))
          (λ _. over)
          (λ _.
            limited_run-EndsOnward test limit start fuel
              (next-Onward o (current_is-inside test c h))))
      (λ n. absurd (ground arith))

pub moved-Onward :
    (n : ℕ) {text : Text} {from : ℕ} {c : Cursor}
    → Onward text from c
    → Onward text from (moved c n)
unfolding moved
moved-Onward n (same, ahead, inside) =
    (same, ground (arith, ap length same), ground (arith, ap length same))
