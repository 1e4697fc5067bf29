-- ===== src/Entries/Comments.antt =====
-- Comments and the ends of lines: where the cursor comes to stand.
use ftllex_engine.Base.{
  ℕ, zero, suc, ◌+◌, ◌<◌, ◌≡◌, refl, sym, ap, inl, inr, Bool, true, false, Text, length, ltb,
  if◌then◌else◌, if-cases, if-elim, Bool-elim, Bool-cases, arith,
}
use ftllex_engine.Cursor.{Cursor, at_char, step, skip_to_line_end, skip_line_end, is_eof}
use ftllex_engine.Primitives.{left}
use ftllex_engine.Outcome.{Outcome, Ensures, holds, rejected, Ensures-weaken}
use ftllex_engine.Terminals.Onward.{Onward, Onward-here, Onward-le, step-Onward, step_char-Onward}
use ftllex_engine.Entries.{
  Comment, CommentType, hash_run, comment_type, comment_behind, parse_comment,
}
use ftllex_engine.Base.{subst, get_elem?, get_elem?-some, ltb→lt, ◌∙◌}
use ftllex_engine.Cursor.{current, index}
use ftllex_engine.Terminals.{span_of}
use ftllex_engine.Cursor.Scan.{Skips, Scanned, skip-Skips, not_newline}
use ftllex_engine.Terminals.Onward.{Skips-Onward, is_eof-inside, at_char-inside}

to_line_end-Skips :
    {text : Text} {from : ℕ} {c : Cursor}
    → Onward text from c
    → Skips not_newline c (skip_to_line_end c)
to_line_end-Skips {c = c} (same, ahead, inside) =
    let (_, _, lines) = skip-Skips c (omega (arith, ap length same)) in lines

pub skip_to_line_end-Onward :
    {text : Text} {from : ℕ} {c : Cursor}
    → Onward text from c
    → Onward text c.pos (skip_to_line_end c)
skip_to_line_end-Onward o = Skips-Onward not_newline o (to_line_end-Skips o)

skip_line_end-Onward :
    {text : Text} {from : ℕ} {c : Cursor} → Onward text from c → Onward text c.pos (skip_line_end c)
unfolding skip_line_end
skip_line_end-Onward {text} {c = c} o =
    if-elim {A = Cursor} (Onward text c.pos) (at_char c b'\n') _ _ (step-Onward o) (Onward-here o)

-- A scan to the end of the line stays only at a newline or at the end of the text.
line_end_passes :
    (d : Cursor) (p : ℕ)
    → Scanned not_newline d.source p d.pos
    → p < length d.source
    → at_char d b'\n' ≡ false
    → p < d.pos
unfolding at_char is_eof current index
line_end_passes d p s inside h = elim (Bool-cases (ltb p d.pos)) [
  | inl further ↦ ltb→lt p d.pos further
  | inr stays ↦
      let lt : d.pos < length d.source = ground (arith, s.forward) in
      let (ch, f) = get_elem?-some d.source d.pos lt in
      let newline = s.stopped ch f in absurd (ground arith)
]

-- A line that is not empty, or ends in a newline, is passed.
pub line-Onward :
    {text : Text} {from : ℕ} {c : Cursor}
    → Onward text from c
    → is_eof c ≡ false
    → Onward text (suc c.pos) (skip_line_end (skip_to_line_end c))
unfolding skip_line_end Skips
line-Onward {text} {c = c} o inside =
    let d = skip_to_line_end c in
    let on = skip_to_line_end-Onward o in
    let (_, a, _) = on in
    let (e, s) = to_line_end-Skips o in
    let lt = is_eof-inside c inside in
    if-cases {A = Cursor} (Onward text (suc c.pos)) (at_char d b'\n')
      (λ newline. Onward-le (step_char-Onward b'\n' on newline) (omega arith))
      (λ other.
        let (same, b, i) = on in
        (
          same,
          line_end_passes d c.pos (subst (λ t. Scanned not_newline t c.pos d.pos) (sym e) s)
              (omega (arith, ap length e)) other,
          i,
        ))

hash_run-Onward :
    (fuel n : ℕ) {text : Text} {from : ℕ} {c : Cursor}
    → Onward text from c
    → Onward text c.pos (hash_run fuel n c).1
unfolding hash_run
hash_run-Onward zero n o = Onward-here o
hash_run-Onward (suc fuel) n {text} {c = c} o =
    let (_, b, _) = step-Onward o in
    Bool-elim {A = ℕ × Cursor} (λ r. Onward text c.pos r.1) (at_char c b'#')
      (λ _. Onward-le (hash_run-Onward fuel (n + 1) (step-Onward o)) b) (λ _. Onward-here o)

-- The first `#` is passed.
hash_run-next :
    (fuel n : ℕ) {text : Text} {from : ℕ} {c : Cursor}
    → Onward text from c
    → at_char c b'#' ≡ true
    → 0 < fuel
    → Onward text (suc c.pos) (hash_run fuel n c).1
unfolding hash_run
hash_run-next zero n o h lt = absurd (omega arith)
hash_run-next (suc fuel) n {c = c} o h lt =
    let next = step_char-Onward b'#' o h in
    let (_, b, _) = next in rw (h, hash_run) (Onward-le (hash_run-Onward fuel (n + 1) next) b)

comment_behind-Ensures :
    {text : Text} {from : ℕ} {c : Cursor} (start : ℕ) (kind : CommentType) (flag : Bool)
    → Onward text from c
    → Ensures
        (λ r d _. Onward text c.pos d × (r.span ≡ span_of start d.pos))
        (comment_behind start kind flag c)
unfolding comment_behind skip_line_end
comment_behind-Ensures {text} {c = c} start kind flag o =
    let d = if at_char c b' ' then step c else c in
    let on : Onward text c.pos d =
      if-elim {A = Cursor} (Onward text c.pos) (at_char c b' ') _ _ (step-Onward o)
        (Onward-here o) in
    let (_, a, _) = on in
    let (s1, a1, i1) = skip_to_line_end-Onward on in
    let (same, a2, inside) = skip_line_end-Onward (skip_to_line_end-Onward on) in
    holds ((same, omega arith, inside), refl)

-- At a `#`, `parse_comment` returns None, or a comment whose span goes from there to the cursor
-- behind it.
pub comment-Ensures :
    {text : Text} {from : ℕ} {c : Cursor} (flag : Bool)
    → Onward text from c
    → at_char c b'#' ≡ true
    → Ensures
        (λ r d _. Onward text (suc c.pos) d × (r.span ≡ span_of c.pos d.pos))
        (parse_comment flag c)
unfolding parse_comment
comment-Ensures {text} {c = c} flag o h =
    let lt = at_char-inside c b'#' h in
    let next = hash_run-next (left c) 0 o h (omega arith) in
    let (_, a, _) = next in
    let n = (hash_run (left c) 0 c).0 in
    if-cases {A = Outcome Comment}
      (Ensures (λ r d _. Onward text (suc c.pos) d × (r.span ≡ span_of c.pos d.pos))) (ltb 3 n)
      (λ _. rejected)
      (λ _.
        Ensures-weaken (comment_behind-Ensures c.pos (comment_type n) flag next)
          λ r d u (on, i). (Onward-le on a, i))

-- A line that begins with `#` is not empty.
pub hash_line-Onward :
    {text : Text} {from : ℕ} {c : Cursor}
    → Onward text from c
    → at_char c b'#' ≡ true
    → Onward text (suc c.pos) (skip_to_line_end c)
unfolding at_char is_eof current index Skips
hash_line-Onward {c = c} o h =
    let d = skip_to_line_end c in
    let (same, a, inside) = skip_to_line_end-Onward o in
    let (_, s) = to_line_end-Skips o in
    elim (Bool-cases (ltb c.pos d.pos)) [
      | inl further ↦ (same, ltb→lt c.pos d.pos further, inside)
      | inr stays ↦
          let (ch, f) = get_elem?-some c.source c.pos (ground arith) in
          let at : d.pos ≡ c.pos = ground arith in
          let newline = s.stopped ch (ap (get_elem? c.source) at ∙ f) in absurd (ground arith)
    ]
