-- ===== src/Terminals/Settled.antt =====
-- A second `skip_blank` passes nothing.
use ftllex_engine.Base.{
  ℕ, ◌≡◌, sym, ap, ◌∙◌, inl, inr, false, Text, length, Bool-cases, if-elim, arith, get_elem?-some,
  ltb, ltb→lt, get_elem?, some, ok,
}
use ftllex_engine.Cursor.{Cursor, current, is_eof, index, at_char, is_blank}
use ftllex_engine.Cursor.Scan.{Skips, Scanned, skip-Skips, IsValid}
use ftllex_engine.Whitespace.{skip_blank}
use ftllex_engine.Terminals.{behind_argument}
use ftllex_engine.Terminals.Onward.{Onward, skip_blank-Onward, step-Onward}

-- No blank is at the cursor.
abbrev pub IsSettled : Cursor → Type 0
IsSettled c = skip_blank c ≡ c

skip_blank-Skips : (c : Cursor) → IsValid c → Skips is_blank c (skip_blank c)
unfolding skip_blank
skip_blank-Skips c v = let (_, blanks, _) = skip-Skips c v in blanks

stays :
    (c : Cursor) (text : Text) (p q : ℕ)
    → Scanned is_blank text p q
    → ((ch : ℕ) → get_elem? text p ≡ some ch → is_blank ch ≡ false)
    → q ≡ p
stays c text p q s h = elim (Bool-cases (ltb p q)) [
  | inr here ↦ ground (arith, s.forward)
  | inl further ↦
      let lt = ltb→lt p q further in
      let (ch, e) = get_elem?-some text p (omega (arith, s.inside)) in
      let blank = s.passed p ch (omega arith) lt e in let no_blank = h ch e in absurd (ground arith)
]

cursor_eq : (c d : Cursor) → d.source ≡ c.source → d.pos ≡ c.pos → d ≡ c
cursor_eq c d s p = rw (s, p)

pub skip_blank-IsSettled :
    {text : Text} {from : ℕ} {c : Cursor} → Onward text from c → IsSettled (skip_blank c)
unfolding Skips
skip_blank-IsSettled {c = c} (same, ahead, inside) =
    let d = skip_blank c in
    let (e, s) = skip_blank-Skips c (omega (arith, ap length same)) in
    let (e1, s1) = skip_blank-Skips d (omega (arith, s.inside, ap length e)) in
    cursor_eq d (skip_blank d) e1 (
      stays c d.source d.pos (skip_blank d).pos s1
        (λ ch h. s.stopped ch (ap (λ t. get_elem? t d.pos) (sym e) ∙ h)))

pub behind_argument-IsSettled :
    {text : Text} {from : ℕ} {c : Cursor} → Onward text from c → IsSettled (behind_argument c)
unfolding behind_argument
behind_argument-IsSettled {c = c} o =
    if-elim {A = Cursor} IsSettled (at_char (skip_blank c) b',') _ _
      (skip_blank-IsSettled (step-Onward (skip_blank-Onward o))) (skip_blank-IsSettled o)

-- The character at a cursor that is not at the end can be read.
pub current-ok : (c : Cursor) → is_eof c ≡ false → (ch : ℕ) × (current c ≡ ok ch)
unfolding current is_eof index
current-ok c h = let (ch, e) = get_elem?-some c.source c.pos (ground arith) in (ch, ground arith)
