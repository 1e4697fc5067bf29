-- ===== src/Rounds/LineEndings.antt =====
-- `re.sub(r"\r\n?", "\n", source)` in front of the parse.
use ftllex_engine.Base.{
  ℕ, ◌≡◌, refl, sym, subst, ap, Bool, true, false, ◌&&◌, [], ◌∷◌, Text, All, ◌==◌, if-elim,
  if-cases, Bool-cases, inl, inr, arith, ◌≢◌,
}
use ftllex_engine.ResourceParser.{normalize_from, normalize_line_endings}

-- How the line endings of a text are normalized: `\r\n` and a lone `\r` become `\n`.
pub data Normalized : Text → Text → Type 0 where
  end : Normalized [] []
  crlf :
      {source target : Text}
      → Normalized source target
      → Normalized (b'\r' ∷ b'\n' ∷ source) (b'\n' ∷ target)
  last_cr : Normalized (b'\r' ∷ []) (b'\n' ∷ [])
  lone_cr :
      {ch : ℕ} {source target : Text}
      → ch ≢ b'\n'
      → Normalized (ch ∷ source) target
      → Normalized (b'\r' ∷ ch ∷ source) (b'\n' ∷ target)
  other :
      {ch : ℕ} {source target : Text}
      → ch ≢ b'\r'
      → Normalized source target
      → Normalized (ch ∷ source) (ch ∷ target)

behind_cr-from :
    (ch : ℕ) (text : Text)
    → (ch == b'\n') ≡ false
    → normalize_from true (ch ∷ text) ≡ normalize_from false (ch ∷ text)
unfolding normalize_from
behind_cr-from ch text h = rw (h, normalize_from) refl

plain-from :
    (ch : ℕ) (text : Text)
    → (ch == b'\r') ≡ false
    → normalize_from false (ch ∷ text) ≡ ch ∷ normalize_from false text
unfolding normalize_from
plain-from ch text h = rw (h, normalize_from) refl

-- The text itself, and the text behind a carriage return.
abbrev Both : Text → Type 0
Both text =
    Normalized text (normalize_from false text)
    × Normalized (b'\r' ∷ text) (b'\n' ∷ normalize_from true text)

first_character :
    (ch : ℕ) (text : Text) → Both text → Normalized (ch ∷ text) (normalize_from false (ch ∷ text))
unfolding normalize_from
first_character ch text rest = elim (Bool-cases (ch == b'\r')) [
  | inl e ↦
      subst (λ x. Normalized (x ∷ text) (normalize_from false (x ∷ text))) (ground arith) rest.1
  | inr e ↦
      subst (Normalized (ch ∷ text)) (sym (plain-from ch text e)) (other (ground arith) rest.0)
]

behind_cr :
    (ch : ℕ) (text : Text)
    → Both text
    → Normalized (b'\r' ∷ ch ∷ text) (b'\n' ∷ normalize_from true (ch ∷ text))
unfolding normalize_from
behind_cr ch text rest = elim (Bool-cases (ch == b'\n')) [
  | inl e ↦
      subst (λ x. Normalized (b'\r' ∷ x ∷ text) (b'\n' ∷ normalize_from true (x ∷ text)))
        (ground arith) (crlf rest.0)
  | inr e ↦
      subst (λ t. Normalized (b'\r' ∷ ch ∷ text) (b'\n' ∷ t)) (sym (behind_cr-from ch text e))
        (lone_cr (ground arith) (first_character ch text rest))
]

normalize-from : (text : Text) → Both text
unfolding normalize_from
normalize-from [] = (end, last_cr)
normalize-from (ch ∷ text) =
    let rest = normalize-from text in (first_character ch text rest, behind_cr ch text rest)

no_cr-from :
    (behind_cr : Bool) (text : Text)
    → All (λ ch. (ch == b'\r') ≡ false) (normalize_from behind_cr text)
unfolding normalize_from
no_cr-from b [] = tt
no_cr-from b (ch ∷ text) =
    let P : Text → Type 0 = All (λ ch. (ch == b'\r') ≡ false) in
    let rest = no_cr-from (ch == b'\r') text in
    if-cases P (ch == b'\r') (λ _. (refl, rest))
      (λ other. if-elim P (b && ch == b'\n') _ _ rest (other, rest))

stays-from :
    (text : Text) → All (λ ch. (ch == b'\r') ≡ false) text → normalize_from false text ≡ text
unfolding normalize_from
stays-from [] h = refl
stays-from (ch ∷ text) (h, t) = rw (h, normalize_from) (ap (◌∷◌ ch) (stays-from text t))

-- In the normalized text each `\r\n`, and each `\r` that no `\n` follows, is one `\n`, and all else
-- is as it was; no carriage return is left, and normalizing it again changes nothing.
pub normalize_line_endings-Normalized :
    (source : Text)
    → Normalized source (normalize_line_endings source)
      × All (λ ch. (ch == b'\r') ≡ false) (normalize_line_endings source)
      × (normalize_line_endings (normalize_line_endings source) ≡ normalize_line_endings source)
unfolding normalize_line_endings
normalize_line_endings-Normalized source = (
  (normalize-from source).0,
  no_cr-from false source,
  stays-from (normalize_from false source) (no_cr-from false source),
)
