-- ===== src/Whitespace/Lines.antt =====
-- The same, said of the text that is left.
use ftllex_engine.Base.{
  ℕ, zero, suc, ◌+◌, ◌≤◌, ◌≡◌, refl, ap, sym, ◌∙◌, subst, inl, inr, Bool, true, false, not, [], ◌∷◌,
  Text, length, length-drop, drop, take_while, drop_while, take_while-append-drop_while, ◌==◌,
  if◌then◌else◌, Bool-cases, arith,
}
use ftllex_engine.Cursor.{Cursor, step, at_char}
use ftllex_engine.Primitives.{current_is, left}
use ftllex_engine.Primitives.Runs.{
  forward, Remains, current_is_at, current_is_end, step-forward, forward_at, forward-forward,
  forward_append, at_char_at, at_char_end,
}
use ftllex_engine.Whitespace.{skip_run, is_special, behind_newlines, is_indented_continuation}

-- The characters `ch` in front of a text, and the text behind them.
abbrev pub leading : ℕ → Text → Text
leading ch = take_while (λ x. x == ch)

abbrev pub behind : ℕ → Text → Text
behind ch = drop_while (λ x. x == ch)

-- The first character of a text meets a test.
abbrev pub starts : (ℕ → Bool) → Text → Bool
starts test [] = false
starts test (x ∷ xs) = test x

run_stop : (ch fuel : ℕ) (c : Cursor) → at_char c ch ≡ false → skip_run ch fuel c ≡ c
unfolding skip_run
run_stop ch zero c h = refl
run_stop ch (suc fuel) c h = rw (h, skip_run) refl

run_step :
    (ch fuel : ℕ) (c : Cursor)
    → at_char c ch ≡ true
    → skip_run ch (suc fuel) c ≡ skip_run ch fuel (step c)
unfolding skip_run
run_step ch fuel c h = rw (h, skip_run) refl

pub forward_zero : (c : Cursor) → forward c 0 ≡ c
forward_zero c = ap (λ p. record c { pos = p }) (omega arith)

skip_run-forward :
    (ch fuel : ℕ) (c : Cursor) (xs : Text)
    → Remains c xs
    → length xs ≤ fuel
    → skip_run ch fuel c ≡ forward c (length (leading ch xs))
unfolding take_while
skip_run-forward ch fuel c [] h le = run_stop ch fuel c (at_char_end c ch h) ∙ sym (forward_zero c)
skip_run-forward ch zero c (x ∷ xs) h le = absurd (omega arith)
skip_run-forward ch (suc fuel) c (x ∷ xs) h le = elim (Bool-cases (x == ch)) [
  | inr no_match ↦
      rw no_match
        (run_stop ch (suc fuel) c (at_char_at c ch x xs h ∙ no_match) ∙ sym (forward_zero c))
  | inl match ↦ rw match (
      run_step ch fuel c (at_char_at c ch x xs h ∙ match)
      ∙ ap (skip_run ch fuel) (step-forward c x xs h)
      ∙ skip_run-forward ch fuel (forward c 1) xs (forward_at c x xs h) (omega arith)
      ∙ forward-forward c 1 (length (leading ch xs))
      ∙ (let one : 1 + length (leading ch xs) ≡ suc (length (leading ch xs)) = omega arith in
          ap (forward c) one))
]

-- What is left behind the characters `ch`.
Remains-behind :
    (ch : ℕ) (c : Cursor) (xs : Text)
    → Remains c xs
    → Remains (forward c (length (leading ch xs))) (behind ch xs)
Remains-behind ch c xs h =
    forward_append c (leading ch xs) (behind ch xs)
      (h ∙ sym (take_while-append-drop_while (λ x. x == ch) xs))

pub length-left : (c : Cursor) (xs : Text) → Remains c xs → length xs ≤ left c
length-left c xs h = omega (arith, ap length h, length-drop c.pos c.source)

skip_left :
    (ch : ℕ) (c : Cursor) (xs : Text)
    → Remains c xs
    → skip_run ch (left c) c ≡ forward c (length (leading ch xs))
skip_left ch c xs h = skip_run-forward ch (left c) c xs h (length-left c xs h)

at_char-starts :
    (c : Cursor) (ch : ℕ) (xs : Text) → Remains c xs → at_char c ch ≡ starts (λ x. x == ch) xs
at_char-starts c ch [] h = at_char_end c ch h
at_char-starts c ch (x ∷ xs) h = at_char_at c ch x xs h

current_is-starts :
    (test : ℕ → Bool) (c : Cursor) (xs : Text) → Remains c xs → current_is test c ≡ starts test xs
current_is-starts test c [] h = current_is_end test c h
current_is-starts test c (x ∷ xs) h = current_is_at test c x xs h

-- The text at a line end goes on with a continuation line: behind the newlines stands a space, and
-- behind the spaces none of `[`, `*`, `.` and `}`.
abbrev pub continues : Text → Bool
continues [] = false
continues (x ∷ xs) =
    if x == b'\n'
    then (if starts (λ y. y == b' ') (behind b'\n' xs)
        then not (starts is_special (behind b' ' (behind b'\n' xs)))
        else false)
    else false

pub newlines-forward :
    (c : Cursor) (x : ℕ) (xs : Text)
    → Remains c (x ∷ xs)
    → behind_newlines c ≡ forward c (1 + length (leading b'\n' xs))
newlines-forward c x xs h =
    ap (λ d. skip_run b'\n' (left d) d) (step-forward c x xs h)
    ∙ skip_left b'\n' (forward c 1) xs (forward_at c x xs h)
    ∙ forward-forward c 1 (length (leading b'\n' xs))

pub Remains-newlines :
    (c : Cursor) (x : ℕ) (xs : Text)
    → Remains c (x ∷ xs)
    → Remains (behind_newlines c) (behind b'\n' xs)
Remains-newlines c x xs h =
    subst (λ d. Remains d (behind b'\n' xs))
      (sym (
        ap (λ d. skip_run b'\n' (left d) d) (step-forward c x xs h)
        ∙ skip_left b'\n' (forward c 1) xs (forward_at c x xs h)))
      (Remains-behind b'\n' (forward c 1) xs (forward_at c x xs h))

special-starts :
    (d : Cursor) (xs : Text)
    → Remains d xs
    → current_is is_special (skip_run b' ' (left d) d) ≡ starts is_special (behind b' ' xs)
special-starts d xs h = current_is-starts is_special (skip_run b' ' (left d) d) (behind b' ' xs) (
    subst (λ e. Remains e (behind b' ' xs)) (sym (skip_left b' ' d xs h))
      (Remains-behind b' ' d xs h))

pub continuation_at :
    (c : Cursor) (xs : Text) → Remains c xs → is_indented_continuation c ≡ continues xs
unfolding is_indented_continuation
continuation_at c [] h = rw (at_char_end c b'\n' h) refl
continuation_at c (x ∷ xs) h =
    let next = Remains-newlines c x xs h in
    rw (at_char_at c b'\n' x xs h) (
      rw (at_char-starts (behind_newlines c) b' ' (behind b'\n' xs) next)
        (rw (special-starts (behind_newlines c) (behind b'\n' xs) next) refl))

-- At every cursor `is_indented_continuation` says whether the text that is left goes on with a
-- continuation line: newlines, then spaces, then none of `[`, `*`, `.` and `}`.
pub is_indented_continuation-continues :
    (c : Cursor) → is_indented_continuation c ≡ continues (drop c.pos c.source)
is_indented_continuation-continues c = continuation_at c (drop c.pos c.source) refl
