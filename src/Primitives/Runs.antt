-- ===== src/Primitives/Runs.antt =====
-- The limited loop of the parsers, read over the text that is left.
use ftllex_engine.Base.{
  ℕ, zero, suc, ◌+◌, ◌-◌, ◌≤◌, ◌<◌, ◌≡◌, refl, sym, ◌∙◌, Bool, true, false, [], ◌∷◌, ◌++◌, Text,
  length, drop, drop-cons, drop_suc, le_of_drop-nil, take_while, ltb, if◌then◌else◌, Bool-cases,
  ltb→lt, inl, inr, ok, raised, eof_error, arith, min, ◌==◌,
}
use ftllex_engine.Cursor.{Cursor, current, is_eof, index, moved, step, at_char}
use ftllex_engine.Primitives.{current_is, Run, ended, overlong, limited_run}

-- The cursor `n` characters on.
abbrev pub forward : Cursor → ℕ → Cursor
forward c n = record c { pos = c.pos + n }

-- `xs` is the text that is left at the cursor.
abbrev pub Remains : Cursor → Text → Type 0
Remains c xs = drop c.pos c.source ≡ xs

pub current_at : (c : Cursor) (x : ℕ) (xs : Text) → Remains c (x ∷ xs) → current c ≡ ok x
unfolding current is_eof index
current_at c x xs h =
    let (e, rest) = drop-cons c.source c.pos x xs h in
    ground (arith, drop_suc c.source c.pos x xs h)

pub current_end : (c : Cursor) → Remains c [] → current c ≡ raised eof_error
unfolding current is_eof index
current_end c h = ground (arith, le_of_drop-nil c.source c.pos h)

pub step-forward : (c : Cursor) (x : ℕ) (xs : Text) → Remains c (x ∷ xs) → step c ≡ forward c 1
unfolding moved
step-forward c x xs h =
    let e : min (c.pos + 1) (length c.source) ≡ c.pos + 1 =
      omega (arith, drop_suc c.source c.pos x xs h) in
    rw e

pub forward_at : (c : Cursor) (x : ℕ) (xs : Text) → Remains c (x ∷ xs) → Remains (forward c 1) xs
forward_at c x xs h =
    let one : c.pos + 1 ≡ suc c.pos = omega arith in rw one (drop-cons c.source c.pos x xs h).1

pub current_is_at :
    (test : ℕ → Bool) (c : Cursor) (x : ℕ) (xs : Text)
    → Remains c (x ∷ xs)
    → current_is test c ≡ test x
unfolding current_is
current_is_at test c x xs h = rw (current_at c x xs h, current_is)

pub current_is_end : (test : ℕ → Bool) (c : Cursor) → Remains c [] → current_is test c ≡ false
unfolding current_is
current_is_end test c h = rw (current_end c h, current_is)

-- The end of a run of `n` characters from the cursor, under the limit.
abbrev pub run_end : ℕ → ℕ → Cursor → ℕ → Run
run_end limit start c n =
    if ltb limit (c.pos + n - start)
    then overlong (forward c (limit + 1 + start - c.pos))
    else ended (forward c n)

run_stop :
    (test : ℕ → Bool) (limit start fuel : ℕ) (c : Cursor)
    → current_is test c ≡ false
    → limited_run test limit start fuel c ≡ ended c
unfolding limited_run
run_stop test limit start zero c h = refl
run_stop test limit start (suc fuel) c h = ground arith

run_over :
    (test : ℕ → Bool) (limit start fuel : ℕ) (c : Cursor)
    → current_is test c ≡ true
    → step c ≡ forward c 1
    → limit < c.pos + 1 - start
    → limited_run test limit start (suc fuel) c ≡ overlong (forward c 1)
unfolding limited_run
run_over test limit start fuel c h e lt = let d : (step c).pos ≡ c.pos + 1 = rw e in ground arith

run_next :
    (test : ℕ → Bool) (limit start fuel : ℕ) (c : Cursor)
    → current_is test c ≡ true
    → step c ≡ forward c 1
    → c.pos + 1 - start ≤ limit
    → limited_run test limit start (suc fuel) c ≡ limited_run test limit start fuel (forward c 1)
unfolding limited_run
run_next test limit start fuel c h e le =
    let d : (step c).pos ≡ c.pos + 1 = rw e in rw (← e) (ground arith)

run_end_zero :
    (limit start : ℕ) (c : Cursor) → c.pos ≤ limit + start → run_end limit start c 0 ≡ ended c
run_end_zero limit start c l = ground arith

run_end_over :
    (limit start n : ℕ) (c : Cursor)
    → start ≤ c.pos
    → c.pos ≤ limit + start
    → limit < c.pos + 1 - start
    → run_end limit start c (suc n) ≡ overlong (forward c 1)
run_end_over limit start n c s l lt = ground arith

run_end_next :
    (limit start n : ℕ) (c : Cursor)
    → start ≤ c.pos
    → c.pos + 1 - start ≤ limit
    → run_end limit start c (suc n) ≡ run_end limit start (forward c 1) n
run_end_next limit start n c s le =
    let a : c.pos + suc n ≡ c.pos + 1 + n = omega arith in
    let b : c.pos + (limit + 1 + start - c.pos) ≡ c.pos + 1 + (limit + 1 + start - (c.pos + 1)) =
      omega arith in
    rw (a, b)

-- From a cursor that is within the limit the loop passes exactly the longest run of the class, or
-- stops one character over the limit.
pub limited_run-run_end :
    (test : ℕ → Bool) (limit start fuel : ℕ) (c : Cursor) (xs : Text)
    → Remains c xs
    → length xs ≤ fuel
    → start ≤ c.pos
    → c.pos ≤ limit + start
    → limited_run test limit start fuel c ≡ run_end limit start c (length (take_while test xs))
unfolding take_while
limited_run-run_end test limit start fuel c [] h f s l =
    run_stop test limit start fuel c (current_is_end test c h) ∙ sym (run_end_zero limit start c l)
limited_run-run_end test limit start zero c (x ∷ xs) h f s l = absurd (omega arith)
limited_run-run_end test limit start (suc fuel) c (x ∷ xs) h f s l = elim (Bool-cases (test x)) [
  | inr no_match ↦ rw no_match (
      run_stop test limit start (suc fuel) c (current_is_at test c x xs h ∙ no_match)
      ∙ sym (run_end_zero limit start c l))
  | inl match ↦
      let here = current_is_at test c x xs h ∙ match in
      let e = step-forward c x xs h in
      rw match (elim (Bool-cases (ltb limit (c.pos + 1 - start))) [
        | inl over ↦
            run_over test limit start fuel c here e (ltb→lt _ _ over)
            ∙ sym (run_end_over limit start (length (take_while test xs)) c s l (ltb→lt _ _ over))
        | inr fits ↦
            let le : c.pos + 1 - start ≤ limit = ground arith in
            run_next test limit start fuel c here e le
            ∙ limited_run-run_end test limit start fuel (forward c 1) xs (forward_at c x xs h)
                (omega arith) (omega arith) (omega arith)
            ∙ sym (run_end_next limit start (length (take_while test xs)) c s le)
      ])
]

pub forward-forward : (c : Cursor) (m n : ℕ) → forward (forward c m) n ≡ forward c (m + n)
forward-forward c m n = let e : c.pos + m + n ≡ c.pos + (m + n) = omega arith in rw e

pub forward_append :
    (c : Cursor) (a xs : Text) → Remains c (a ++ xs) → Remains (forward c (length a)) xs
forward_append c [] xs h = let e : c.pos + 0 ≡ c.pos = omega arith in rw e h
forward_append c (x ∷ a) xs h =
    let e : c.pos + suc (length a) ≡ c.pos + 1 + length a = omega arith in
    rw e (forward_append (forward c 1) a xs (forward_at c x (a ++ xs) h))

pub at_char_at : (c : Cursor) (k x : ℕ) (xs : Text) → Remains c (x ∷ xs) → at_char c k ≡ (x == k)
unfolding at_char is_eof
at_char_at c k x xs h =
    let inside = drop_suc c.source c.pos x xs h in ground (arith, current_at c x xs h)

pub at_char_end : (c : Cursor) (k : ℕ) → Remains c [] → at_char c k ≡ false
unfolding at_char is_eof
at_char_end c k h = ground (arith, le_of_drop-nil c.source c.pos h)
