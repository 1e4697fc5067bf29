-- ===== src/Cursor/Scan.antt =====
-- The scanning loops of the cursor: where they stop, and what they pass.
use ftllex_engine.Base.{
  ℕ, zero, suc, ◌-◌, ◌≤◌, ◌<◌, ◌≡◌, refl, inl, inr, Bool, true, false, Option, none, some, Text,
  length, get_elem?, drop, le_of_drop-nil, drop-cons, not, lt_of_get_elem?, ◌==◌, [], ◌∷◌,
  Bool-cases, Option-cases, arith,
}
use ftllex_engine.Cursor.{
  Cursor, scan, skip_while, is_space, is_blank, skip_spaces, skip_whitespace, find_in, find,
  skip_to_line_end,
}

-- A cursor that `__post_init__` accepts.
abbrev pub IsValid : Cursor → Type 0
IsValid c = c.pos ≤ length c.source

-- From `start` the scan passes only characters that meet the test, and it ends at `stop`, in
-- front of the first character that does not, or at the end of the text.
pub record Scanned (test : ℕ → Bool) (source : Text) (start stop : ℕ) : Type 0 where
  pub forward : start ≤ stop
  pub inside : stop ≤ length source
  pub passed : (i ch : ℕ) → start ≤ i → i < stop → get_elem? source i ≡ some ch → test ch ≡ true
  pub stopped : (ch : ℕ) → get_elem? source stop ≡ some ch → test ch ≡ false

module _ (test : ℕ → Bool) (source : Text) where
  Scanned-here :
      (pos : ℕ)
      → pos ≤ length source
      → ((ch : ℕ) → get_elem? source pos ≡ some ch → test ch ≡ false)
      → Scanned test source pos pos
  Scanned-here pos le h = record {
    forward = omega arith;
    inside = le;
    passed = λ i ch a b e. absurd (omega arith);
    stopped = h;
  }

  Scanned-step :
      (pos stop ch : ℕ)
      → get_elem? source pos ≡ some ch
      → test ch ≡ true
      → Scanned test source (suc pos) stop
      → Scanned test source pos stop
  Scanned-step pos stop ch e t s = record {
    forward = omega (arith, s.forward);
    inside = s.inside;
    passed = λ i x a b f. elim (Bool-cases (i == pos)) [
      | inl same ↦ ground (arith, s.forward)
      | inr other ↦ s.passed i x (ground arith) b f
    ];
    stopped = s.stopped;
  }

  pub scan-Scanned :
      (fuel pos : ℕ)
      → pos ≤ length source
      → length source - pos ≤ fuel
      → Scanned test source pos (scan test source fuel pos)
  unfolding scan
  scan-Scanned zero pos le enough =
      Scanned-here pos le (λ ch e. absurd (omega (arith, lt_of_get_elem? source pos ch e)))
  scan-Scanned (suc fuel) pos le enough = elim (Option-cases (get_elem? source pos)) [
    | inl e ↦ rw (e, scan) (Scanned-here pos le (λ ch f. ground arith))
    | inr (ch, e) ↦
        rw (e, scan)
          (elim (Bool-cases (test ch)) [
            | inl t ↦ rw t (
                Scanned-step pos _ ch e t
                  (scan-Scanned fuel (suc pos) (lt_of_get_elem? source pos ch e) (omega arith)))
            | inr f ↦ rw f (Scanned-here pos le (λ x g. ground arith))
          ])
  ]

skip_while_fields :
    (test : ℕ → Bool) (c : Cursor)
    → ((skip_while test c).source ≡ c.source)
      × ((skip_while test c).pos ≡ scan test c.source (length c.source - c.pos) c.pos)
unfolding skip_while
skip_while_fields test c =
    elim (Bool-cases (scan test c.source (length c.source - c.pos) c.pos == c.pos)) [
      | inl e ↦ rw e (refl, ground arith)
      | inr e ↦ rw e (refl, refl)
    ]

-- The cursor after a scan has the same text, and stands where the scan stops.
unfoldable pub Skips : (ℕ → Bool) → Cursor → Cursor → Type 0
Skips test c d = (d.source ≡ c.source) × Scanned test c.source c.pos d.pos

skip_while-Skips : (test : ℕ → Bool) (c : Cursor) → IsValid c → Skips test c (skip_while test c)
unfolding Skips
skip_while-Skips test c v =
    let (same, at) = skip_while_fields test c in
    (same, rw at (scan-Scanned test c.source (length c.source - c.pos) c.pos v (omega arith)))

abbrev pub not_newline : ℕ → Bool
not_newline ch = not (ch == b'\n')

abbrev stop_of : Text → Option ℕ → ℕ
stop_of source none = length source
stop_of source (some i) = i

find_in-Scanned :
    (xs source : Text) (i : ℕ)
    → i ≤ length source
    → drop i source ≡ xs
    → Scanned not_newline source i (stop_of source (find_in b'\n' xs i))
unfolding find_in
find_in-Scanned [] source i le e =
    let end : i ≡ length source = omega (arith, le_of_drop-nil source i e) in
    rw (← end) (
      Scanned-here not_newline source i le
        (λ ch f. absurd (omega (arith, lt_of_get_elem? source i ch f))))
find_in-Scanned (x ∷ xs) source i le e =
    let (at, rest) = drop-cons source i x xs e in
    elim (Bool-cases (x == b'\n')) [
      | inl t ↦ rw t (Scanned-here not_newline source i le (λ ch f. ground arith))
      | inr n ↦ rw n (
          Scanned-step not_newline source i _ x at (ground arith)
            (find_in-Scanned xs source (suc i) (lt_of_get_elem? source i x at) rest))
    ]

skip_to_line_end_fields :
    (c : Cursor)
    → ((skip_to_line_end c).source ≡ c.source)
      × ((skip_to_line_end c).pos ≡ stop_of c.source (find_in b'\n' (drop c.pos c.source) c.pos))
unfolding skip_to_line_end
skip_to_line_end_fields c = elim (Option-cases (find b'\n' c.source c.pos)) [
  | inl e ↦ ground arith
  | inr (i, e) ↦ ground arith
]

-- From a valid cursor each of the three skipping methods keeps the text, passes exactly the longest
-- run of characters of its class (spaces; spaces and newlines; all but newlines), and stops in
-- front of the first other character or at the end of the text.
pub skip-Skips :
    (c : Cursor)
    → IsValid c
    → Skips is_space c (skip_spaces c)
      × Skips is_blank c (skip_whitespace c)
      × Skips not_newline c (skip_to_line_end c)
unfolding skip_spaces skip_whitespace Skips
skip-Skips c v =
    let (same, at) = skip_to_line_end_fields c in
    (
      skip_while-Skips is_space c v,
      skip_while-Skips is_blank c v,
      (same, rw at (find_in-Scanned (drop c.pos c.source) c.source c.pos v refl)),
    )
