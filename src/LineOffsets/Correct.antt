-- ===== src/LineOffsets/Correct.antt =====
-- `LineOffsetCache` gives the line and the column that `Cursor.compute_line_col` counts.
use ftllex_engine.Base.{
  ℕ, zero, suc, ◌+◌, ◌-◌, ◌≤◌, ◌<◌, ◌≡◌, refl, ap, ◌∙◌, Option, none, some, List, [], ◌∷◌, Text,
  length, get_elem?, min, take, drop, drop-cons, drop_of_length-le, Bool-cases, inl, inr, ◌==◌,
  if◌then◌else◌, ok, ℤ, arith,
}
use ftllex_engine.Cursor.{index, find_in, find, count, rfind_in, compute_line_col}
use ftllex_engine.LineOffsets.{
  LineOffsetCache, line_starts, build, clamp, search_line, get_line_col,
}
use ftllex_engine.LineOffsets.Search.{IsLine, search_line_all}

abbrev nl : ℕ
nl = b'\n'

-- The starts of the lines that begin in `xs`, which stands at offset `i`.
starts : Text → ℕ → List ℕ
starts [] i = []
starts (x ∷ xs) i = if x == nl then suc i ∷ starts xs (suc i) else starts xs (suc i)

-- What `line_starts` makes of the next newline.
abbrev starts_after : ℕ → Text → Option ℕ → List ℕ
starts_after fuel source none = []
starts_after fuel source (some p) = (p + 1) ∷ line_starts fuel source (p + 1)

starts_find :
    (xs source : Text) (i fuel : ℕ)
    → drop i source ≡ xs
    → ((p : ℕ) → i ≤ p → line_starts fuel source (suc p) ≡ starts (drop (suc p) source) (suc p))
    → starts_after fuel source (find_in nl xs i) ≡ starts xs i
unfolding starts find_in
starts_find [] source i fuel e ih = refl
starts_find (x ∷ xs) source i fuel e ih =
    let (at, rest) = drop-cons source i x xs e in
    elim (Bool-cases (x == nl)) [
      | inl t ↦ rw t (
          let one : i + 1 ≡ suc i = omega arith in
          rw one (ap (◌∷◌ (suc i)) (ih i (omega arith) ∙ ap (λ r. starts r (suc i)) rest)))
      | inr n ↦ rw n (starts_find xs source (suc i) fuel rest (λ p le. ih p (omega arith)))
    ]

line_starts_step :
    (fuel : ℕ) (source : Text) (i : ℕ)
    → line_starts (suc fuel) source i ≡ starts_after fuel source (find_in nl (drop i source) i)
unfolding line_starts find
line_starts_step fuel source i = ground arith

line_starts-starts :
    (fuel : ℕ) (source : Text) (i : ℕ)
    → length source < fuel + i
    → line_starts fuel source i ≡ starts (drop i source) i
unfolding line_starts starts
line_starts-starts zero source i enough = rw (drop_of_length-le source i (omega arith))
line_starts-starts (suc fuel) source i enough =
    line_starts_step fuel source i
    ∙ starts_find (drop i source) source i fuel refl
        (λ p le. line_starts-starts fuel source (suc p) (omega arith))

starts_gt : (xs : Text) (i k o : ℕ) → get_elem? (starts xs i) k ≡ some o → i < o
unfolding starts
starts_gt [] i k o h = ground arith
starts_gt (x ∷ xs) i zero o h = ground (arith, starts_gt xs (suc i) zero o)
starts_gt (x ∷ xs) i (suc k) o h =
    ground (arith, starts_gt xs (suc i) k o, starts_gt xs (suc i) (suc k) o)

-- The start of the line behind the last newline.
abbrev line_start : Option ℕ → ℕ
line_start none = 0
line_start (some j) = suc j

abbrev Picked : Text → ℕ → ℕ → Option ℕ → ℕ → ℕ → Type 0
Picked xs i n acc k o =
    (k ≡ count nl (take n xs)) × (o ≡ line_start (rfind_in nl (take n xs) i acc))

-- The last line start that is at most `i + n` is the one behind the last newline before it.
pick_line :
    (xs : Text) (i n : ℕ) (acc : Option ℕ) (k o : ℕ)
    → n ≤ length xs
    → line_start acc ≤ i
    → get_elem? (line_start acc ∷ starts xs i) k ≡ some o
    → o ≤ i + n
    → ((x : ℕ) → get_elem? (starts xs i) k ≡ some x → i + n < x)
    → Picked xs i n acc k o
unfolding starts count rfind_in
pick_line xs i zero acc zero o le s at below next = (refl, ground arith)
pick_line xs i zero acc (suc k) o le s at below next = absurd (omega (arith, starts_gt xs i k o at))
pick_line [] i (suc n) acc k o le s at below next = absurd (omega arith)
pick_line (x ∷ xs) i (suc n) acc zero o le s at below next = elim (Bool-cases (x == nl)) [
  | inl t ↦ absurd (ground (arith, next (suc i)))
  | inr f ↦
      let ih =
        pick_line xs (suc i) n acc zero o (omega arith) (omega arith) at (omega arith)
          (λ y h. let past = next y (rw f h) in omega arith) in
      ground arith
]
pick_line (x ∷ xs) i (suc n) acc (suc k) o le s at below next = elim (Bool-cases (x == nl)) [
  | inl t ↦
      let ih =
        pick_line xs (suc i) n (some i) k o (omega arith) (omega arith) (rw t at at) (omega arith)
          (λ y h. let past = next y (rw t h) in omega arith) in
      ground arith
  | inr f ↦
      let ih =
        pick_line xs (suc i) n acc (suc k) o (omega arith) (omega arith) (rw f at at) (omega arith)
          (λ y h. let past = next y (rw f h) in omega arith) in
      ground arith
]

-- The offset of a position that may lie outside the text.
abbrev pub clamped : Text → ℤ → ℕ
clamped source (ℤ.negsuc n) = 0
clamped source (ℤ.pos n) = min n (length source)

clamp-clamped : (source : Text) (z : ℤ) → clamp (build source) z ≡ clamped source z
unfolding clamp build
clamp-clamped source (ℤ.negsuc n) = refl
clamp-clamped source (ℤ.pos n) = ground arith

clamped-le : (source : Text) (z : ℤ) → clamped source z ≤ length source
clamped-le source (ℤ.negsuc n) = omega arith
clamped-le source (ℤ.pos n) = omega arith

build_offsets : (source : Text) → (build source).offsets ≡ 0 ∷ starts source 0
unfolding build
build_offsets source = ap (◌∷◌ 0) (line_starts-starts (length source + 1) source 0 (omega arith))

abbrev line_col : Text → ℕ → ℕ × ℕ
line_col source p = compute_line_col (record { source = source; pos = p })

-- With the search's answer, `line` and `col` are those that the counting gives.
line_col_of_IsLine :
    (source : Text) (p k : ℕ)
    → p ≤ length source
    → (l : IsLine (0 ∷ starts source 0) p k) → (k + 1, p - l.offset + 1) ≡ line_col source p
unfolding compute_line_col
line_col_of_IsLine source p k le l =
    let (lines, start) =
      pick_line source 0 p none k l.offset le (omega arith) l.at (omega (arith, l.below))
        (λ x h. let past = l.next x h in omega arith) in
    ground (arith, l.below)

get_line_col_at :
    (cache : LineOffsetCache) (z : ℤ) (rest : List ℕ) (k o : ℕ)
    → cache.offsets ≡ 0 ∷ rest
    → search_line (length rest) (0 ∷ rest) (clamp cache z) 0 (length rest) ≡ ok k
    → get_elem? (0 ∷ rest) k ≡ some o
    → get_line_col cache z ≡ ok (k + 1, clamp cache z - o + 1)
unfolding get_line_col index
get_line_col_at cache z rest k o e s at =
    let last : suc (length rest) - 1 ≡ length rest = omega arith in
    simp (e, last, s) (rw (at, index))

-- For every text and every position, also one outside the text, the cached lookup raises nothing
-- and returns the line and the column that `compute_line_col` counts at the position clamped to
-- the text.
pub get_line_col-compute_line_col :
    (source : Text) (position : ℤ)
    → get_line_col (build source) position
      ≡ ok (compute_line_col (record { source = source; pos = clamped source position }))
get_line_col-compute_line_col source position =
    let p : ℕ = clamped source position in
    let (k, found, line) = search_line_all 0 (starts source 0) p (omega arith) in
    get_line_col_at (build source) position (starts source 0) k line.offset (build_offsets source)
      (rw (clamp-clamped source position) found) line.at
    ∙ rw (clamp-clamped source position)
        (ap ok (line_col_of_IsLine source p k (clamped-le source position) line))
