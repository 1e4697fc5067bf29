-- ===== src/LineOffsets/Search.antt =====
-- The binary search of `get_line_col` ends at an offset that is at most the position, with the
-- next offset, if there is one, past the position.
use ftllex_engine.Base.{
  ℕ, zero, suc, ◌+◌, ◌-◌, ◌≤◌, ◌<◌, ◌≡◌, List, some, length, get_elem?, get_elem?-some, Bool-cases,
  inl, inr, true, false, if◌then◌else◌, ltb, leb, ltb→lt, leb→le, ok, arith, refl, ◌∷◌, ◌/◌,
  lt_of_get_elem?,
}
use ftllex_engine.LineOffsets.{search_line}

-- `k` is where the last offset that is at most `pos` stands.
pub record IsLine (offsets : List ℕ) (pos k : ℕ) : Type 0 where
  pub offset : ℕ
  pub at : get_elem? offsets k ≡ some offset
  pub below : offset ≤ pos
  pub next : (o : ℕ) → get_elem? offsets (suc k) ≡ some o → pos < o

-- What the search knows of its two ends.
record Between (offsets : List ℕ) (pos left right : ℕ) : Type 0 where
  ordered : left ≤ right
  inside : right < length offsets
  offset : ℕ
  at : get_elem? offsets left ≡ some offset
  below : offset ≤ pos
  beyond : (o : ℕ) → get_elem? offsets (suc right) ≡ some o → pos < o

IsLine-Between :
    (offsets : List ℕ) (pos left right : ℕ)
    → Between offsets pos left right
    → right ≤ left
    → IsLine offsets pos left
IsLine-Between offsets pos left right b le =
    let e : right ≡ left = omega (arith, b.ordered) in
    record {
      offset = b.offset;
      at = b.at;
      below = b.below;
      next = λ o h. b.beyond o (ground arith);
    }

search_line_stop :
    (fuel : ℕ) (offsets : List ℕ) (pos left right : ℕ)
    → ltb left right ≡ false
    → search_line (suc fuel) offsets pos left right ≡ ok left
unfolding search_line
search_line_stop fuel offsets pos left right h = ground arith

search_line_go :
    (fuel : ℕ) (offsets : List ℕ) (pos left right o : ℕ)
    → ltb left right ≡ true
    → get_elem? offsets ((left + right + 1) / 2) ≡ some o
    → search_line (suc fuel) offsets pos left right ≡ (
        if leb o pos
        then search_line fuel offsets pos ((left + right + 1) / 2) right
        else search_line fuel offsets pos left ((left + right + 1) / 2 - 1))
unfolding search_line
search_line_go fuel offsets pos left right o h e = ground arith

go_right :
    (offsets : List ℕ) (pos left right o : ℕ)
    → Between offsets pos left right
    → ltb left right ≡ true
    → get_elem? offsets ((left + right + 1) / 2) ≡ some o
    → leb o pos ≡ true
    → Between offsets pos ((left + right + 1) / 2) right
go_right offsets pos left right o b go e le =
    let lt : left < right = ltb→lt left right go in
    record {
      ordered = omega arith;
      inside = b.inside;
      offset = o;
      at = e;
      below = leb→le o pos le;
      beyond = b.beyond;
    }

go_left :
    (offsets : List ℕ) (pos left right o : ℕ)
    → Between offsets pos left right
    → ltb left right ≡ true
    → get_elem? offsets ((left + right + 1) / 2) ≡ some o
    → leb o pos ≡ false
    → Between offsets pos left ((left + right + 1) / 2 - 1)
go_left offsets pos left right o b go e gt =
    let lt : left < right = ltb→lt left right go in
    let back : suc ((left + right + 1) / 2 - 1) ≡ (left + right + 1) / 2 = omega arith in
    record {
      ordered = omega arith;
      inside = omega (arith, b.inside);
      offset = b.offset;
      at = b.at;
      below = b.below;
      beyond = λ x h. let same = rw back at h in ground (arith, same);
    }

search_line-IsLine :
    (fuel : ℕ) (offsets : List ℕ) (pos left right : ℕ)
    → Between offsets pos left right
    → right - left ≤ fuel
    → (k : ℕ) × (search_line fuel offsets pos left right ≡ ok k) × IsLine offsets pos k
search_line-IsLine zero offsets pos left right b enough =
    (left, (unfold search_line in refl), IsLine-Between offsets pos left right b (omega arith))
search_line-IsLine (suc fuel) offsets pos left right b enough = elim (Bool-cases (ltb left right)) [
  | inr stop ↦ (
    left,
    search_line_stop fuel offsets pos left right stop,
    IsLine-Between offsets pos left right b (ground arith),
  )
  | inl go ↦
      let lt : left < right = ltb→lt left right go in
      let (o, e) = get_elem?-some offsets ((left + right + 1) / 2) (omega (arith, b.inside)) in
      rw (search_line_go fuel offsets pos left right o go e) (elim (Bool-cases (leb o pos)) [
        | inl le ↦ rw le (
            search_line-IsLine fuel offsets pos ((left + right + 1) / 2) right
              (go_right offsets pos left right o b go e le) (omega arith))
        | inr gt ↦ rw gt (
            search_line-IsLine fuel offsets pos left ((left + right + 1) / 2 - 1)
              (go_left offsets pos left right o b go e gt) (omega arith))
      ])
]

-- From the whole list, whose first offset is at most the position.
pub search_line_all :
    (offset : ℕ) (rest : List ℕ) (pos : ℕ)
    → offset ≤ pos
    → (k : ℕ) × (search_line (length rest) (offset ∷ rest) pos 0 (length rest) ≡ ok k)
      × IsLine (offset ∷ rest) pos k
search_line_all offset rest pos le =
    search_line-IsLine (length rest) (offset ∷ rest) pos 0 (length rest)
      (record {
        ordered = omega arith;
        inside = omega arith;
        offset = offset;
        at = refl;
        below = le;
        beyond = λ o h. absurd (omega (arith, lt_of_get_elem? rest (length rest) o h));
      })
      (omega arith)
