-- ===== src/Cursor.antt =====
-- src/ftllexengine/syntax/cursor.py: the class `Cursor`, an immutable position in a source text.
pub mod Scan
pub mod Moves
use ftllex_engine.Base.{
  ℕ, zero, suc, ◌+◌, ◌-◌, min, Bool, true, false, not, ◌&&◌, ◌||◌, Option, none, some, List, [],
  ◌∷◌, Text, length, get_elem?, take, drop, slice, ltb, leb, ◌==◌, if◌then◌else◌, Exn, ok, raised,
  value_error, index_error, eof_error, ℤ, shift,
}

pub record Cursor : Type 0 where
  pub source : Text
  pub pos : ℕ

-- `Cursor(source, pos)` with its `__post_init__`.
unfoldable pub new : Text → ℤ → Exn Cursor
new source (ℤ.negsuc n) = raised value_error
new source (ℤ.pos n) =
    if ltb (length source) n then raised value_error else ok (record { source = source; pos = n })

unfoldable pub is_eof : Cursor → Bool
is_eof c = leb (length c.source) c.pos

-- `source[i]` for an index that is not negative.
unfoldable pub index {ℓ} : {A : Type ℓ} → List A → ℕ → Exn A
index xs i = elim (get_elem? xs i) [ none ↦ raised index_error | some x ↦ ok x ]

unfoldable pub current : Cursor → Exn ℕ
current c = if is_eof c then raised eof_error else index c.source c.pos

peek_at : Text → ℤ → Option ℕ
peek_at source (ℤ.negsuc n) = none
peek_at source (ℤ.pos n) = if leb (length source) n then none else get_elem? source n

unfoldable pub peek : Cursor → ℤ → Option ℕ
unfolding peek_at
peek c offset = peek_at c.source (shift c.pos offset)

unfoldable pub advance : Cursor → ℤ → Exn Cursor
unfolding new
advance c (ℤ.negsuc n) = raised value_error
advance c (ℤ.pos zero) = raised value_error
advance c (ℤ.pos (suc n)) = new c.source (ℤ.pos (min (c.pos + suc n) (length c.source)))

-- What `advance(count)` returns for a count of at least 1.
unfoldable pub moved : Cursor → ℕ → Cursor
moved c count = record c { pos = min (c.pos + count) (length c.source) }

-- `advance()`.
abbrev pub step : Cursor → Cursor
step c = moved c 1

unfoldable pub slice_to : Cursor → ℕ → Text
slice_to c end = slice c.source c.pos end

-- `while pos < length and <test of source[pos]>: pos += 1`, on fuel.
unfoldable pub scan : (ℕ → Bool) → Text → ℕ → ℕ → ℕ
scan test source zero pos = pos
scan test source (suc fuel) pos = elim (get_elem? source pos) [
  | none ↦ pos
  | some ch ↦ elim (test ch) [ true ↦ scan test source fuel (suc pos) | false ↦ pos ]
]

-- The loop of `skip_spaces` and `skip_whitespace`; the fuel is the text that is left.
unfoldable pub skip_while : (ℕ → Bool) → Cursor → Cursor
unfolding scan
skip_while test c =
    let pos = scan test c.source (length c.source - c.pos) c.pos in
    if pos == c.pos then c else record { source = c.source; pos = pos }

abbrev pub is_space : ℕ → Bool
is_space ch = ch == b' '

abbrev pub is_blank : ℕ → Bool
is_blank ch = ch == b' ' || ch == b'\n'

unfoldable pub skip_spaces : Cursor → Cursor
unfolding skip_while
skip_spaces c = skip_while is_space c

unfoldable pub skip_whitespace : Cursor → Cursor
unfolding skip_while
skip_whitespace c = skip_while is_blank c

-- `not cursor.is_eof and cursor.current == char`.
unfoldable pub at_char : Cursor → ℕ → Bool
at_char c char = not (is_eof c) && elim (current c) [ ok ch ↦ ch == char | raised e ↦ false ]

unfoldable pub expect : Cursor → ℕ → Option Cursor
unfolding at_char moved
expect c char = if at_char c char then some (step c) else none

unfoldable pub slice_ahead : Cursor → ℕ → Text
slice_ahead c n = slice c.source c.pos (c.pos + n)

unfoldable pub skip_line_end : Cursor → Cursor
unfolding at_char moved
skip_line_end c = if at_char c b'\n' then step c else c

-- `str.find` of one character in the rest `xs` of a text, which starts at offset `i`.
unfoldable pub find_in : ℕ → Text → ℕ → Option ℕ
find_in ch [] i = none
find_in ch (x ∷ xs) i = if x == ch then some i else find_in ch xs (suc i)

-- `source.find(ch, start)`.
unfoldable pub find : ℕ → Text → ℕ → Option ℕ
unfolding find_in
find ch source start = find_in ch (drop start source) start

unfoldable pub skip_to_line_end : Cursor → Cursor
unfolding find
skip_to_line_end c = elim (find b'\n' c.source c.pos) [
  | none ↦ record { source = c.source; pos = length c.source }
  | some newline_pos ↦
      if newline_pos == c.pos then c else record { source = c.source; pos = newline_pos }
]

-- `source.count(ch, 0, end)` is `count ch (take end source)`.
unfoldable pub count : ℕ → Text → ℕ
count ch [] = 0
count ch (x ∷ xs) = (if x == ch then 1 else 0) + count ch xs

-- `str.rfind` of one character in `xs`, which starts at offset `i`, after a last find `acc`.
unfoldable pub rfind_in : ℕ → Text → ℕ → Option ℕ → Option ℕ
rfind_in ch [] i acc = acc
rfind_in ch (x ∷ xs) i acc = rfind_in ch xs (suc i) (if x == ch then some i else acc)

-- `source.rfind(ch, 0, end)`.
unfoldable pub rfind : ℕ → Text → ℕ → Option ℕ
unfolding rfind_in
rfind ch source end = rfind_in ch (take end source) 0 none

unfoldable pub count_newlines_before : Cursor → ℕ
unfolding count
count_newlines_before c = count b'\n' (take c.pos c.source)

unfoldable pub compute_line_col : Cursor → ℕ × ℕ
unfolding count_newlines_before rfind
compute_line_col c = (
  count_newlines_before c + 1,
  elim (rfind b'\n' c.source c.pos) [ none ↦ c.pos + 1 | some last ↦ c.pos - last ],
)
