-- ===== src/Whitespace.antt =====
-- src/ftllexengine/syntax/parser/whitespace.py: blank text, and where a pattern goes on or starts on
-- the next line.
pub mod Lines
pub mod Indents
use ftllex_engine.Base.{
  ℕ, zero, suc, ◌+◌, ◌-◌, Bool, true, false, not, ◌&&◌, ◌||◌, length, ◌==◌, if◌then◌else◌,
}
use ftllex_engine.Cursor.{Cursor, step, at_char, skip_spaces, skip_whitespace}
use ftllex_engine.Primitives.{current_is, left}

unfoldable pub skip_blank_inline : Cursor → Cursor
skip_blank_inline c = skip_spaces c

unfoldable pub skip_blank : Cursor → Cursor
skip_blank c = skip_whitespace c

-- `while not cursor.is_eof and cursor.current == ch: cursor = cursor.advance()`, on fuel.
unfoldable pub skip_run : ℕ → ℕ → Cursor → Cursor
skip_run ch zero c = c
skip_run ch (suc fuel) c = elim (at_char c ch) [ false ↦ c | true ↦ skip_run ch fuel (step c) ]

-- `in ("[", "*", ".", "}")`.
abbrev pub is_special : ℕ → Bool
is_special ch = ch == b'[' || ch == b'*' || ch == b'.' || ch == b'}'

-- The first character behind the newline at the cursor and the newlines behind it.
abbrev pub behind_newlines : Cursor → Cursor
behind_newlines c = skip_run b'\n' (left (step c)) (step c)

unfoldable pub is_indented_continuation : Cursor → Bool
is_indented_continuation c =
    if at_char c b'\n'
    then (let next_cursor = behind_newlines c in
        if at_char next_cursor b' '
        then not (current_is is_special (skip_run b' ' (left next_cursor) next_cursor))
        else false)
    else false

-- The loop that counts the indentation, on fuel.
unfoldable pub count_indent : ℕ → ℕ → Cursor → Cursor × ℕ
count_indent zero indent c = (c, indent)
count_indent (suc fuel) indent c = elim (at_char c b' ') [
  | false ↦ (c, indent)
  | true ↦ count_indent fuel (indent + 1) (step c)
]

unfoldable pub skip_multiline_pattern_start : Cursor → Cursor × ℕ
skip_multiline_pattern_start c =
    let d = skip_blank_inline c in
    if at_char d b'\n'
    then (if is_indented_continuation d
        then count_indent (left (behind_newlines d)) 0 (behind_newlines d)
        else (d, 0))
    else (d, 0)
