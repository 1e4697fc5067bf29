-- ===== src/Tests/CursorCases.antt =====
-- src/ftllexengine/syntax/cursor.py at concrete inputs.
use ftllex_engine.Base.{◌≡◌, refl, Text, codes, ok, ℤ, arith}
use ftllex_engine.Cursor.{
  Cursor, find, skip_spaces, skip_whitespace, skip_to_line_end, compute_line_col, is_space,
  is_blank,
}
use ftllex_engine.Cursor.Scan.{Skips, skip-Skips, not_newline}
use ftllex_engine.Cursor.Moves.{Advances, advance-Advances}
use ftllex_engine.LineOffsets.{build, get_line_col, clamp, line_starts, search_line}
use ftllex_engine.LineOffsets.Correct.{get_line_col-compute_line_col}

abbrev sample : Text
sample = codes "ab  \n cd"

abbrev at_two : Cursor
at_two = record { source = sample; pos = 2 }

skip-Skips_example :
    Skips is_space at_two (skip_spaces at_two)
    × Skips is_blank at_two (skip_whitespace at_two)
    × Skips not_newline at_two (skip_to_line_end at_two)
skip-Skips_example = skip-Skips at_two (omega arith)

skip_positions :
    ((skip_spaces at_two).pos ≡ 4)
    × ((skip_whitespace at_two).pos ≡ 6)
    × ((skip_to_line_end at_two).pos ≡ 4)
unfolding skip_spaces skip_whitespace skip_to_line_end
skip_positions = (refl, refl, refl)

advance-Advances_example : Advances at_two (ℤ.pos 9)
advance-Advances_example = advance-Advances at_two (ℤ.pos 9) (omega arith)

get_line_col_seven : get_line_col (build sample) (ℤ.pos 7) ≡ ok (2, 3)
unfolding get_line_col build clamp search_line line_starts find
get_line_col_seven = refl

get_line_col-compute_line_col_example :
    get_line_col (build sample) (ℤ.pos 7)
    ≡ ok (compute_line_col (record { source = sample; pos = 7 }))
get_line_col-compute_line_col_example = get_line_col-compute_line_col sample (ℤ.pos 7)
