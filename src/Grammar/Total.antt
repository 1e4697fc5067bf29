-- ===== src/Grammar/Total.antt =====
-- Fuel for the text that is left is enough, so the rules return, and what they return fits the text.
use ftllex_engine.Base.{ℕ, zero, suc, ◌+◌, ◌*◌, ◌<◌, refl, Bool, Text, arith}
use ftllex_engine.Cursor.{Cursor}
use ftllex_engine.Cursor.Scan.{IsValid}
use ftllex_engine.Primitives.{left}
use ftllex_engine.Syntax.Valid.{PlaceableIn}
use ftllex_engine.Outcome.{ParseContext, levels, Ensures}
use ftllex_engine.Terminals.Onward.{Onward}
use ftllex_engine.Terminals.Names.{Yields}
use ftllex_engine.Grammar.{parse_placeable}
use ftllex_engine.Grammar.Sound.{Rules}
use ftllex_engine.Grammar.Sound.Placeables.{
  placeable-step, inline_expression-step, argument_expression-step, hyphen-step,
}
use ftllex_engine.Grammar.Sound.Calls.{
  identifier-step, function_reference-step, term_reference-step, call_arguments-step,
  arguments_loop-step, named_argument-step,
}
use ftllex_engine.Grammar.Sound.Selects.{
  select_expression-step, variants_loop-step, variant-step, simple_pattern-step, pattern_loop-step,
}

-- Without fuel there is no text that is short enough.
Rules-zero : (text : Text) → Rules text 0
Rules-zero text = record {
  placeable = λ k flag o h. absurd (omega arith);
  inline_expression = λ k flag o h. absurd (omega arith);
  argument_expression = λ k flag o h. absurd (omega arith);
  hyphen = λ k flag o h. absurd (omega arith);
  identifier = λ k flag o h. absurd (omega arith);
  function_reference = λ k flag o h. absurd (omega arith);
  term_reference = λ k flag o h. absurd (omega arith);
  call_arguments = λ k flag o h. absurd (omega arith);
  arguments_loop = λ k seen seen_named flag o settled h. absurd (omega arith);
  named_argument = λ k seen a flag o i h. absurd (omega arith);
  select_expression = λ k flag selector start o le i valid h. absurd (omega arith);
  variants_loop = λ k flag o h. absurd (omega arith);
  variant = λ k flag o h. absurd (omega arith);
  simple_pattern = λ k flag o h. absurd (omega arith);
  pattern_loop = λ ends k flag s o i h. absurd (omega arith);
}

pub all-Rules : (text : Text) (f : ℕ) → Rules text f
all-Rules text zero = Rules-zero text
all-Rules text (suc f) =
    let r = all-Rules text f in
    record {
      placeable = placeable-step text f r;
      inline_expression = inline_expression-step text f r;
      argument_expression = argument_expression-step text f r;
      hyphen = hyphen-step text f r;
      identifier = identifier-step text f r;
      function_reference = function_reference-step text f r;
      term_reference = term_reference-step text f r;
      call_arguments = call_arguments-step text f r;
      arguments_loop = arguments_loop-step text f r;
      named_argument = named_argument-step text f r;
      select_expression = select_expression-step text f r;
      variants_loop = variants_loop-step text f r;
      variant = variant-step text f r;
      simple_pattern = simple_pattern-step text f r;
      pattern_loop = pattern_loop-step text f r;
    }

-- On a valid cursor, with fuel for the text that is left, `parse_placeable` raises nothing and
-- returns None, or a placeable with a valid cursor, at least one character on in the same text. Its
-- tree nests placeables and calls no deeper than the context has levels left; each identifier is a
-- name of the grammar and stands in the text where its span says; the other spans are ordered and
-- inside the text; each select expression has exactly one default variant and no placeable for a
-- selector; no call has two named arguments of one name.
pub parse_placeable-Ensures :
    (f : ℕ) (k : ParseContext) (flag : Bool) (c : Cursor)
    → IsValid c
    → 6 * left c + 4 < f
    → Ensures
        (Yields c.source (suc c.pos) (PlaceableIn c.source (levels k)))
        (parse_placeable f k flag c)
parse_placeable-Ensures f k flag c v h =
    let o : Onward c.source 0 c = (refl, omega arith, v) in
    (all-Rules c.source f).placeable k flag o h
