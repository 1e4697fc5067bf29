-- ===== src/Patterns/Kept.antt =====
-- The steps that build a pattern keep the placeables it has.
use ftllex_engine.Base.{ℕ, [], ◌∷◌, Text, List, length, drop_while, Option-elim}
use ftllex_engine.Cursor.{is_blank}
use ftllex_engine.Syntax.{Pattern, Expression, no_elements, text_element, placeable_element, append}
use ftllex_engine.Syntax.Valid.{PatternIn, PlaceableIn}
use ftllex_engine.Patterns.{
  PatternState, trim_front, trim_text, trim_last, trim_end, trim_pattern_blank_lines,
  append_newline, flush, add_text, add_placeable, joined,
}

module _ (text : Text) (levels : ℕ) where
  pub append-PatternIn :
      (p q : Pattern)
      → PatternIn text levels p
      → PatternIn text levels q
      → PatternIn text levels (append p q)
  unfolding append PatternIn
  append-PatternIn no_elements q a b = b
  append-PatternIn (text_element t p) q a b = append-PatternIn p q a b
  append-PatternIn (placeable_element e p) q (h, a) b = (h, append-PatternIn p q a b)

  pub append_newline-PatternIn :
      (p : Pattern) → PatternIn text levels p → PatternIn text levels (append_newline p)
  unfolding append_newline PatternIn
  append_newline-PatternIn no_elements a = tt
  append_newline-PatternIn (text_element t no_elements) a = tt
  append_newline-PatternIn (text_element t (text_element u p)) a =
      append_newline-PatternIn (text_element u p) a
  append_newline-PatternIn (text_element t (placeable_element e p)) a =
      append_newline-PatternIn (placeable_element e p) a
  append_newline-PatternIn (placeable_element e p) (h, a) = (h, append_newline-PatternIn p a)

  kept :
      (t : Text) (p : Pattern) (u : Text)
      → PatternIn text levels p
      → PatternIn text levels (trim_front p)
      → PatternIn text levels (elim u as (λ _. Pattern) [
        | [] ↦ trim_front p
        | ch ∷ stripped ↦ text_element (ch ∷ stripped) p
      ])
  unfolding PatternIn
  kept t p [] a b = b
  kept t p (ch ∷ u) a b = a

  trim_front-PatternIn :
      (p : Pattern) → PatternIn text levels p → PatternIn text levels (trim_front p)
  unfolding trim_front PatternIn
  trim_front-PatternIn no_elements a = tt
  trim_front-PatternIn (text_element t p) a =
      kept t p (drop_while is_blank t) a (trim_front-PatternIn p a)
  trim_front-PatternIn (placeable_element e p) a = a

  trim_last-PatternIn :
      (t : Text) (p : Pattern) → PatternIn text levels p → PatternIn text levels (trim_last t p)
  unfolding PatternIn
  trim_last-PatternIn t no_elements a =
      Option-elim (PatternIn text levels) (trim_text (length t) t) tt (λ _. tt)
  trim_last-PatternIn t (text_element u p) a = a
  trim_last-PatternIn t (placeable_element e p) a = a

  trim_end-PatternIn : (p : Pattern) → PatternIn text levels p → PatternIn text levels (trim_end p)
  unfolding trim_end PatternIn
  trim_end-PatternIn no_elements a = tt
  trim_end-PatternIn (text_element t p) a =
      trim_last-PatternIn t (trim_end p) (trim_end-PatternIn p a)
  trim_end-PatternIn (placeable_element e p) (h, a) = (h, trim_end-PatternIn p a)

  pub trim-PatternIn :
      (p : Pattern) → PatternIn text levels p → PatternIn text levels (trim_pattern_blank_lines p)
  unfolding trim_pattern_blank_lines
  trim-PatternIn p a = trim_end-PatternIn (trim_front p) (trim_front-PatternIn p a)

  pub flush-PatternIn :
      (s : PatternState)
      → PatternIn text levels s.elements
      → PatternIn text levels (flush s).elements
  unfolding flush PatternIn
  flush-PatternIn s a = kept (s.fragments)
    where
      kept :
          (texts : List Text)
          → PatternIn text levels
              (elim texts as (λ _. PatternState) [
                | [] ↦ s
                | t ∷ ts ↦ record s {
                  elements = append s.elements (text_element (joined (t ∷ ts)) no_elements);
                  fragments = [];
                }
              ]).elements
      kept [] = a
      kept (t ∷ ts) = append-PatternIn s.elements _ a tt

  pub add_text-PatternIn :
      (s : PatternState) (t : Text)
      → PatternIn text levels s.elements
      → PatternIn text levels (add_text s t).elements
  unfolding add_text PatternIn
  add_text-PatternIn s t a = append-PatternIn s.elements _ a tt

  pub add_placeable-PatternIn :
      (s : PatternState) (e : Expression)
      → PatternIn text levels s.elements
      → PlaceableIn text levels e
      → PatternIn text levels (add_placeable s e).elements
  unfolding add_placeable PatternIn
  add_placeable-PatternIn s e a h = append-PatternIn s.elements _ a (h, tt)
