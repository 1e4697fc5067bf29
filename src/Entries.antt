-- ===== src/Entries.antt =====
-- src/ftllexengine/syntax/parser/entries.py: messages, terms, attributes and comments.
pub mod Valid
pub mod Sound
pub mod Definitions
pub mod Comments
use ftllex_engine.Base.{
  ℕ, zero, suc, ◌+◌, ◌*◌, Bool, true, false, not, ◌&&◌, ◌||◌, Option, none, some, List, [], ◌∷◌,
  Text, slice, ltb, ◌==◌, if◌then◌else◌,
}
use ftllex_engine.Cursor.{Cursor, at_char, step, skip_spaces, skip_to_line_end, skip_line_end}
use ftllex_engine.Primitives.{left}
use ftllex_engine.Whitespace.{skip_blank_inline, skip_run, skip_multiline_pattern_start}
use ftllex_engine.Syntax.{Span, Identifier, Pattern, no_elements}
use ftllex_engine.Outcome.{ParseContext, Outcome, found, missing, raising, out_of_fuel, ◌⟫◌}
use ftllex_engine.Terminals.{identifier_node, closing, span_of}
use ftllex_engine.Grammar.{parse_pattern}

-- `CommentType` of enums.py.
pub data CommentType : Type 0 where
  comment group resource : CommentType

pub record Comment : Type 0 where
  pub content : Text
  pub kind : CommentType
  pub span : Span

pub record Attribute : Type 0 where
  pub id : Identifier
  pub value : Pattern
  pub span : Span

-- `Message` and `Term`; the parser always gives a message a value.
pub record Definition : Type 0 where
  pub id : Identifier
  pub value : Pattern
  pub attributes : List Attribute
  pub comment : Option Comment
  pub span : Span

-- `parse_pattern` with fuel for the text that is left, behind `skip_multiline_pattern_start`.
unfoldable pub pattern_behind : ParseContext → Bool → Cursor → Outcome Pattern
pattern_behind k flag c =
    let (d, initial_indent) = skip_multiline_pattern_start c in
    parse_pattern (6 * left d + 2) k flag initial_indent d

-- An identifier and the `=` behind it; `parse_message_header`, and the same lines of the attributes
-- and the terms.
unfoldable pub parse_message_header : Bool → Cursor → Outcome Identifier
parse_message_header flag c =
    identifier_node flag c ⟫ λ id d u. closing b'=' id (skip_blank_inline d) u

-- `parse_attribute` at its `.`.
unfoldable pub attribute_at : ParseContext → Bool → Cursor → Outcome Attribute
attribute_at k flag c = parse_message_header flag (step c) ⟫ λ id d u.
    pattern_behind k u d ⟫ λ value e v.
    found (record { id = id; value = value; span = span_of c.pos e.pos }) e v

unfoldable pub parse_attribute : ParseContext → Bool → Cursor → Outcome Attribute
parse_attribute k flag c =
    let d = skip_blank_inline c in if at_char d b'.' then attribute_at k flag d else missing flag

-- The loop of `parse_message_attributes`, on fuel.
unfoldable pub attributes_loop : ℕ → ParseContext → Bool → Cursor → Outcome (List Attribute)
attributes_loop zero k flag c = out_of_fuel
attributes_loop (suc f) k flag c = elim (at_char c b'\n') [
  | false ↦ found [] c flag
  | true ↦
      let saved = skip_run b'\n' (left (step c)) (step c) in
      elim (at_char (skip_spaces saved) b'.') [
        | false ↦ found [] saved flag
        | true ↦ elim (parse_attribute k flag saved) [
          | found a d u ↦ attributes_loop f k u d ⟫ λ rest e v. found (a ∷ rest) e v
          | missing u ↦ found [] saved u
          | raising e ↦ raising e
          | out_of_fuel ↦ out_of_fuel
        ]
      ]
]

unfoldable pub parse_message_attributes : ParseContext → Bool → Cursor → Outcome (List Attribute)
parse_message_attributes k flag c = attributes_loop (suc (left c)) k flag c

-- `len(pattern.elements) > 0`.
unfoldable pub has_elements : Pattern → Bool
has_elements no_elements = false
has_elements _ = true

unfoldable pub validate_message_content : Pattern → List Attribute → Bool
validate_message_content pattern [] = has_elements pattern
validate_message_content pattern (a ∷ attributes) = true

-- The node of a message or a term that starts at `start`.
abbrev pub definition : ℕ → Identifier → Pattern → List Attribute → Cursor → Definition
definition start id value attributes c = record {
  id = id;
  value = value;
  attributes = attributes;
  comment = none;
  span = span_of start c.pos;
}

unfoldable pub parse_message : ParseContext → Bool → Cursor → Outcome Definition
parse_message k flag c = parse_message_header flag c ⟫ λ id d u. pattern_behind k u d ⟫ λ value e v.
    parse_message_attributes k v e ⟫ λ attributes g t.
    if validate_message_content value attributes
    then found (definition c.pos id value attributes g) g t
    else missing t

-- `parse_term` behind its `-`.
unfoldable pub term_at : ParseContext → Bool → Cursor → Outcome Definition
term_at k flag c = parse_message_header flag (step c) ⟫ λ id d u.
    pattern_behind k u d ⟫ λ value e v. elim (has_elements value) [
      | false ↦ missing v
      | true ↦ parse_message_attributes k v e ⟫ λ attributes g t.
          found (definition c.pos id value attributes g) g t
    ]

unfoldable pub parse_term : ParseContext → Bool → Cursor → Outcome Definition
parse_term k flag c = if at_char c b'-' then term_at k flag c else missing flag

-- `while not temp_cursor.is_eof and temp_cursor.current == "#"`, on fuel.
unfoldable pub hash_run : ℕ → ℕ → Cursor → ℕ × Cursor
hash_run zero n c = (n, c)
hash_run (suc fuel) n c = elim (at_char c b'#') [
  | false ↦ (n, c)
  | true ↦ hash_run fuel (n + 1) (step c)
]

-- `_COMMENT_TYPE_BY_HASH_COUNT[hash_count - 1]`, where index -1 is the last.
unfoldable pub comment_type : ℕ → CommentType
comment_type n = if n == 1 then comment else if n == 2 then group else resource

-- `parse_comment` behind its `#` characters.
unfoldable pub comment_behind : ℕ → CommentType → Bool → Cursor → Outcome Comment
comment_behind start kind flag c =
    let d = if at_char c b' ' then step c else c in
    let e = skip_to_line_end d in
    let g = skip_line_end e in
    found (record { content = slice e.source d.pos e.pos; kind = kind; span = span_of start g.pos })
      g flag

unfoldable pub parse_comment : Bool → Cursor → Outcome Comment
parse_comment flag c =
    let (hash_count, d) = hash_run (left c) 0 c in
    if ltb 3 hash_count then missing flag else comment_behind c.pos (comment_type hash_count) flag d
