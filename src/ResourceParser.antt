-- ===== src/ResourceParser.antt =====
-- src/ftllexengine/syntax/parser/core.py: the class `FluentParserV1`, which reads a whole source.
use ftllex_engine.Base.{
  ℕ, zero, suc, ◌+◌, ◌-◌, Bool, true, false, not, ◌&&◌, ◌||◌, Option, none, some, List, [], ◌∷◌,
  ◌++◌, Text, get_elem?, slice, ltb, leb, ◌==◌, if◌then◌else◌, Exception,
}
use ftllex_engine.Cursor.{Cursor, is_eof, skip_spaces, skip_to_line_end, skip_line_end, count}
use ftllex_engine.Identifier.{is_identifier_start}
use ftllex_engine.Primitives.{current_is, left}
use ftllex_engine.Syntax.{Span}
use ftllex_engine.Terminals.{span_of}
use ftllex_engine.Entries.{CommentType, Comment, Definition}

-- `code` of the annotation of a junk entry.
pub data JunkCode : Type 0 where
  parse_junk parse_nesting_depth_exceeded : JunkCode

-- `Junk` with its one annotation, whose message text is left out.
pub record Junk : Type 0 where
  pub content : Text
  pub code : JunkCode
  pub annotation_span : Span
  pub span : Span

-- `Entry`.
pub data Entry : Type 0 where
  message_entry term_entry : Definition → Entry
  comment_entry : Comment → Entry
  junk_entry : Junk → Entry

-- The fields of `FluentParserV1`; 0 switches the two limits off.
pub record FluentParser : Type 0 where
  pub max_source_size : ℕ
  pub max_nesting_depth : ℕ
  pub max_parse_errors : ℕ

-- `re.sub(r"\r\n?", "\n", source)`, told whether a carriage return is just behind.
unfoldable pub normalize_from : Bool → Text → Text
normalize_from behind_cr [] = []
normalize_from behind_cr (ch ∷ text) =
    let rest = normalize_from (ch == b'\r') text in
    if ch == b'\r' then b'\n' ∷ rest else if behind_cr && ch == b'\n' then rest else ch ∷ rest

unfoldable pub normalize_line_endings : Text → Text
normalize_line_endings source = normalize_from false source

-- `_has_blank_line_between`: `source.find("\n", start, end) != -1`.
unfoldable pub has_blank_line_between : Text → ℕ → ℕ → Bool
has_blank_line_between source start end = not (count b'\n' (slice source start end) == 0)

-- `_is_at_column_one`.
unfoldable pub is_at_column_one : Cursor → Bool
is_at_column_one c =
    if c.pos == 0
    then true
    else elim (get_elem? c.source (c.pos - 1)) [ none ↦ false | some ch ↦ ch == b'\n' ]

-- `_CommentAccumulator`.
pub record CommentAccumulator : Type 0 where
  pub kind : CommentType
  pub contents : List Text
  pub first_span : Span
  pub last_span : Span

unfoldable pub accumulate : Comment → CommentAccumulator
accumulate c = record {
  kind = c.kind;
  contents = c.content ∷ [];
  first_span = c.span;
  last_span = c.span;
}

unfoldable pub add_comment : CommentAccumulator → Comment → CommentAccumulator
add_comment a c = record a { contents = a.contents ++ c.content ∷ []; last_span = c.span }

-- `"\n".join(contents)`.
unfoldable pub join_lines : List Text → Text
join_lines [] = []
join_lines (line ∷ []) = line
join_lines (line ∷ next ∷ lines) = line ++ b'\n' ∷ join_lines (next ∷ lines)

unfoldable pub finalize : CommentAccumulator → Comment
finalize a = record {
  content = join_lines a.contents;
  kind = a.kind;
  span = span_of a.first_span.start a.last_span.end;
}

-- The local state of `parse`, its list of entries apart.
pub record ParserState : Type 0 where
  pub pending : Option CommentAccumulator
  pub pending_end : ℕ
  pub junk_count : ℕ
  pub depth_exceeded : Bool

-- The comment that is pending, as it is put among the entries.
unfoldable pub pending_entries : ParserState → List Entry
pending_entries s = elim s.pending [ none ↦ [] | some a ↦ comment_entry (finalize a) ∷ [] ]

unfoldable pub junk_limit_exceeded : FluentParser → ℕ → Bool
junk_limit_exceeded p junk_count = ltb 0 p.max_parse_errors && leb p.max_parse_errors junk_count

-- The loop of `_consume_junk_lines`, on fuel.
unfoldable pub junk_lines : ℕ → Cursor → Cursor
junk_lines zero c = c
junk_lines (suc fuel) c = elim (is_eof c) [
  | true ↦ c
  | false ↦
      let d = skip_spaces c in
      elim (is_eof d) [
        | true ↦ d
        | false ↦
            elim (d.pos == c.pos
              && current_is (λ ch. ch == b'#' || ch == b'-' || is_identifier_start ch) d) [
                | true ↦ c
                | false ↦ junk_lines fuel (skip_line_end (skip_to_line_end d))
              ]
      ]
]

unfoldable pub consume_junk_lines : Cursor → Cursor
consume_junk_lines c = let d = skip_line_end (skip_to_line_end c) in junk_lines (suc (left d)) d

-- The junk from `start` to the cursor `c`; its annotation ends at `annotated`.
unfoldable pub junk_of : ℕ → ℕ → JunkCode → Cursor → Entry
junk_of start annotated code c = junk_entry (record {
  content = slice c.source start c.pos;
  code = code;
  annotation_span = span_of start annotated;
  span = span_of start c.pos;
})

-- How one round of the loop of `parse` ends: it breaks or goes on, with the entries it adds.
pub data Round : Type 0 where
  breaks : List Entry → Cursor → Bool → Round
  goes_on : List Entry → ParserState → Cursor → Round
  stuck : Round
  raises : Exception → Round

-- A junk entry is counted, and the round ends. What is pending behind the break is added.
unfoldable pub after_junk : FluentParser → ParserState → List Entry → Cursor → Cursor → Round
after_junk p s entries c next =
    if junk_limit_exceeded p (s.junk_count + 1)
    then breaks (entries ++ pending_entries s) c s.depth_exceeded
    else goes_on entries (record s { junk_count = s.junk_count + 1 }) next

-- No comment is pending.
abbrev pub no_pending : ParserState → ParserState
no_pending s = record s { pending = none; pending_end = 0 }
