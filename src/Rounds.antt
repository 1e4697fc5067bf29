-- ===== src/Rounds.antt =====
-- src/ftllexengine/syntax/parser/core.py: the rounds of the loop of `FluentParserV1.parse`, the
-- method itself, its streaming version, and the constructor.
pub mod Valid
pub mod Steps
pub mod Sound
pub mod Definitions
pub mod Total
pub mod JunkCount
pub mod JunkLimit
pub mod LineEndings
use ftllex_engine.Base.{
  ℕ, zero, suc, ◌+◌, ◌-◌, Bool, true, false, not, ◌&&◌, ◌||◌, Option, none, some, List, [], ◌∷◌,
  ◌++◌, Text, length, ltb, leb, ◌==◌, if◌then◌else◌, Exn, ok, raised, value_error, ℤ, Exception,
}
use ftllex_engine.Cursor.{Cursor, is_eof, at_char, step, skip_to_line_end}
use ftllex_engine.Primitives.{left}
use ftllex_engine.Whitespace.{skip_blank}
use ftllex_engine.Outcome.{ParseContext, Outcome, found, missing, raising, out_of_fuel, ◌⟫◌}
use ftllex_engine.Entries.{
  CommentType, comment, group, resource, Comment, Definition, parse_message, parse_term,
  parse_comment,
}
use ftllex_engine.ResourceParser.{
  JunkCode, parse_junk, parse_nesting_depth_exceeded, Entry, message_entry, term_entry,
  comment_entry, FluentParser, normalize_line_endings, has_blank_line_between, is_at_column_one,
  CommentAccumulator, accumulate, add_comment, finalize, ParserState, pending_entries,
  consume_junk_lines, junk_of, Round, breaks, goes_on, stuck, raises, after_junk, no_pending,
}

-- `==` on `CommentType`.
abbrev same_kind : CommentType → CommentType → Bool
same_kind comment comment = true
same_kind group group = true
same_kind resource resource = true
same_kind _ _ = false

-- An indented entry is junk, with the blanks in front of it from `start` on.
unfoldable pub indented_round : FluentParser → ParserState → ℕ → Cursor → Round
indented_round p s start c =
    let d = consume_junk_lines c in
    after_junk p (no_pending s) (pending_entries s ++ junk_of start start parse_junk d ∷ []) d d

-- A comment joins the pending one of its kind with no blank line between, or is pending itself.
unfoldable pub comment_round : ParserState → ℕ → Comment → Cursor → Round
comment_round s pos_after_blank new d = elim s.pending [
  | none ↦ goes_on [] (record s { pending = some (accumulate new); pending_end = d.pos }) d
  | some a ↦
      if same_kind a.kind new.kind
        && not (has_blank_line_between d.source s.pending_end pos_after_blank)
      then goes_on [] (record s { pending = some (add_comment a new); pending_end = d.pos }) d
      else goes_on (comment_entry (finalize a) ∷ [])
          (record s { pending = some (accumulate new); pending_end = d.pos }) d
]

-- A line that begins with `#` and is no comment is junk, up to its end.
unfoldable pub bad_comment_round : FluentParser → ParserState → Cursor → Round
bad_comment_round p s c =
    let d = skip_to_line_end c in
    after_junk p s (junk_of c.pos d.pos parse_junk d ∷ []) d (if is_eof d then d else step d)

-- The comment that is attached to the entry at `pos_after_blank`.
unfoldable pub attach_comment : ParserState → Text → ℕ → Option Comment
attach_comment s source pos_after_blank = elim s.pending [
  | none ↦ none
  | some a ↦
      if same_kind a.kind comment
        && not (has_blank_line_between source s.pending_end pos_after_blank)
      then some (finalize a)
      else none
]

-- The entries in front of it: the pending comment, if it is not attached.
unfoldable pub unattached : ParserState → Option Comment → List Entry
unattached s none = pending_entries s
unattached s (some c) = []

-- The node of the entry, with the comment if there is one.
unfoldable pub with_comment : Option Comment → Definition → Definition
with_comment none d = d
with_comment (some c) d = record d { comment = some c }

-- The comment that would be attached to a definition stands alone without one.
unfoldable pub orphan : Option Comment → List Entry
orphan none = []
orphan (some note) = comment_entry note ∷ []

-- Neither a term nor a message: the lines are junk, behind the comment that would be attached.
unfoldable pub failed_round :
    FluentParser → ParserState → List Entry → Option Comment → Cursor → Round
failed_round p s before attached c =
    let d = consume_junk_lines c in
    let code = if s.depth_exceeded then parse_nesting_depth_exceeded else parse_junk in
    after_junk p s (before ++ orphan attached ++ junk_of c.pos c.pos code d ∷ []) d d

-- A message, or junk.
unfoldable pub message_round :
    FluentParser → ParseContext → ParserState → List Entry → Option Comment → Cursor → Round
message_round p k s before attached c = elim (parse_message k s.depth_exceeded c) [
  | found m d u ↦
      goes_on (before ++ message_entry (with_comment attached m) ∷ [])
        (record s { depth_exceeded = u }) d
  | missing u ↦ failed_round p (record s { depth_exceeded = u }) before attached c
  | raising e ↦ raises e
  | out_of_fuel ↦ stuck
]

-- A term, if the entry begins with `-`; else a message.
unfoldable pub definition_round :
    FluentParser → ParseContext → ParserState → List Entry → Option Comment → Cursor → Round
definition_round p k s before attached c = elim (at_char c b'-') [
  | false ↦ message_round p k s before attached c
  | true ↦ elim (parse_term k s.depth_exceeded c) [
    | found t d u ↦
        goes_on (before ++ term_entry (with_comment attached t) ∷ [])
          (record s { depth_exceeded = u }) d
    | missing u ↦ message_round p k (record s { depth_exceeded = u }) before attached c
    | raising e ↦ raises e
    | out_of_fuel ↦ stuck
  ]
]

-- What begins in the first column: a comment, or a definition.
unfoldable pub entry_round : FluentParser → ParseContext → ParserState → Cursor → Round
entry_round p k s c = elim (at_char c b'#') [
  | true ↦ elim (parse_comment s.depth_exceeded c) [
    | found new d u ↦ comment_round s c.pos new d
    | missing u ↦ bad_comment_round p s c
    | raising e ↦ raises e
    | out_of_fuel ↦ stuck
  ]
  | false ↦
      let attached = attach_comment s c.source c.pos in
      definition_round p k (no_pending s) (unattached s attached) attached c
]

-- One round of the loop at a cursor that is not at the end.
unfoldable pub parse_round : FluentParser → ParseContext → ParserState → Cursor → Round
parse_round p k s c =
    let d = skip_blank c in
    if is_eof d
    then breaks (pending_entries s) d s.depth_exceeded
    else if is_at_column_one d
    then entry_round p k s d
    else indented_round p s c.pos d

-- The loop of `parse`, on fuel, and what is pending behind it.
unfoldable pub parse_entries :
    ℕ → FluentParser → ParseContext → ParserState → Cursor → Outcome (List Entry)
parse_entries zero p k s c = out_of_fuel
parse_entries (suc f) p k s c = elim (is_eof c) [
  | true ↦ found (pending_entries s) c s.depth_exceeded
  | false ↦ elim (parse_round p k s c) [
    | breaks entries d u ↦ found entries d u
    | goes_on entries t d ↦ parse_entries f p k t d ⟫ λ rest e u. found (entries ++ rest) e u
    | stuck ↦ out_of_fuel
    | raises e ↦ raising e
  ]
]

-- The state in front of the first round.
abbrev pub initial_state : ParserState
initial_state = record { pending = none; pending_end = 0; junk_count = 0; depth_exceeded = false }

-- `parse` behind its test of the size, on the normalized source.
unfoldable pub parse_source : FluentParser → Text → Outcome (List Entry)
parse_source p source =
    parse_entries (suc (length source)) p
      (record { max_nesting_depth = p.max_nesting_depth; current_depth = 0 }) initial_state
      (record { source = source; pos = 0 })

-- `FluentParserV1.parse`.
unfoldable pub parse : FluentParser → Text → Outcome (List Entry)
parse p source =
    if ltb 0 p.max_source_size && ltb p.max_source_size (length source)
    then raising value_error
    else parse_source p (normalize_line_endings source)

abbrev or_default : Option ℕ → ℕ → ℕ
or_default none n = n
or_default (some m) n = m

-- `max_nesting_depth` clamped below `sys.getrecursionlimit()`.
abbrev clamped : ℕ → ℕ → ℕ
clamped recursion_limit requested =
    if ltb (recursion_limit - 50) requested then recursion_limit - 50 else requested

-- `FluentParserV1.__init__`, with the recursion limit of the interpreter, which is above 50. A size or a
-- count below 0 turns its check off as 0 does, and is left out.
unfoldable pub new_parser : ℕ → Option ℕ → Option ℤ → Option ℕ → Exn FluentParser
new_parser recursion_limit max_source_size max_nesting_depth max_parse_errors =
    elim max_nesting_depth [
      | none ↦ made 100
      | some (ℤ.negsuc n) ↦ raised value_error
      | some (ℤ.pos zero) ↦ raised value_error
      | some (ℤ.pos (suc n)) ↦ made (suc n)
    ]
  where
    made : ℕ → Exn FluentParser
    made requested = ok (record {
      max_source_size = or_default max_source_size 10_000_000;
      max_nesting_depth = clamped recursion_limit requested;
      max_parse_errors = or_default max_parse_errors 100;
    })
