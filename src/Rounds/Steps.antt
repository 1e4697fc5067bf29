-- ===== src/Rounds/Steps.antt =====
-- The parts of a round: junk, pending comments, and the comment that is attached.
use ftllex_engine.Base.{
  ℕ, zero, suc, ◌+◌, ◌≤◌, ◌≡◌, false, Option, none, some, List, [], ◌∷◌, ◌++◌, Text, All, length,
  ◌==◌, if◌then◌else◌, if-elim, Bool-elim, arith, ◌&&◌, ◌||◌, not,
}
use ftllex_engine.Cursor.{Cursor, is_eof, skip_spaces, skip_to_line_end, skip_line_end}
use ftllex_engine.Primitives.{left, current_is}
use ftllex_engine.Identifier.{is_identifier_start}
use ftllex_engine.Syntax.Valid.{SpanIn}
use ftllex_engine.Terminals.Onward.{Onward, Onward-here, Onward-le, skip_spaces-Onward}
use ftllex_engine.Entries.{Comment, CommentType, Definition}
use ftllex_engine.Entries.Valid.{DefinitionIn, OptionalCommentIn}
use ftllex_engine.Entries.Comments.{line-Onward}
use ftllex_engine.ResourceParser.{
  JunkCode, Entry, comment_entry, FluentParser, CommentAccumulator, finalize, ParserState,
  pending_entries, junk_limit_exceeded, junk_lines, consume_junk_lines, junk_of, Round, after_junk,
  has_blank_line_between,
}
use ftllex_engine.Rounds.{attach_comment, unattached, with_comment, same_kind}
use ftllex_engine.Rounds.Valid.{EntryIn, PendingIn, RoundIn, broken, gone_on}

junk_lines-Onward :
    (fuel : ℕ) {text : Text} {from : ℕ} {c : Cursor}
    → Onward text from c
    → Onward text c.pos (junk_lines fuel c)
unfolding junk_lines
junk_lines-Onward zero o = Onward-here o
junk_lines-Onward (suc fuel) {text} {c = c} o =
    let P : Cursor → Type 0 = Onward text c.pos in
    let d = skip_spaces c in
    let blank = skip_spaces-Onward o in
    let (_, a, _) = blank in
    Bool-elim P (is_eof c) (λ _. Onward-here o)
      λ _.
        Bool-elim P (is_eof d) (λ _. blank)
          λ inside.
            Bool-elim P
              (d.pos == c.pos
                && current_is (λ ch. ch == b'#' || ch == b'-' || is_identifier_start ch) d)
              (λ _. Onward-here o)
              (λ _.
                let line = line-Onward blank inside in
                let (_, b, _) = line in Onward-le (junk_lines-Onward fuel line) (omega arith))

-- Junk has at least one character.
pub consume_junk_lines-Onward :
    {text : Text} {from : ℕ} {c : Cursor}
    → Onward text from c
    → is_eof c ≡ false
    → Onward text (suc c.pos) (consume_junk_lines c)
unfolding consume_junk_lines
consume_junk_lines-Onward {c = c} o inside =
    let line = line-Onward o inside in
    let (_, a, _) = line in
    Onward-le (junk_lines-Onward (suc (left (skip_line_end (skip_to_line_end c)))) line) a

pub junk_of-EntryIn :
    {text : Text} (n : ℕ) {start annotated : ℕ} {d : Cursor} (code : JunkCode)
    → Onward text start d
    → start ≤ annotated
    → annotated ≤ d.pos
    → EntryIn text n (junk_of start annotated code d)
unfolding junk_of
junk_of-EntryIn n {start} {annotated} {d} code (same, ahead, inside) le end = record {
  span_in = (ahead, inside);
  content_of = rw same;
  annotation_in = (le, omega arith);
}

pub finalize-SpanIn :
    (text : Text) {offset : ℕ} (a : CommentAccumulator)
    → offset ≤ length text
    → PendingIn offset (some a)
    → SpanIn text (finalize a).span
unfolding finalize
finalize-SpanIn text a le (x, y) = (x, omega arith)

module _ (text : Text) (n : ℕ) where
  pub append-All :
      (xs ys : List Entry)
      → All (EntryIn text n) xs
      → All (EntryIn text n) ys
      → All (EntryIn text n) (xs ++ ys)
  append-All [] ys a b = b
  append-All (x ∷ xs) ys (h, a) b = (h, append-All xs ys a b)

  pending_of :
      {offset : ℕ} (pending : Option CommentAccumulator)
      → offset ≤ length text
      → PendingIn offset pending
      → All (EntryIn text n) (elim pending as (λ _. List Entry) [
        | none ↦ []
        | some a ↦ comment_entry (finalize a) ∷ []
      ])
  pending_of none le h = tt
  pending_of (some a) le h = (finalize-SpanIn text a le h, tt)

  pub pending-EntryIn :
      {offset : ℕ} (s : ParserState)
      → offset ≤ length text
      → PendingIn offset s.pending
      → All (EntryIn text n) (pending_entries s)
  unfolding pending_entries
  pending-EntryIn s le h = pending_of s.pending le h

  -- The round that ends in junk.
  pub after_junk-RoundIn :
      (p : FluentParser) (s : ParserState) (entries : List Entry) {from : ℕ} (c next : Cursor)
      → All (EntryIn text n) entries
      → PendingIn from s.pending
      → Onward text (suc from) c
      → Onward text (suc from) next
      → RoundIn text n from (after_junk p s entries c next)
  unfolding after_junk
  after_junk-RoundIn p s entries {from} c next h pending o o2 =
      let (same, a, inside) = o in
      let (_, a2, inside2) = o2 in
      if-elim {A = Round} (RoundIn text n from) (junk_limit_exceeded p (s.junk_count + 1)) _ _
        (broken
          (append-All entries (pending_entries s) h
            (pending-EntryIn {offset = from} s (omega arith) pending))
          (same, omega arith, inside))
        (gone_on h (PendingIn-le s.pending pending (omega arith)) o2)
    where
      PendingIn-le :
          {x y : ℕ} (a : Option CommentAccumulator) → PendingIn x a → x ≤ y → PendingIn y a
      PendingIn-le none h le = tt
      PendingIn-le (some a) (u, v) le = (u, omega arith)

  -- What is attached, and what is put in front of the entry.
  pub attach-OptionalCommentIn :
      {offset : ℕ} (s : ParserState) (source : Text) (at : ℕ)
      → offset ≤ length text
      → PendingIn offset s.pending
      → OptionalCommentIn text (attach_comment s source at)
  unfolding attach_comment
  attach-OptionalCommentIn {offset} s source at le h = attached s.pending h
    where
      attached :
          (pending : Option CommentAccumulator)
          → PendingIn offset pending
          → OptionalCommentIn text (elim pending as (λ _. Option Comment) [
            | none ↦ none
            | some a ↦
                if same_kind a.kind CommentType.comment
                  && not (has_blank_line_between source s.pending_end at)
                then some (finalize a)
                else none
          ])
      attached none h = tt
      attached (some a) h =
          if-elim {A = Option Comment} (OptionalCommentIn text)
            (same_kind a.kind CommentType.comment
              && not (has_blank_line_between source s.pending_end at))
            _ _ (finalize-SpanIn text a le h) tt

  pub unattached-EntryIn :
      {offset : ℕ} (s : ParserState) (attached : Option Comment)
      → offset ≤ length text
      → PendingIn offset s.pending
      → All (EntryIn text n) (unattached s attached)
  unfolding unattached
  unattached-EntryIn s none le h = pending-EntryIn s le h
  unattached-EntryIn s (some c) le h = tt

  pub with_comment-DefinitionIn :
      (attached : Option Comment) (d : Definition)
      → OptionalCommentIn text attached
      → DefinitionIn text n d
      → DefinitionIn text n (with_comment attached d)
  unfolding with_comment
  with_comment-DefinitionIn none d h i = i
  with_comment-DefinitionIn (some c) d h i = record {
    id_in = i.id_in;
    value_in = i.value_in;
    attributes_in = i.attributes_in;
    comment_in = h;
    span_in = i.span_in;
    has_content = i.has_content;
  }
