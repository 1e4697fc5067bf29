-- ===== src/Rounds/Sound.antt =====
-- Each round of the loop of `parse` ends, without an exception, behind at least one character, and adds
-- entries that fit the text.
use ftllex_engine.Base.{
  ℕ, suc, ◌≤◌, ◌≡◌, ap, true, false, Option, none, some, List, [], ◌∷◌, ◌++◌, Text, All,
  if◌then◌else◌, if-elim, arith, ◌&&◌, not,
}
use ftllex_engine.Cursor.{Cursor, is_eof, at_char, skip_to_line_end}
use ftllex_engine.Syntax.{Span}
use ftllex_engine.Terminals.{span_of}
use ftllex_engine.Terminals.Onward.{Onward, Onward-le, step-Onward}
use ftllex_engine.Entries.{Comment}
use ftllex_engine.Entries.Valid.{OptionalCommentIn}
use ftllex_engine.ResourceParser.{
  Entry, comment_entry, FluentParser, CommentAccumulator, accumulate, add_comment, finalize,
  ParserState, pending_entries, consume_junk_lines, junk_of, Round, goes_on, no_pending,
  has_blank_line_between,
}
use ftllex_engine.Rounds.{same_kind}
use ftllex_engine.Rounds.Valid.{EntryIn, PendingIn, RoundIn, gone_on}
use ftllex_engine.Entries.Comments.{hash_line-Onward}
use ftllex_engine.ResourceParser.{parse_junk, parse_nesting_depth_exceeded}
use ftllex_engine.Rounds.{indented_round, comment_round, bad_comment_round, failed_round, orphan}
use ftllex_engine.Rounds.Steps.{
  consume_junk_lines-Onward, junk_of-EntryIn, finalize-SpanIn, append-All, pending-EntryIn,
  after_junk-RoundIn,
}

module _ (text : Text) (n : ℕ) where
  pub indented-RoundIn :
      (p : FluentParser) (s : ParserState) (start : ℕ) {from : ℕ} (c : Cursor)
      → Onward text from c
      → is_eof c ≡ false
      → start ≤ from
      → PendingIn start s.pending
      → RoundIn text n start (indented_round p s start c)
  unfolding indented_round
  indented-RoundIn p s start c o inside le pending =
      let (_, z, _) = o in
      let on = consume_junk_lines-Onward o inside in
      let (_, a, i) = on in
      let far : Onward text (suc start) (consume_junk_lines c) = Onward-le on (omega arith) in
      after_junk-RoundIn text n p (no_pending s) _ _ _
        (append-All text n (pending_entries s) _
          (pending-EntryIn text n {offset = start} s (omega arith) pending)
          (
            junk_of-EntryIn n parse_junk (Onward-le on (omega arith)) (omega arith) (omega arith),
            tt,
          ))
        tt far far

  pub comment-RoundIn :
      (s : ParserState) (at : ℕ) (new : Comment) {from : ℕ} (c d : Cursor)
      → from ≤ c.pos
      → PendingIn from s.pending
      → Onward text (suc c.pos) d
      → new.span ≡ span_of c.pos d.pos
      → RoundIn text n from (comment_round s at new d)
  unfolding comment_round accumulate add_comment
  comment-RoundIn s at new {from} c d le pending (same, a, inside) e = joined s.pending pending
    where
      start_is : new.span.start ≡ c.pos
      start_is = ap (λ (x : Span). x.start) e

      end_is : new.span.end ≡ d.pos
      end_is = ap (λ (x : Span). x.end) e

      joined :
          (q : Option CommentAccumulator)
          → PendingIn from q
          → RoundIn text n from (elim q as (λ _. Round) [
            | none ↦
                goes_on [] (record s { pending = some (accumulate new); pending_end = d.pos }) d
            | some a ↦
                if same_kind a.kind new.kind
                  && not (has_blank_line_between d.source s.pending_end at)
                then goes_on []
                    (record s { pending = some (add_comment a new); pending_end = d.pos })
                    d
                else goes_on
                    (comment_entry (finalize a) ∷ [])
                    (record s { pending = some (accumulate new); pending_end = d.pos })
                    d
          ])
      joined none h =
          gone_on tt (omega (arith, start_is, end_is), omega (arith, end_is))
            (same, omega arith, inside)
      joined (some b) (x, y) =
          if-elim {A = Round} (RoundIn text n from)
            (same_kind b.kind new.kind && not (has_blank_line_between d.source s.pending_end at)) _
            _
            (gone_on tt (omega (arith, end_is), omega (arith, end_is)) (same, omega arith, inside))
            (gone_on (finalize-SpanIn text {offset = from} b (omega arith) (x, y), tt)
              (omega (arith, start_is, end_is), omega (arith, end_is)) (same, omega arith, inside))

  pub bad_comment-RoundIn :
      (p : FluentParser) (s : ParserState) {from : ℕ} (c : Cursor)
      → Onward text from c
      → at_char c b'#' ≡ true
      → PendingIn from s.pending
      → RoundIn text n from (bad_comment_round p s c)
  unfolding bad_comment_round
  bad_comment-RoundIn p s {from} c o hash pending =
      let (_, z, _) = o in
      let d = skip_to_line_end c in
      let line = hash_line-Onward o hash in
      let (_, a, _) = line in
      let next = step-Onward line in
      let (_, b, _) = next in
      let far : Onward text (suc from) d = Onward-le line (omega arith) in
      after_junk-RoundIn text n p s _ _ _
        (
          junk_of-EntryIn n parse_junk (Onward-le line (omega arith)) (omega arith) (omega arith),
          tt,
        )
        pending far
        (if-elim {A = Cursor} (Onward text (suc from)) (is_eof d) _ _ far
          (Onward-le next (omega arith)))

  orphan-EntryIn :
      (attached : Option Comment)
      → OptionalCommentIn text attached
      → All (EntryIn text n) (orphan attached)
  unfolding orphan
  orphan-EntryIn none h = tt
  orphan-EntryIn (some c) h = (h, tt)

  pub failed-RoundIn :
      (p : FluentParser) (s : ParserState) (before : List Entry) (attached : Option Comment)
      {from : ℕ} (c : Cursor)
      → Onward text from c
      → is_eof c ≡ false
      → All (EntryIn text n) before
      → OptionalCommentIn text attached
      → PendingIn from s.pending
      → RoundIn text n from (failed_round p s before attached c)
  unfolding failed_round
  failed-RoundIn p s before attached {from} c o inside h i pending =
      let (_, z, _) = o in
      let on = consume_junk_lines-Onward o inside in
      let (_, a, _) = on in
      let far : Onward text (suc from) (consume_junk_lines c) = Onward-le on (omega arith) in
      let code = if s.depth_exceeded then parse_nesting_depth_exceeded else parse_junk in
      let junk = junk_of c.pos c.pos code (consume_junk_lines c) ∷ [] in
      after_junk-RoundIn text n p s (before ++ orphan attached ++ junk) _ _
        (append-All text n (before ++ orphan attached) junk
          (append-All text n before (orphan attached) h (orphan-EntryIn attached i))
          (junk_of-EntryIn n code (Onward-le on (omega arith)) (omega arith) (omega arith), tt))
        pending far far
