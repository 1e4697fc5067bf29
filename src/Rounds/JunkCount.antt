-- ===== src/Rounds/JunkCount.antt =====
-- A round counts the junk entries that it adds.
use ftllex_engine.Base.{
  ℕ, suc, ◌+◌, ◌≤◌, ◌<◌, ◌≡◌, refl, Bool, Option, none, some, List, [], ◌∷◌, ◌++◌, if◌then◌else◌,
  if-cases, if-elim, Bool-elim, arith, Exception, ltb, leb, ◌&&◌, not,
}
use ftllex_engine.Cursor.{Cursor, is_eof, at_char}
use ftllex_engine.Whitespace.{skip_blank}
use ftllex_engine.Outcome.{ParseContext, Outcome, found, missing, raising, out_of_fuel}
use ftllex_engine.Entries.{Comment, Definition, parse_message, parse_term, parse_comment}
use ftllex_engine.ResourceParser.{
  Entry, message_entry, term_entry, comment_entry, junk_entry, FluentParser, CommentAccumulator,
  accumulate, add_comment, finalize, ParserState, pending_entries, junk_limit_exceeded, junk_of,
  Round, breaks, goes_on, stuck, raises, after_junk, no_pending, is_at_column_one,
  has_blank_line_between,
}
use ftllex_engine.Rounds.{
  same_kind, indented_round, comment_round, bad_comment_round, unattached, orphan, with_comment,
  failed_round, message_round, definition_round, entry_round, parse_round,
}

-- The number of junk entries.
unfoldable pub junks : List Entry → ℕ
junks [] = 0
junks (junk_entry j ∷ entries) = suc (junks entries)
junks (message_entry d ∷ entries) = junks entries
junks (term_entry d ∷ entries) = junks entries
junks (comment_entry c ∷ entries) = junks entries

pub junks-append : (xs ys : List Entry) → junks (xs ++ ys) ≡ junks xs + junks ys
unfolding junks
junks-append [] ys = omega arith
junks-append (junk_entry j ∷ xs) ys = omega (arith, junks-append xs ys)
junks-append (message_entry d ∷ xs) ys = junks-append xs ys
junks-append (term_entry d ∷ xs) ys = junks-append xs ys
junks-append (comment_entry c ∷ xs) ys = junks-append xs ys

pending_of :
    (q : Option CommentAccumulator)
    → junks (elim q as (λ _. List Entry) [ none ↦ [] | some a ↦ comment_entry (finalize a) ∷ [] ])
      ≡ 0
unfolding junks
pending_of none = refl
pending_of (some a) = refl

pub junks-pending : (s : ParserState) → junks (pending_entries s) ≡ 0
unfolding pending_entries
junks-pending s = pending_of s.pending

junks-orphan : (attached : Option Comment) → junks (orphan attached) ≡ 0
unfolding orphan junks
junks-orphan none = refl
junks-orphan (some c) = refl

junks-unattached : (s : ParserState) (attached : Option Comment) → junks (unattached s attached) ≡ 0
unfolding unattached junks
junks-unattached s none = junks-pending s
junks-unattached s (some c) = refl

-- A round keeps the count of the junk entries, and stays below the limit when it goes on.
pub data Counted (max count : ℕ) : Round → Type 0 where
  broken :
      {entries : List Entry} {d : Cursor} {flag : Bool}
      → count + junks entries ≤ max
      → Counted max count (breaks entries d flag)
  gone_on :
      {entries : List Entry} {s : ParserState} {d : Cursor}
      → s.junk_count ≡ count + junks entries
      → s.junk_count < max
      → Counted max count (goes_on entries s d)
  stopped : Counted max count stuck
  failed : {e : Exception} → Counted max count (raises e)

module _ (p : FluentParser) where
  abbrev RoundCounted : ParserState → Round → Type 0
  RoundCounted s = Counted p.max_parse_errors s.junk_count

  after_junk-Counted :
      (s : ParserState) (entries : List Entry) (c next : Cursor)
      → s.junk_count < p.max_parse_errors
      → junks entries ≡ 1
      → RoundCounted s (after_junk p s entries c next)
  unfolding after_junk junk_limit_exceeded
  after_junk-Counted s entries c next lt one =
      let all = junks-append entries (pending_entries s) in
      let no_junk = junks-pending s in
      if-cases {A = Round} (RoundCounted s)
        (ltb 0 p.max_parse_errors && leb p.max_parse_errors (s.junk_count + 1))
        (λ _. broken (omega (arith, all, no_junk))) (λ below. gone_on (omega arith) (ground arith))

  -- One junk entry behind others that are none.
  last_junk :
      (entries : List Entry) (j : Entry)
      → junks entries ≡ 0
      → junks (j ∷ []) ≡ 1
      → junks (entries ++ j ∷ []) ≡ 1
  last_junk entries j empty one = omega (arith, junks-append entries (j ∷ []))

  failed-Counted :
      (s : ParserState) (before : List Entry) (attached : Option Comment) (c : Cursor)
      → s.junk_count < p.max_parse_errors
      → junks before ≡ 0
      → RoundCounted s (failed_round p s before attached c)
  unfolding failed_round junk_of junks
  failed-Counted s before attached c lt h = after_junk-Counted s _ _ _ lt (
      last_junk (before ++ orphan attached) _
        (omega (arith, junks-append before (orphan attached), junks-orphan attached)) refl)

  definition-cases :
      (s : ParserState) (r : Outcome Definition) {good : Definition → Cursor → Bool → Round}
      {bad : Bool → Round}
      → ((d : Definition) (c : Cursor) (u : Bool) → RoundCounted s (good d c u))
      → ((u : Bool) → RoundCounted s (bad u))
      → RoundCounted s (elim r as (λ _. Round) [
        | found d c u ↦ good d c u
        | missing u ↦ bad u
        | raising e ↦ raises e
        | out_of_fuel ↦ stuck
      ])
  definition-cases s (found d c u) f g = f d c u
  definition-cases s (missing u) f g = g u
  definition-cases s (raising e) f g = failed
  definition-cases s out_of_fuel f g = stopped

  message-Counted :
      (k : ParseContext) (s : ParserState) (before : List Entry) (attached : Option Comment)
      (c : Cursor)
      → s.junk_count < p.max_parse_errors
      → junks before ≡ 0
      → RoundCounted s (message_round p k s before attached c)
  unfolding message_round junks
  message-Counted k s before attached c lt h =
      definition-cases s (parse_message k s.depth_exceeded c)
        {good = λ d g u.
          goes_on (before ++ message_entry (with_comment attached d) ∷ [])
            (record s { depth_exceeded = u }) g}
        (λ d g u.
          gone_on
            (omega (arith, junks-append before (message_entry (with_comment attached d) ∷ []))) lt)
        (λ u. failed-Counted (record s { depth_exceeded = u }) before attached c lt h)

  definition-Counted :
      (k : ParseContext) (s : ParserState) (before : List Entry) (attached : Option Comment)
      (c : Cursor)
      → s.junk_count < p.max_parse_errors
      → junks before ≡ 0
      → RoundCounted s (definition_round p k s before attached c)
  unfolding definition_round junks
  definition-Counted k s before attached c lt h =
      Bool-elim {A = Round} (RoundCounted s) (at_char c b'-')
        (λ _.
          definition-cases s (parse_term k s.depth_exceeded c)
            {good = λ d g u.
              goes_on (before ++ term_entry (with_comment attached d) ∷ [])
                (record s { depth_exceeded = u }) g}
            (λ d g u.
              gone_on
                (omega (arith, junks-append before (term_entry (with_comment attached d) ∷ []))) lt)
            (λ u. message-Counted k (record s { depth_exceeded = u }) before attached c lt h))
        (λ _. message-Counted k s before attached c lt h)

  comment-Counted :
      (s : ParserState) (at : ℕ) (new : Comment) (d : Cursor)
      → s.junk_count < p.max_parse_errors
      → RoundCounted s (comment_round s at new d)
  unfolding comment_round junks
  comment-Counted s at new d lt = joined s.pending
    where
      joined :
          (q : Option CommentAccumulator)
          → RoundCounted s (elim q as (λ _. Round) [
            | none ↦
                goes_on [] (record s { pending = some (accumulate new); pending_end = d.pos }) d
            | some a ↦
                if same_kind a.kind new.kind
                  && not (has_blank_line_between d.source s.pending_end at)
                then goes_on []
                    (record s { pending = some (add_comment a new); pending_end = d.pos })
                    d
                else goes_on
                    (comment_entry (finalize a) ∷ [])
                    (record s { pending = some (accumulate new); pending_end = d.pos })
                    d
          ])
      joined none = gone_on (omega arith) lt
      joined (some a) =
          if-elim {A = Round} (RoundCounted s)
            (same_kind a.kind new.kind && not (has_blank_line_between d.source s.pending_end at)) _
            _ (gone_on (omega arith) lt) (gone_on (omega arith) lt)

  entry-Counted :
      (k : ParseContext) (s : ParserState) (c : Cursor)
      → s.junk_count < p.max_parse_errors
      → RoundCounted s (entry_round p k s c)
  unfolding entry_round bad_comment_round junk_of junks
  entry-Counted k s c lt =
      Bool-elim {A = Round} (RoundCounted s) (at_char c b'#')
        (λ _. comment_of (parse_comment s.depth_exceeded c))
        (λ _. definition-Counted k (no_pending s) _ _ c lt (junks-unattached s _))
    where
      comment_of :
          (r : Outcome Comment)
          → RoundCounted s (elim r as (λ _. Round) [
            | found new d u ↦ comment_round s c.pos new d
            | missing u ↦ bad_comment_round p s c
            | raising e ↦ raises e
            | out_of_fuel ↦ stuck
          ])
      comment_of (found new d u) = comment-Counted s c.pos new d lt
      comment_of (missing u) = after_junk-Counted s _ _ _ lt refl
      comment_of (raising e) = failed
      comment_of out_of_fuel = stopped

  pub parse_round-Counted :
      (k : ParseContext) (s : ParserState) (c : Cursor)
      → s.junk_count < p.max_parse_errors
      → RoundCounted s (parse_round p k s c)
  unfolding parse_round indented_round junk_of junks
  parse_round-Counted k s c lt =
      if-elim {A = Round} (RoundCounted s) (is_eof (skip_blank c)) _ _
        (broken (omega (arith, junks-pending s)))
        (if-elim {A = Round} (RoundCounted s) (is_at_column_one (skip_blank c)) _ _
          (entry-Counted k s (skip_blank c) lt)
          (after_junk-Counted (no_pending s) _ _ _ lt
            (last_junk (pending_entries s) _ (junks-pending s) refl)))
