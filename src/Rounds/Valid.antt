-- ===== src/Rounds/Valid.antt =====
-- The entries of a resource: each fits the text, and a junk entry is a part of it.
use ftllex_engine.Base.{ℕ, suc, ◌≤◌, ◌≡◌, Bool, Option, none, some, List, Text, All, slice}
use ftllex_engine.Cursor.{Cursor}
use ftllex_engine.Syntax.Valid.{SpanIn}
use ftllex_engine.Entries.Valid.{DefinitionIn}
use ftllex_engine.Terminals.Onward.{Onward}
use ftllex_engine.ResourceParser.{
  Junk, Entry, message_entry, term_entry, comment_entry, junk_entry, CommentAccumulator,
  ParserState, Round, breaks, goes_on,
}

-- The content of a junk entry is what the text has at its span.
pub record JunkIn (text : Text) (j : Junk) : Type 0 where
  pub span_in : SpanIn text j.span
  pub content_of : slice text j.span.start j.span.end ≡ j.content
  pub annotation_in : SpanIn text j.annotation_span

abbrev pub EntryIn : Text → ℕ → Entry → Type 0
EntryIn text n (message_entry d) = DefinitionIn text n d
EntryIn text n (term_entry d) = DefinitionIn text n d
EntryIn text n (comment_entry c) = SpanIn text c.span
EntryIn text n (junk_entry j) = JunkIn text j

-- The pending comment ends in front of the offset.
abbrev pub PendingIn : ℕ → Option CommentAccumulator → Type 0
PendingIn offset none = Unit
PendingIn offset (some a) = (a.first_span.start ≤ a.last_span.end) × (a.last_span.end ≤ offset)

-- The entries that a round adds fit the text, and it breaks, or goes on behind at least one character.
pub data RoundIn (text : Text) (n from : ℕ) : Round → Type 0 where
  broken :
      {entries : List Entry} {d : Cursor} {flag : Bool}
      → All (EntryIn text n) entries
      → Onward text from d
      → RoundIn text n from (breaks entries d flag)
  gone_on :
      {entries : List Entry} {s : ParserState} {d : Cursor}
      → All (EntryIn text n) entries
      → PendingIn d.pos s.pending
      → Onward text (suc from) d
      → RoundIn text n from (goes_on entries s d)
