-- ===== src/Rounds/Total.antt =====
-- `parse` returns a resource for every source within the size limit, and its entries fit the text.
use ftllex_engine.Base.{
  ℕ, zero, suc, ◌-◌, ◌≤◌, ◌<◌, ◌≡◌, refl, inl, inr, Bool, false, List, ◌++◌, Text, All, length, ltb,
  if-cases, Bool-elim, arith, ◌&&◌,
}
use ftllex_engine.Cursor.{Cursor, is_eof, at_char}
use ftllex_engine.Terminals.{span_of}
use ftllex_engine.Terminals.Onward.{Onward}
use ftllex_engine.Entries.{Comment}
use ftllex_engine.ResourceParser.{
  Entry, FluentParser, ParserState, Round, breaks, goes_on, no_pending,
}
use ftllex_engine.Rounds.{attach_comment, unattached}
use ftllex_engine.Rounds.Valid.{EntryIn, PendingIn, RoundIn, broken, gone_on}
use ftllex_engine.Whitespace.{skip_blank}
use ftllex_engine.Outcome.{
  ParseContext, Outcome, found, missing, raising, out_of_fuel, levels, Ensures, holds, rejected,
}
use ftllex_engine.Terminals.Onward.{skip_blank-Onward}
use ftllex_engine.Entries.Comments.{comment-Ensures}
use ftllex_engine.ResourceParser.{is_at_column_one, stuck, raises}
use ftllex_engine.Rounds.{comment_round, entry_round, parse_round, attach_comment, unattached}
use ftllex_engine.Rounds.Steps.{
  append-All, pending-EntryIn, attach-OptionalCommentIn, unattached-EntryIn,
}
use ftllex_engine.Base.{◌⊎◌}
use ftllex_engine.Outcome.{◌⟫◌}
use ftllex_engine.ResourceParser.{normalize_line_endings}
use ftllex_engine.Rounds.{parse_entries, parse_source, parse, initial_state}
use ftllex_engine.Rounds.Sound.{indented-RoundIn, comment-RoundIn, bad_comment-RoundIn}
use ftllex_engine.Rounds.Definitions.{definition-RoundIn}

-- The parser returned a result with the property.
pub data Answers {ℓ κ} {A : Type ℓ} (P : A → Type κ) : Outcome A → Type (ℓ ⊔ κ) where
  answered : {a : A} {c : Cursor} {flag : Bool} → P a → Answers P (found a c flag)

module _ (text : Text) (n : ℕ) where
  comment-cases :
      (c : Cursor) {r : Outcome Comment} {from : ℕ} {good : Comment → Cursor → Bool → Round}
      {bad : Bool → Round}
      → Ensures (λ x d _. Onward text (suc c.pos) d × (x.span ≡ span_of c.pos d.pos)) r
      → ((x : Comment) (d : Cursor) (u : Bool)
          → Onward text (suc c.pos) d
          → x.span ≡ span_of c.pos d.pos
          → RoundIn text n from (good x d u))
      → ((u : Bool) → RoundIn text n from (bad u))
      → RoundIn text n from (elim r as (λ _. Round) [
        | found x d u ↦ good x d u
        | missing u ↦ bad u
        | raising e ↦ raises e
        | out_of_fuel ↦ stuck
      ])
  comment-cases c (holds {a} {c = d} {flag} (on, i)) f g = f a d flag on i
  comment-cases c (rejected {flag}) f g = g flag

  entry-RoundIn :
      (p : FluentParser) (k : ParseContext) (s : ParserState) {from : ℕ} (c : Cursor)
      → levels k ≡ n
      → Onward text from c
      → is_eof c ≡ false
      → PendingIn from s.pending
      → RoundIn text n from (entry_round p k s c)
  unfolding entry_round
  entry-RoundIn p k s {from} c e o inside pending =
      let (_, a, i) = o in
      let attached = attach_comment s c.source c.pos in
      Bool-elim {A = Round} (RoundIn text n from) (at_char c b'#')
        (λ hash.
          comment-cases c {good = λ new d u. comment_round s c.pos new d}
            (comment-Ensures s.depth_exceeded o hash)
            (λ new d u on span. comment-RoundIn text n s c.pos new c d a pending on span)
            (λ u. bad_comment-RoundIn text n p s c o hash pending))
        (λ _.
          definition-RoundIn text n p k (no_pending s) (unattached s attached) attached c e o inside
            (unattached-EntryIn text n {offset = from} s attached (omega arith) pending)
            (attach-OptionalCommentIn text n {offset = from} s c.source c.pos (omega arith) pending)
            refl)

  parse_round-RoundIn :
      (p : FluentParser) (k : ParseContext) (s : ParserState) {from : ℕ} (c : Cursor)
      → levels k ≡ n
      → Onward text from c
      → PendingIn c.pos s.pending
      → RoundIn text n c.pos (parse_round p k s c)
  unfolding parse_round
  parse_round-RoundIn p k s c e o pending =
      let blank = skip_blank-Onward o in
      let (_, a, i) = o in
      if-cases {A = Round} (RoundIn text n c.pos) (is_eof (skip_blank c))
        (λ _. broken (pending-EntryIn text n {offset = c.pos} s i pending) blank)
        (λ inside.
          if-cases {A = Round} (RoundIn text n c.pos) (is_at_column_one (skip_blank c))
            (λ _. entry-RoundIn p k s (skip_blank c) e blank inside pending)
            (λ _.
              indented-RoundIn text n p s c.pos (skip_blank c) blank inside (omega arith) pending))

  after_round :
      {from : ℕ} {r : Round} {more : ParserState → Cursor → Outcome (List Entry)}
      → RoundIn text n from r
      → ((s : ParserState) (d : Cursor)
          → PendingIn d.pos s.pending
          → Onward text (suc from) d
          → Answers (All (EntryIn text n)) (more s d))
      → Answers (All (EntryIn text n)) (elim r as (λ _. Outcome (List Entry)) [
        | breaks entries d u ↦ found entries d u
        | goes_on entries t d ↦ more t d ⟫ λ rest e u. found (entries ++ rest) e u
        | stuck ↦ out_of_fuel
        | raises e ↦ raising e
      ])
  after_round (broken h o) k = answered h
  after_round (gone_on {entries} {s} {d} h p o) k = with_rest entries h (k s d p o)
    where
      with_rest :
          {m : Outcome (List Entry)} (entries : List Entry)
          → All (EntryIn text n) entries
          → Answers (All (EntryIn text n)) m
          → Answers (All (EntryIn text n)) (m ⟫ λ rest e u. found (entries ++ rest) e u)
      with_rest entries h (answered {a} i) = answered (append-All text n entries a h i)

  parse_entries-Answers :
      (f : ℕ) (p : FluentParser) (k : ParseContext) (s : ParserState) {from : ℕ} (c : Cursor)
      → levels k ≡ n
      → Onward text from c
      → PendingIn c.pos s.pending
      → length text - c.pos < f
      → Answers (All (EntryIn text n)) (parse_entries f p k s c)
  unfolding parse_entries
  parse_entries-Answers zero p k s c e o pending h = absurd (omega arith)
  parse_entries-Answers (suc f) p k s c e o pending h =
      let (_, a, i) = o in
      Bool-elim (Answers (All (EntryIn text n))) (is_eof c)
        (λ _. answered (pending-EntryIn text n {offset = c.pos} s i pending))
        (λ inside.
          after_round (parse_round-RoundIn p k s c e o pending)
            λ t d q on. let (_, b, j) = on in parse_entries-Answers f p k t d e on q (omega arith))

parse_source-Answers :
    (p : FluentParser) (source : Text)
    → Answers (All (EntryIn source p.max_nesting_depth)) (parse_source p source)
unfolding parse_source levels
parse_source-Answers p source =
    let c : Cursor = record { source = source; pos = 0 } in
    let o : Onward source 0 c = (refl, omega arith, omega arith) in
    parse_entries-Answers source p.max_nesting_depth (suc (length source)) p _ initial_state c
      (omega arith) o tt (omega arith)

within_limit :
    (p : FluentParser) (source : Text)
    → (p.max_source_size ≡ 0) ⊎ (length source ≤ p.max_source_size)
    → (ltb 0 p.max_source_size && ltb p.max_source_size (length source)) ≡ false
within_limit p source (inl off) = ground arith
within_limit p source (inr fits) = ground arith

-- For every source within the size limit of the parser, or with the limit off, `parse` returns a
-- resource: it raises nothing and its loops end. Over the source with its line endings normalized,
-- each message and term has a value or an attribute, names of the grammar that stand where their
-- spans say, ordered spans inside the text, select expressions with exactly one default variant, no
-- two named arguments of one name in a call, and no more placeables and calls inside each other
-- than the depth limit; each comment has an ordered span inside the text; and the content of each
-- junk entry is what the text has at its span.
pub parse-Answers :
    (p : FluentParser) (source : Text)
    → (p.max_source_size ≡ 0) ⊎ (length source ≤ p.max_source_size)
    → Answers (All (EntryIn (normalize_line_endings source) p.max_nesting_depth)) (parse p source)
unfolding parse
parse-Answers p source h =
    rw (within_limit p source h) (parse_source-Answers p (normalize_line_endings source))
