-- ===== src/Rounds/Definitions.antt =====
-- The rounds that read a message or a term.
use ftllex_engine.Base.{
  ℕ, suc, ◌≡◌, sym, subst, Bool, false, Option, none, List, [], ◌∷◌, ◌++◌, Text, All, Bool-elim,
  arith,
}
use ftllex_engine.Cursor.{Cursor, is_eof, at_char}
use ftllex_engine.Terminals.Onward.{Onward, Onward-le}
use ftllex_engine.Entries.{Comment, Definition}
use ftllex_engine.Entries.Valid.{DefinitionIn, OptionalCommentIn}
use ftllex_engine.ResourceParser.{Entry, FluentParser, ParserState, Round, goes_on}
use ftllex_engine.Rounds.{with_comment}
use ftllex_engine.Rounds.Valid.{EntryIn, PendingIn, RoundIn, gone_on}
use ftllex_engine.Outcome.{
  ParseContext, Outcome, found, missing, raising, out_of_fuel, levels, Ensures, holds, rejected,
}
use ftllex_engine.Terminals.Names.{Yields}
use ftllex_engine.Entries.{parse_message, parse_term}
use ftllex_engine.Entries.Definitions.{message-Ensures, term-Ensures}
use ftllex_engine.ResourceParser.{stuck, raises, message_entry, term_entry}
use ftllex_engine.Rounds.{message_round, definition_round, with_comment}
use ftllex_engine.Rounds.Steps.{append-All, with_comment-DefinitionIn}
use ftllex_engine.Rounds.Sound.{failed-RoundIn}

module _ (text : Text) (n : ℕ) where
  -- The cases of a result that fits the text.
  definition-cases :
      {r : Outcome Definition} {from at : ℕ} {good : Definition → Cursor → Bool → Round}
      {bad : Bool → Round}
      → Ensures (Yields text (suc at) (DefinitionIn text n)) r
      → ((d : Definition) (c : Cursor) (u : Bool)
          → Onward text (suc at) c
          → DefinitionIn text n d
          → RoundIn text n from (good d c u))
      → ((u : Bool) → RoundIn text n from (bad u))
      → RoundIn text n from (elim r as (λ _. Round) [
        | found d c u ↦ good d c u
        | missing u ↦ bad u
        | raising e ↦ raises e
        | out_of_fuel ↦ stuck
      ])
  definition-cases (holds {a} {c} {flag} (on, i)) f g = f a c flag on i
  definition-cases (rejected {flag}) f g = g flag

  message-RoundIn :
      (p : FluentParser) (k : ParseContext) (s : ParserState) (before : List Entry)
      (attached : Option Comment) {from : ℕ} (c : Cursor)
      → levels k ≡ n
      → Onward text from c
      → is_eof c ≡ false
      → All (EntryIn text n) before
      → OptionalCommentIn text attached
      → s.pending ≡ none
      → RoundIn text n from (message_round p k s before attached c)
  unfolding message_round
  message-RoundIn p k s before attached {from} c e o inside h i nothing =
      let (_, z, _) = o in
      definition-cases
        {good = λ d g u.
          goes_on (before ++ message_entry (with_comment attached d) ∷ [])
            (record s { depth_exceeded = u }) g}
        (subst
          (λ m.
            Ensures (Yields text (suc c.pos) (DefinitionIn text m))
              (parse_message k s.depth_exceeded c))
          e (message-Ensures k s.depth_exceeded o))
        (λ d g u on j.
          gone_on
            (append-All text n before (message_entry (with_comment attached d) ∷ []) h
              (with_comment-DefinitionIn text n attached d i j, tt))
            (subst (PendingIn g.pos) (sym nothing) tt) (Onward-le on (omega arith)))
        (λ u.
          failed-RoundIn text n p (record s { depth_exceeded = u }) before attached c o inside h i
            (subst (PendingIn from) (sym nothing) tt))

  pub definition-RoundIn :
      (p : FluentParser) (k : ParseContext) (s : ParserState) (before : List Entry)
      (attached : Option Comment) {from : ℕ} (c : Cursor)
      → levels k ≡ n
      → Onward text from c
      → is_eof c ≡ false
      → All (EntryIn text n) before
      → OptionalCommentIn text attached
      → s.pending ≡ none
      → RoundIn text n from (definition_round p k s before attached c)
  unfolding definition_round
  definition-RoundIn p k s before attached {from} c e o inside h i nothing =
      let (_, z, _) = o in
      Bool-elim {A = Round} (RoundIn text n from) (at_char c b'-')
        (λ _.
          definition-cases
            {good = λ d g u.
              goes_on (before ++ term_entry (with_comment attached d) ∷ [])
                (record s { depth_exceeded = u }) g}
            (subst
              (λ m.
                Ensures (Yields text (suc c.pos) (DefinitionIn text m))
                  (parse_term k s.depth_exceeded c))
              e (term-Ensures k s.depth_exceeded o))
            (λ d g u on j.
              gone_on
                (append-All text n before (term_entry (with_comment attached d) ∷ []) h
                  (with_comment-DefinitionIn text n attached d i j, tt))
                (subst (PendingIn g.pos) (sym nothing) tt) (Onward-le on (omega arith)))
            (λ u.
              message-RoundIn p k (record s { depth_exceeded = u }) before attached c e o inside h i
                nothing))
        (λ _. message-RoundIn p k s before attached c e o inside h i nothing)
