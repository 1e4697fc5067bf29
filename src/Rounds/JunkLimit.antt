-- ===== src/Rounds/JunkLimit.antt =====
-- `max_parse_errors`: `parse` stops at the limit on the number of junk entries.
use ftllex_engine.Base.{
  ℕ, zero, suc, ◌-◌, ◌≤◌, ◌<◌, ◌≡◌, subst, ◌⊎◌, Bool, List, ◌++◌, Text, length, if-elim, Bool-elim,
  arith, Exception, ltb, ◌&&◌,
}
use ftllex_engine.Cursor.{Cursor, is_eof}
use ftllex_engine.Outcome.{ParseContext, Outcome, found, missing, raising, out_of_fuel, ◌⟫◌}
use ftllex_engine.ResourceParser.{
  Entry, FluentParser, ParserState, Round, breaks, goes_on, stuck, raises, normalize_line_endings,
}
use ftllex_engine.Rounds.{parse_entries, parse_source, parse, initial_state}
use ftllex_engine.Rounds.Total.{Answers, answered, parse-Answers}
use ftllex_engine.Rounds.JunkCount.{
  junks, junks-append, junks-pending, Counted, broken, gone_on, stopped, failed,
  parse_round-Counted,
}

-- A result has at most `n` junk entries.
data Bounded (n : ℕ) : Outcome (List Entry) → Type 0 where
  result :
      {entries : List Entry} {d : Cursor} {flag : Bool}
      → junks entries ≤ n
      → Bounded n (found entries d flag)
  nothing : {flag : Bool} → Bounded n (missing flag)
  thrown : {e : Exception} → Bounded n (raising e)
  dry : Bounded n out_of_fuel

module _ (p : FluentParser) where
  after_round :
      (count : ℕ) {r : Round} {more : ParserState → Cursor → Outcome (List Entry)}
      → Counted p.max_parse_errors count r
      → ((s : ParserState) (d : Cursor)
          → s.junk_count < p.max_parse_errors
          → Bounded (p.max_parse_errors - s.junk_count) (more s d))
      → Bounded (p.max_parse_errors - count) (elim r as (λ _. Outcome (List Entry)) [
        | breaks entries d u ↦ found entries d u
        | goes_on entries t d ↦ more t d ⟫ λ rest e u. found (entries ++ rest) e u
        | stuck ↦ out_of_fuel
        | raises e ↦ raising e
      ])
  after_round count (broken h) k = result (omega arith)
  after_round count (gone_on {entries} {s} {d} e lt) k = with_rest (k s d lt)
    where
      with_rest :
          {m : Outcome (List Entry)}
          → Bounded (p.max_parse_errors - s.junk_count) m
          → Bounded (p.max_parse_errors - count) (m ⟫ λ rest e u. found (entries ++ rest) e u)
      with_rest (result {entries = a} h) = result (omega (arith, e, lt, junks-append entries a))
      with_rest nothing = nothing
      with_rest thrown = thrown
      with_rest dry = dry
  after_round count stopped k = dry
  after_round count failed k = thrown

  parse_entries-Bounded :
      (f : ℕ) (k : ParseContext) (s : ParserState) (c : Cursor)
      → s.junk_count < p.max_parse_errors
      → Bounded (p.max_parse_errors - s.junk_count) (parse_entries f p k s c)
  unfolding parse_entries
  parse_entries-Bounded zero k s c lt = dry
  parse_entries-Bounded (suc f) k s c lt =
      Bool-elim (Bounded (p.max_parse_errors - s.junk_count)) (is_eof c)
        (λ _. result (omega (arith, junks-pending s)))
        (λ _.
          after_round s.junk_count (parse_round-Counted p k s c lt)
            λ t d less. parse_entries-Bounded f k t d less)

Answers-Bounded {ℓ} :
    {P : List Entry → Type ℓ} {r : Outcome (List Entry)} {n : ℕ}
    → Answers P r
    → Bounded n r
    → Answers (λ entries. junks entries ≤ n) r
Answers-Bounded (answered h) (result le) = answered le

parse-Bounded :
    (p : FluentParser) (source : Text)
    → 0 < p.max_parse_errors
    → Bounded p.max_parse_errors (parse p source)
unfolding parse parse_source
parse-Bounded p source lt =
    let all : p.max_parse_errors - 0 ≡ p.max_parse_errors = omega arith in
    if-elim {A = Outcome (List Entry)} (Bounded p.max_parse_errors)
      (ltb 0 p.max_source_size && ltb p.max_source_size (length source)) _ _ thrown
      (subst (λ n. Bounded n (parse_source p (normalize_line_endings source))) all
        (parse_entries-Bounded p _ _ initial_state _ lt))

-- A parser with a limit on errors returns, for every source within its size limit, a resource of
-- at most so many junk entries.
pub parse-junks :
    (p : FluentParser) (source : Text)
    → (p.max_source_size ≡ 0) ⊎ (length source ≤ p.max_source_size)
    → 0 < p.max_parse_errors
    → Answers (λ entries. junks entries ≤ p.max_parse_errors) (parse p source)
parse-junks p source h lt = Answers-Bounded (parse-Answers p source h) (parse-Bounded p source lt)
