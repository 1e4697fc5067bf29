-- ===== src/Patterns.antt =====
-- src/ftllexengine/syntax/parser/patterns.py: the helpers of the two pattern parsers, which
-- collect the elements of a pattern line by line.
pub mod Kept
pub mod Lines
use ftllex_engine.Base.{
  ℕ, zero, suc, ◌+◌, Bool, true, false, not, ◌&&◌, ◌||◌, Option, none, some, List, [], ◌∷◌, ◌++◌,
  Text, length, take, drop, drop_while, ltb, leb, ◌==◌, if◌then◌else◌,
}
use ftllex_engine.Cursor.{
  Cursor, is_eof, at_char, step, skip_spaces, slice_to, is_space, is_blank, rfind,
}
use ftllex_engine.Identifier.{is_identifier_start, is_identifier_char}
use ftllex_engine.Primitives.{current_is, left, is_digit}
use ftllex_engine.Whitespace.{skip_run, count_indent}
use ftllex_engine.Syntax.{Pattern, Expression, no_elements, text_element, placeable_element, append}

-- `_MAX_LOOKAHEAD_CHARS`.
abbrev pub max_lookahead_chars : ℕ
max_lookahead_chars = 300

-- `_is_valid_variant_key_char`.
unfoldable pub is_valid_variant_key_char : ℕ → Bool → Bool
is_valid_variant_key_char ch is_first =
    if is_first
    then is_identifier_start ch || ch == b'_' || is_digit ch
    else is_identifier_char ch || ch == b'.'

-- `while not eof and current == " " and lookahead_count < max_lookahead`, on fuel: the cursor
-- behind the spaces and the count.
unfoldable pub bounded_spaces : ℕ → ℕ → Cursor → Cursor × ℕ
bounded_spaces zero count c = (c, count)
bounded_spaces (suc fuel) count c = elim (at_char c b' ' && ltb count max_lookahead_chars) [
  | false ↦ (c, count)
  | true ↦ bounded_spaces fuel (count + 1) (step c)
]

-- `after_bracket.current in ("\n", "}", "[", "*")`.
abbrev ends_marker : ℕ → Bool
ends_marker ch = ch == b'\n' || ch == b'}' || ch == b'[' || ch == b'*'

-- Behind the `]`, with the characters counted so far.
unfoldable pub after_bracket : ℕ → Cursor → Bool
after_bracket count c =
    let (d, _) = bounded_spaces (left c) count c in
    if is_eof d then true else current_is ends_marker d

-- `current in ("\n", "{", "}", " ", "\t", ",", ":", ";", "=", "+", "*", "/")`.
abbrev never_in_key : ℕ → Bool
never_in_key ch =
    ch == b'\n'
    || ch == b'{'
    || ch == b'}'
    || ch == b' '
    || ch == b'\t'
    || ch == b','
    || ch == b':'
    || ch == b';'
    || ch == b'='
    || ch == b'+'
    || ch == b'*'
    || ch == b'/'

-- The loop over the key, on fuel; `is_first` holds until there is content.
unfoldable pub scan_key : ℕ → ℕ → Bool → Cursor → Bool
scan_key zero count is_first c = false
scan_key (suc fuel) count is_first c = elim (not (is_eof c) && ltb count max_lookahead_chars) [
  | false ↦ false
  | true ↦ elim (at_char c b']') [
    | true ↦ if is_first then false else after_bracket (count + 1) (step c)
    | false ↦
        elim (current_is never_in_key c
          || not (current_is (λ ch. is_valid_variant_key_char ch is_first) c)) [
            | true ↦ false
            | false ↦ scan_key fuel (count + 1) false (step c)
          ]
  ]
]

-- `_is_variant_marker`.
unfoldable pub is_variant_marker : Cursor → Bool
is_variant_marker c =
    if at_char c b'*'
    then at_char (step c) b'['
    else if at_char c b'['
    then (let (d, count) = bounded_spaces (left (step c)) 0 (step c) in
        scan_key (suc (left d)) count true d)
    else false

-- The first loop of `_trim_pattern_blank_lines`, over the text elements in front.
unfoldable pub trim_front : Pattern → Pattern
trim_front (text_element t rest) = elim (drop_while is_blank t) [
  | [] ↦ trim_front rest
  | ch ∷ stripped ↦ text_element (ch ∷ stripped) rest
]
trim_front elements = elements

-- `not after_newline.strip(" ")`.
unfoldable pub only_spaces : Text → Bool
only_spaces [] = true
only_spaces (ch ∷ text) = is_space ch && only_spaces text

-- The second loop on one last element: what is left of its text, or none if it is popped.
unfoldable pub trim_text : ℕ → Text → Option Text
trim_text zero text = some text
trim_text (suc fuel) text = elim (rfind b'\n' text (length text)) [
  | none ↦ some text
  | some last_newline ↦ elim (only_spaces (drop (last_newline + 1) text)) [
    | false ↦ some text
    | true ↦ elim (take last_newline text) [
      | [] ↦ none
      | ch ∷ trimmed ↦ trim_text fuel (ch ∷ trimmed)
    ]
  ]
]

-- A text element is reached when all that follows it is popped.
abbrev trim_last : Text → Pattern → Pattern
trim_last text no_elements = elim (trim_text (length text) text) [
  | none ↦ no_elements
  | some trimmed ↦ text_element trimmed no_elements
]
trim_last text rest = text_element text rest

-- The second loop of `_trim_pattern_blank_lines`, over the text elements at the end.
unfoldable pub trim_end : Pattern → Pattern
trim_end no_elements = no_elements
trim_end (text_element text rest) = trim_last text (trim_end rest)
trim_end (placeable_element e rest) = placeable_element e (trim_end rest)

-- `_trim_pattern_blank_lines`.
unfoldable pub trim_pattern_blank_lines : Pattern → Pattern
trim_pattern_blank_lines elements = trim_end (trim_front elements)

-- `_append_newline_to_elements`.
unfoldable pub append_newline : Pattern → Pattern
append_newline no_elements = text_element (b'\n' ∷ []) no_elements
append_newline (text_element text no_elements) = text_element (text ++ b'\n' ∷ []) no_elements
append_newline (text_element text (text_element u rest)) =
    text_element text (append_newline (text_element u rest))
append_newline (text_element text (placeable_element e rest)) =
    text_element text (append_newline (placeable_element e rest))
append_newline (placeable_element e rest) = placeable_element e (append_newline rest)

-- The local state of the pattern parsers; `fragments` is that of `_TextAccumulator`.
pub record PatternState : Type 0 where
  pub elements : Pattern
  pub common_indent : Option ℕ
  pub fragments : List Text

abbrev pub joined : List Text → Text
joined [] = []
joined (text ∷ texts) = text ++ joined texts

-- `if text_acc.has_content(): elements.append(text_acc.finalize()); text_acc.clear()`.
unfoldable pub flush : PatternState → PatternState
flush s = elim (s.fragments) [
  | [] ↦ s
  | text ∷ texts ↦ record s {
    elements = append s.elements (text_element (joined (text ∷ texts)) no_elements);
    fragments = [];
  }
]

-- Text that is read joins the fragments in front of it.
unfoldable pub add_text : PatternState → Text → PatternState
add_text s text = record s {
  elements = append s.elements (text_element (joined s.fragments ++ text) no_elements);
  fragments = [];
}

unfoldable pub add_placeable : PatternState → Expression → PatternState
add_placeable s e = record s { elements = append s.elements (placeable_element e no_elements) }

-- The first loop of `_skip_common_indent`, on the indentation that is left to skip.
unfoldable pub skip_up_to : ℕ → Cursor → Cursor
skip_up_to zero c = c
skip_up_to (suc n) c = elim (at_char c b' ') [ false ↦ c | true ↦ skip_up_to n (step c) ]

abbrev spaces : ℕ → Text
spaces zero = []
spaces (suc n) = b' ' ∷ spaces n

-- `_skip_common_indent`.
unfoldable pub skip_common_indent : ℕ → Cursor → Cursor × Text
skip_common_indent common_indent c =
    let d = skip_up_to common_indent c in
    let (e, extra) = count_indent (left d) 0 d in (e, spaces extra)

-- `_process_continuation_line`: the cursor, the common indentation and the extra spaces.
unfoldable pub process_continuation_line : Cursor → Option ℕ → Cursor × ℕ × Text
process_continuation_line c common_indent =
    let d = skip_run b'\n' (left c) c in
    elim common_indent [
      | none ↦ let (_, indent) = count_indent (left d) 0 d in (skip_spaces d, indent, [])
      | some indent ↦ let (e, extra) = skip_common_indent indent d in (e, indent, extra)
    ]

-- The branch of a newline that a continuation line follows.
unfoldable pub continue_line : PatternState → Cursor → PatternState × Cursor
continue_line s c =
    let (d, indent, extra) = process_continuation_line (step c) s.common_indent in
    (
      record {
        elements = append_newline s.elements;
        common_indent = some indent;
        fragments = elim extra [ [] ↦ s.fragments | ch ∷ more ↦ s.fragments ++ (ch ∷ more) ∷ [] ];
      },
      d,
    )

-- `ch in ("[", "*") and _is_variant_marker(cursor)`, or a closing brace: where a simple pattern ends.
unfoldable pub ends_simple_pattern : Cursor → Bool
ends_simple_pattern c =
    at_char c b'}' || current_is (λ ch. ch == b'[' || ch == b'*') c && is_variant_marker c

-- Nothing but an unindented line ends the pattern of a message.
abbrev pub ends_pattern : Cursor → Bool
ends_pattern c = false

-- The loop over the characters of one text element, on fuel, for either kind of pattern.
unfoldable pub text_end : (Cursor → Bool) → ℕ → Cursor → Cursor
text_end ends zero c = c
text_end ends (suc fuel) c =
    elim (is_eof c || current_is (λ ch. ch == b'{' || ch == b'\n') c || ends c) [
      | true ↦ c
      | false ↦ text_end ends fuel (step c)
    ]

-- The text element at the cursor, `if cursor.pos > text_start`.
unfoldable pub read_text : (Cursor → Bool) → PatternState → Cursor → PatternState × Cursor
read_text ends s c =
    let d = text_end ends (left c) c in
    (if ltb c.pos d.pos then add_text s (slice_to c d.pos) else s, d)
