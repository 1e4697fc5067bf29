-- ===== src/Grammar.antt =====
-- src/ftllexengine/syntax/parser/expressions.py and patterns.py: the rules that call each other. A
-- call costs a unit of fuel; what `parse_placeable` is given by the other modules is enough.
pub mod Sound
pub mod Total
use ftllex_engine.Base.{
  ℕ, zero, suc, ◌+◌, Bool, true, false, not, ◌&&◌, ◌||◌, Option, none, some, List, [], ◌∷◌, Text,
  ◌==◌, if◌then◌else◌, member, add, ok, raised,
}
use ftllex_engine.Cursor.{Cursor, current, is_eof, at_char, step}
use ftllex_engine.Identifier.{is_identifier_start}
use ftllex_engine.Primitives.{
  current_is, is_digit, parse_identifier, parse_number, parse_string_literal, left,
}
use ftllex_engine.Whitespace.{skip_blank, skip_blank_inline, is_indented_continuation}
use ftllex_engine.Syntax.{
  Span, Identifier, Literal, string_literal, number_literal, VariantKey, identifier_key, number_key,
  NamedArgument, InlineExpression, literal, variable_reference, message_reference, term_reference,
  function_reference, placeable, Expression, inline, select_expression, CallArguments,
  call_arguments, OptionalArguments, no_call, call, Positional, no_arguments, argument, Variants,
  no_variants, variants, Variant, variant, Pattern, no_elements, is_valid_selector, default_count,
}
use ftllex_engine.Outcome.{
  ParseContext, is_depth_exceeded, enter_nesting, Outcome, found, missing, raising, out_of_fuel,
  ◌⟫◌, or_missing, reading,
}
use ftllex_engine.Patterns.{
  PatternState, flush, add_placeable, continue_line, read_text, ends_simple_pattern, ends_pattern,
  trim_pattern_blank_lines,
}
use ftllex_engine.Terminals.{
  span_of, identifier_node, parse_variable_reference, number_key_at, identifier_key_at,
  parse_variant_key, parse_message_attribute, message_reference_at, string_literal_at,
  number_literal_at, term_attribute, closing, at_arrow, behind_argument, as_literal,
  as_argument_name, with_positional, with_named, select_of, pattern_of,
}

unfoldable mutual
  pub parse_placeable : ℕ → ParseContext → Bool → Cursor → Outcome Expression
  parse_placeable zero k flag c = out_of_fuel
  parse_placeable (suc f) k flag c = elim (is_depth_exceeded k) [
    | true ↦ missing true
    | false ↦ parse_inline_expression f (enter_nesting k) flag (skip_blank c) ⟫ λ e d u.
        elim (is_valid_selector e && at_arrow (skip_blank d)) [
          | true ↦
              parse_select_expression f (enter_nesting k) u e (skip_blank c).pos
                (step (step (skip_blank d)))
              ⟫ λ s g v. closing b'}' s (skip_blank g) v
          | false ↦ closing b'}' (inline e) (skip_blank d) u
        ]
  ]

  pub parse_inline_expression : ℕ → ParseContext → Bool → Cursor → Outcome InlineExpression
  parse_inline_expression zero k flag c = out_of_fuel
  parse_inline_expression (suc f) k flag c = elim (current c) [
    | raised e ↦ missing flag
    | ok ch ↦ elim (ch == b'$') [
      | true ↦ parse_variable_reference flag c
      | false ↦ elim (ch == b'"') [
        | true ↦ string_literal_at flag c
        | false ↦ elim (ch == b'-') [
          | true ↦ hyphen_expression f k flag c
          | false ↦ elim (ch == b'{') [
            | true ↦ parse_placeable f k flag (step c) ⟫ λ e d u. found (placeable e) d u
            | false ↦ elim (is_digit ch) [
              | true ↦ number_literal_at flag c
              | false ↦ elim (is_identifier_start ch) [
                | true ↦ identifier_expression f k flag c
                | false ↦ missing flag
              ]
            ]
          ]
        ]
      ]
    ]
  ]

  pub parse_argument_expression : ℕ → ParseContext → Bool → Cursor → Outcome InlineExpression
  parse_argument_expression zero k flag c = out_of_fuel
  parse_argument_expression (suc f) k flag c = elim (current c) [
    | raised e ↦ missing flag
    | ok ch ↦ elim (ch == b'$') [
      | true ↦ parse_variable_reference flag c
      | false ↦ elim (ch == b'"') [
        | true ↦ string_literal_at flag c
        | false ↦ elim (ch == b'-') [
          | true ↦ hyphen_expression f k flag c
          | false ↦ elim (is_digit ch) [
            | true ↦ number_literal_at flag c
            | false ↦ elim (ch == b'{') [
              | true ↦ parse_placeable f k flag (step c) ⟫ λ e d u. found (placeable e) d u
              | false ↦ elim (is_identifier_start ch || ch == b'_') [
                | true ↦ identifier_expression f k flag c
                | false ↦ missing flag
              ]
            ]
          ]
        ]
      ]
    ]
  ]

  -- `_parse_inline_hyphen`, and the same lines of `parse_argument_expression`.
  pub hyphen_expression : ℕ → ParseContext → Bool → Cursor → Outcome InlineExpression
  hyphen_expression zero k flag c = out_of_fuel
  hyphen_expression (suc f) k flag c = elim (current_is is_identifier_start (step c)) [
    | true ↦ parse_term_reference f k flag c
    | false ↦ number_literal_at flag c
  ]

  -- `_parse_inline_identifier`, and the same lines of `parse_argument_expression`.
  pub identifier_expression : ℕ → ParseContext → Bool → Cursor → Outcome InlineExpression
  identifier_expression zero k flag c = out_of_fuel
  identifier_expression (suc f) k flag c = identifier_node flag c ⟫ λ id d u.
      elim (at_char (skip_blank_inline d) b'(') [
        | true ↦ parse_function_reference f k u c
        | false ↦ message_reference_at c.pos id d u
      ]

  pub parse_function_reference : ℕ → ParseContext → Bool → Cursor → Outcome InlineExpression
  parse_function_reference zero k flag c = out_of_fuel
  parse_function_reference (suc f) k flag c = elim (is_depth_exceeded k) [
    | true ↦ missing flag
    | false ↦ identifier_node flag c ⟫ λ id d u. elim (at_char (skip_blank_inline d) b'(') [
      | false ↦ missing u
      | true ↦
          parse_call_arguments f (enter_nesting k) u (step (skip_blank_inline d)) ⟫ λ arguments e v.
          closing b')' arguments (skip_blank_inline e) v ⟫ λ arguments g t.
          found (function_reference id arguments (span_of c.pos g.pos)) g t
    ]
  ]

  pub parse_term_reference : ℕ → ParseContext → Bool → Cursor → Outcome InlineExpression
  parse_term_reference zero k flag c = out_of_fuel
  parse_term_reference (suc f) k flag c = elim (at_char c b'-') [
    | false ↦ missing flag
    | true ↦ identifier_node flag (step c) ⟫ λ id d u. term_attribute u d ⟫ λ attribute e v.
        elim (at_char (skip_blank_inline e) b'(') [
          | false ↦
              found (term_reference id attribute no_call (span_of c.pos (skip_blank_inline e).pos))
                (skip_blank_inline e) v
          | true ↦ elim (is_depth_exceeded k) [
            | true ↦ missing v
            | false ↦
                parse_call_arguments f (enter_nesting k) v (step (skip_blank_inline e))
                ⟫ λ arguments g t. closing b')' arguments (skip_blank_inline g) t ⟫ λ arguments h t.
                    found (term_reference id attribute (call arguments) (span_of c.pos h.pos)) h t
          ]
        ]
  ]

  pub parse_call_arguments : ℕ → ParseContext → Bool → Cursor → Outcome CallArguments
  parse_call_arguments zero k flag c = out_of_fuel
  parse_call_arguments (suc f) k flag c = arguments_loop f k [] false flag (skip_blank c)

  -- The loop of `parse_call_arguments` with `seen_named_arg_names` and `seen_named`.
  pub arguments_loop : ℕ → ParseContext → List Text → Bool → Bool → Cursor → Outcome CallArguments
  arguments_loop zero k seen seen_named flag c = out_of_fuel
  arguments_loop (suc f) k seen seen_named flag c = elim (is_eof c) [
    | true ↦ found (call_arguments no_arguments []) c flag
    | false ↦ reading (current (skip_blank c)) λ ch. elim (ch == b')') [
      | true ↦ found (call_arguments no_arguments []) (skip_blank c) flag
      | false ↦ parse_argument_expression f k flag (skip_blank c) ⟫ λ a d u.
          elim (at_char (skip_blank d) b':') [
            | true ↦ named_argument f k seen a u (skip_blank (step (skip_blank d)))
            | false ↦ elim seen_named [
              | true ↦ missing u
              | false ↦
                  arguments_loop f k seen false u (behind_argument (skip_blank d)) ⟫ λ rest e v.
                  found (with_positional a rest) e v
            ]
          ]
    ]
  ]

  -- The part of the loop behind the `:` of a named argument.
  pub named_argument :
      ℕ → ParseContext → List Text → InlineExpression → Bool → Cursor → Outcome CallArguments
  named_argument zero k seen a flag c = out_of_fuel
  named_argument (suc f) k seen a flag c = elim (as_argument_name a) [
    | none ↦ missing flag
    | some id ↦ elim (member id.name seen) [
      | true ↦ missing flag
      | false ↦ elim (is_eof c) [
        | true ↦ missing flag
        | false ↦ parse_argument_expression f k flag c ⟫ λ value d u. elim (as_literal value) [
          | none ↦ missing u
          | some l ↦ arguments_loop f k (add id.name seen) true u (behind_argument d) ⟫ λ rest e v.
              found (with_named id l rest) e v
        ]
      ]
    ]
  ]

  pub parse_select_expression :
      ℕ → ParseContext → Bool → InlineExpression → ℕ → Cursor → Outcome Expression
  parse_select_expression zero k flag selector start c = out_of_fuel
  parse_select_expression (suc f) k flag selector start c =
      variants_loop f k flag (skip_blank c) ⟫ λ vs d u. select_of selector start vs d u

  -- The loop of `parse_select_expression`.
  pub variants_loop : ℕ → ParseContext → Bool → Cursor → Outcome Variants
  variants_loop zero k flag c = out_of_fuel
  variants_loop (suc f) k flag c = elim (is_eof c) [
    | true ↦ found no_variants c flag
    | false ↦ elim (is_eof (skip_blank c) || at_char (skip_blank c) b'}') [
      | true ↦ found no_variants (skip_blank c) flag
      | false ↦ parse_variant f k flag (skip_blank c) ⟫ λ v d u.
          variants_loop f k u d ⟫ λ rest e t. found (variants v rest) e t
    ]
  ]

  pub parse_variant : ℕ → ParseContext → Bool → Cursor → Outcome Variant
  parse_variant zero k flag c = out_of_fuel
  parse_variant (suc f) k flag c =
      let default = at_char c b'*' in
      let d = if default then step c else c in
      closing b'[' default d flag ⟫ λ default e u. parse_variant_key u (skip_blank e) ⟫ λ key g v.
      closing b']' key (skip_blank g) v ⟫ λ key h t.
      parse_simple_pattern f k t (skip_blank_inline h) ⟫ λ value i s.
      found (variant key value default) i s

  pub parse_simple_pattern : ℕ → ParseContext → Bool → Cursor → Outcome Pattern
  parse_simple_pattern zero k flag c = out_of_fuel
  parse_simple_pattern (suc f) k flag c =
      pattern_loop ends_simple_pattern f k flag
        (record { elements = no_elements; common_indent = none; fragments = [] }) c

  -- The loop of `parse_simple_pattern` and `parse_pattern`; `ends` says where the pattern stops.
  pub pattern_loop :
      (Cursor → Bool) → ℕ → ParseContext → Bool → PatternState → Cursor → Outcome Pattern
  pattern_loop ends zero k flag s c = out_of_fuel
  pattern_loop ends (suc f) k flag s c = elim (is_eof c || ends c) [
    | true ↦ found (pattern_of s) c flag
    | false ↦ elim (at_char c b'\n') [
      | true ↦ elim (is_indented_continuation c) [
        | false ↦ found (pattern_of s) c flag
        | true ↦ pattern_loop ends f k flag (continue_line s c).0 (continue_line s c).1
      ]
      | false ↦ elim (at_char c b'{') [
        | true ↦ parse_placeable f k flag (step c) ⟫ λ e d u.
            pattern_loop ends f k u (add_placeable (flush s) e) d
        | false ↦ pattern_loop ends f k flag (read_text ends s c).0 (read_text ends s c).1
      ]
    ]
  ]

-- `parse_pattern` of a context at `initial_common_indent`, where 0 stands for None.
unfoldable pub parse_pattern : ℕ → ParseContext → Bool → ℕ → Cursor → Outcome Pattern
parse_pattern fuel k flag initial_common_indent c =
    pattern_loop ends_pattern fuel k flag
      (record {
        elements = no_elements;
        common_indent = if initial_common_indent == 0 then none else some initial_common_indent;
        fragments = [];
      })
      c
