-- ===== src/Resolver/References.antt =====
-- src/ftllexengine/runtime/resolver.py: `resolve_message` and `_resolve_term_reference`, with the
-- resolution of the pattern that they enter as an argument.
use ftllex_engine.Base.{
  Bool, true, false, Option, none, some, List, [], ◌∷◌, ◌++◌, Text, codes, ok, raised, ℤ, ℕ,
  if◌then◌else◌,
}
use ftllex_engine.Syntax.{Identifier, NamedArgument}
use ftllex_engine.Depth.{global_enter, depth_clamp}
use ftllex_engine.Resolution.{push, contains, is_depth_exceeded}
use ftllex_engine.Resolver.{
  ResolutionError, reference_error, cyclic_error, resolution_error, depth_error, Resolver,
  ResolverState, Resolved, resolved, thrown, starved, ◌⟫◌, report, guarded, leave_key, in_braces,
  with_attribute, pattern_at, crashed, Message,
}
use ftllex_engine.Resolver.Selection.{Arguments, Jump, named_values}

-- `__exit__` of the guard on the global depth.
unfoldable pub leave_global : ℕ → Resolved Text → Resolved Text
leave_global depth (resolved a s) = resolved a (record s { global_depth = depth })
leave_global depth (thrown e s) = thrown e (record s { global_depth = depth })
leave_global depth (crashed e s) = crashed e (record s { global_depth = depth })
leave_global depth starved = starved

-- `with GlobalDepthGuard(max_depth=context.max_depth)`, which clamps the depth to the recursion limit.
unfoldable pub globally : ℕ → (ResolverState → Resolved Text) → ResolverState → Resolved Text
globally limit body s =
    elim (global_enter (depth_clamp limit (ℤ.pos s.context.max_depth) 50) s.global_depth) [
      | raised e ↦ thrown depth_error s
      | ok (depth, old) ↦ leave_global old (body (record s { global_depth = depth }))
    ]

-- `except FrozenFluentError as e`.
unfoldable pub settled : Text → Resolved Text → Resolved Text
settled key (resolved a s) = resolved a s
settled key (thrown e s) = resolved (in_braces [] key) (report e s)
settled key (crashed e s) = crashed e s
settled key starved = starved

-- `context.push(key)`, the pattern, and `context.pop()`.
unfoldable pub inside_key : Text → (ResolverState → Resolved Text) → ResolverState → Resolved Text
inside_key key body s = leave_key (body (record s { context = push key s.context }))

-- `resolve_message`, its errors in the state.
unfoldable pub resolve_message :
    {N : Type 0}
    → Resolver N
    → Jump N
    → Message
    → Option Identifier
    → Arguments N
    → ResolverState
    → Resolved Text
resolve_message r jump message attribute args s =
    let key = with_attribute message.id.name attribute in
    elim (pattern_at message.value message.attributes attribute) [
      | none ↦ resolved (in_braces [] key) (report reference_error s)
      | some pattern ↦ elim (contains key s.context) [
        | true ↦ resolved (in_braces [] key) (report cyclic_error s)
        | false ↦ elim (is_depth_exceeded s.context) [
          | true ↦ resolved (in_braces [] key) (report reference_error s)
          | false ↦ settled key (globally r.recursion_limit (inside_key key (jump pattern args)) s)
        ]
      ]
    ]

-- `errors.extend(nested_errors)`.
unfoldable pub extended : List ResolutionError → Resolved Text → Resolved Text
extended old (resolved a s) = resolved a (record s { errors = old ++ s.errors })
extended old (thrown e s) = thrown e (record s { errors = old })
extended old (crashed e s) = crashed e (record s { errors = old })
extended old starved = starved

-- `_resolve_message_reference`; the nested call has a list of errors of its own.
unfoldable pub message_value :
    {N : Type 0}
    → Resolver N
    → Jump N
    → Identifier
    → Option Identifier
    → Arguments N
    → ResolverState
    → Resolved Text
message_value r jump id attribute args s = elim (r.messages id.name) [
  | none ↦ thrown reference_error s
  | some message ↦
      extended s.errors (resolve_message r jump message attribute args (record s { errors = [] }))
]

-- The named arguments of a term, each under the guard on expressions.
unfoldable pub guard_each : List NamedArgument → ResolverState → Resolved (Unit {0})
guard_each [] s = resolved tt s
guard_each (a ∷ named) s = guarded s (resolved (tt {0})) ⟫ λ u t. guard_each named t

-- The warning that a term does not take positional arguments.
unfoldable pub warned : Bool → ResolverState → ResolverState
warned positional s = if positional then report resolution_error s else s

-- `_resolve_term_reference`: `evaluate` resolves the positional arguments, if there are any, whose
-- values are not used.
unfoldable pub term_value :
    {N : Type 0}
    → Resolver N
    → Jump N
    → Identifier
    → Option Identifier
    → List NamedArgument
    → Bool
    → (ResolverState → Resolved (Unit {0}))
    → ResolverState
    → Resolved Text
term_value r jump id attribute named positional evaluate s =
    let name = with_attribute id.name attribute in
    elim (r.terms id.name) [
      | none ↦ thrown reference_error s
      | some term ↦ elim (pattern_at (some term.value) term.attributes attribute) [
        | none ↦ thrown reference_error s
        | some pattern ↦ elim (contains (b'-' ∷ name) s.context) [
          | true ↦ resolved (in_braces (codes "-") name) (report cyclic_error s)
          | false ↦ elim (is_depth_exceeded s.context) [
            | true ↦ resolved (in_braces (codes "-") name) (report reference_error s)
            | false ↦ guard_each named s ⟫ λ u t. evaluate t ⟫ λ v w.
                inside_key (b'-' ∷ name) (jump pattern (named_values r [] named))
                  (warned positional w)
          ]
        ]
      ]
    ]
