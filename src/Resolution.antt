-- ===== src/Resolution.antt =====
-- src/ftllexengine/runtime/resolution_context.py: the class `ResolutionContext`.
pub mod Stack
pub mod History
use ftllex_engine.Base.{
  member, add, discard, last, without_last, ℕ, suc, ◌+◌, Bool, true, false, not, Option, none, some,
  List, [], ◌∷◌, ◌++◌, Text, text_eq, length, leb, if◌then◌else◌, Exn, ok, raised, data_integrity,
}

-- `_stack` with its bottom in front, `_seen` as a list without repetitions.
pub record ResolutionContext : Type 0 where
  pub stack : List Text
  pub seen : List Text
  pub max_depth : ℕ
  pub max_expansion_size : ℕ
  pub total_chars : ℕ

unfoldable pub push : Text → ResolutionContext → ResolutionContext
push key c = record c { stack = c.stack ++ key ∷ []; seen = add key c.seen }

-- `pop`; the context is left as it is where it raises.
unfoldable pub pop : ResolutionContext → Exn Text × ResolutionContext
pop c = elim (last c.stack) [
  | none ↦ (raised data_integrity, c)
  | some key ↦
      if member key c.seen
      then (ok key, record c { stack = without_last c.stack; seen = discard key c.seen })
      else (raised data_integrity, c)
]

unfoldable pub contains : Text → ResolutionContext → Bool
contains key c = member key c.seen

unfoldable pub is_depth_exceeded : ResolutionContext → Bool
is_depth_exceeded c = leb c.max_depth (length c.stack)

unfoldable pub get_cycle_path : Text → ResolutionContext → List Text
get_cycle_path key c = c.stack ++ key ∷ []

unfoldable pub track_expansion : ℕ → ResolutionContext → ResolutionContext
track_expansion char_count c = record c { total_chars = c.total_chars + char_count }
