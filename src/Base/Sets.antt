-- ===== src/Base/Sets.antt =====
-- Python's `set[str]` as a list without repetitions, and a list used as a stack.
use mathlib.Core.Bool.{Bool, true, false}
use mathlib.Core.Option.{Option, none, some}
use mathlib.Core.List.{List, [], ◌∷◌}
use ftllex_engine.Base.Compare.{if◌then◌else◌}
use ftllex_engine.Base.Texts.{Text, text_eq}

-- `key in keys` of a set, which is a list without repetitions.
unfoldable pub member : Text → List Text → Bool
member key [] = false
member key (x ∷ xs) = if text_eq x key then true else member key xs

-- `set.add` and `set.remove`.
unfoldable pub add : Text → List Text → List Text
add key [] = key ∷ []
add key (x ∷ xs) = if text_eq x key then x ∷ xs else x ∷ add key xs

unfoldable pub discard : Text → List Text → List Text
discard key [] = []
discard key (x ∷ xs) = if text_eq x key then xs else x ∷ discard key xs

-- `list[-1]` and `list.pop()`.
unfoldable pub last : List Text → Option Text
last [] = none
last (x ∷ []) = some x
last (x ∷ y ∷ xs) = last (y ∷ xs)

unfoldable pub without_last : List Text → List Text
without_last [] = []
without_last (x ∷ []) = []
without_last (x ∷ y ∷ xs) = x ∷ without_last (y ∷ xs)
