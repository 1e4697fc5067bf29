-- ===== src/Depth.antt =====
-- src/ftllexengine/core/depth_guard.py: DepthGuard and depth_clamp; and GlobalDepthGuard of
-- src/ftllexengine/runtime/resolution_context.py.
pub mod Balance
pub mod Global
use ftllex_engine.Base.{
  ℕ, zero, suc, ◌+◌, ◌-◌, Bool, true, false, ltb, leb, if◌then◌else◌, Exception, depth_limit, Exn,
  ok, raised, ℤ, shift,
}

-- `a <= b` on `int`.
abbrev pub le_int : ℤ → ℤ → Bool
le_int (ℤ.pos a) (ℤ.pos b) = leb a b
le_int (ℤ.pos a) (ℤ.negsuc b) = false
le_int (ℤ.negsuc a) (ℤ.pos b) = true
le_int (ℤ.negsuc a) (ℤ.negsuc b) = leb b a

abbrev pub incr : ℤ → ℤ
incr (ℤ.pos n) = ℤ.pos (suc n)
incr (ℤ.negsuc zero) = ℤ.pos zero
incr (ℤ.negsuc (suc n)) = ℤ.negsuc n

abbrev pub decr : ℤ → ℤ
decr (ℤ.pos zero) = ℤ.negsuc zero
decr (ℤ.pos (suc n)) = ℤ.pos n
decr (ℤ.negsuc n) = ℤ.negsuc (suc n)

-- `limit - reserve_frames` for the recursion limit of the interpreter.
abbrev pub safe_depth : ℕ → ℕ → ℤ
safe_depth limit reserve =
    if leb reserve limit then ℤ.pos (limit - reserve) else ℤ.negsuc (reserve - limit - 1)

-- `depth_clamp`, at a recursion limit.
unfoldable pub depth_clamp : ℕ → ℤ → ℕ → ℤ
depth_clamp limit requested reserve =
    if le_int requested (safe_depth limit reserve) then requested else safe_depth limit reserve

-- The error factory is left out: what it makes is one exception here.
pub record DepthGuard : Type 0 where
  pub max_depth : ℤ
  pub current_depth : ℤ

-- `DepthGuard(max_depth=...)`.
unfoldable pub guard : ℕ → ℤ → DepthGuard
guard limit max_depth = record {
  max_depth = depth_clamp limit max_depth 50;
  current_depth = ℤ.pos 0;
}

unfoldable pub check : DepthGuard → Exn (Unit {0})
check g = if le_int g.max_depth g.current_depth then raised depth_limit else ok tt

-- `__enter__`.
unfoldable pub enter : DepthGuard → Exn DepthGuard
enter g =
    if le_int g.max_depth g.current_depth
    then raised depth_limit
    else ok (record g { current_depth = incr g.current_depth })

-- `__exit__`.
unfoldable pub exit : DepthGuard → DepthGuard
exit g = record g { current_depth = decr g.current_depth }

-- Code that enters the guard: it ends, it raises, or it runs a part inside the guard and goes on.
pub data Block : Type 0 where
  finish : Block
  crash : Exception → Block
  inside : Block → Block → Block

-- `with guard: ...` calls `__exit__` also if the part raises, and not if `__enter__` does.
unfoldable pub run : Block → DepthGuard → Exn (Unit {0}) × DepthGuard
run finish g = (ok tt, g)
run (crash e) g = (raised e, g)
run (inside part rest) g = elim (enter g) [
  | raised e ↦ (raised e, g)
  | ok entered ↦ elim (run part entered).0 [
    | raised e ↦ (raised e, exit (run part entered).1)
    | ok u ↦ run rest (exit (run part entered).1)
  ]
]

-- `GlobalDepthGuard.__enter__` on the depth of the context, with the token that `__exit__` resets.
unfoldable pub global_enter : ℤ → ℕ → Exn (ℕ × ℕ)
global_enter max_depth current =
    if le_int max_depth (ℤ.pos current) then raised depth_limit else ok (current + 1, current)

-- Nested calls of `format_pattern`, each with a guard of its own limit.
pub data Calls : Type 0 where
  returns : Calls
  raises : Exception → Calls
  resolves : ℤ → Calls → Calls → Calls

unfoldable pub run_global : Calls → ℕ → Exn (Unit {0}) × ℕ
run_global returns depth = (ok tt, depth)
run_global (raises e) depth = (raised e, depth)
run_global (resolves max_depth part rest) depth = elim (global_enter max_depth depth) [
  | raised e ↦ (raised e, depth)
  | ok entered ↦ elim (run_global part entered.0).0 [
    | raised e ↦ (raised e, entered.1)
    | ok u ↦ run_global rest entered.1
  ]
]
