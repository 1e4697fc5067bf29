-- ===== src/Depth/Global.antt =====
-- Nested calls, each with a guard of its own.
use ftllex_engine.Base.{
  ℕ, suc, ◌+◌, ◌≤◌, ◌≡◌, refl, ap, ◌∙◌, subst, ◌⊎◌, inl, inr, true, false, leb, if◌then◌else◌,
  Bool-cases, Exception, depth_limit, ok, raised, ℤ, arith,
}
use ftllex_engine.Depth.{le_int, Calls, returns, raises, resolves, global_enter, run_global}
use ftllex_engine.Depth.Balance.{Exn-cases}

global-cases :
    (max_depth : ℤ) (depth : ℕ)
    → ((le_int max_depth (ℤ.pos depth) ≡ true)
        × (global_enter max_depth depth ≡ raised depth_limit))
      ⊎ ((le_int max_depth (ℤ.pos depth) ≡ false)
          × (global_enter max_depth depth ≡ ok (depth + 1, depth)))
unfolding global_enter
global-cases m d = elim (Bool-cases (le_int m (ℤ.pos d))) [
  | inl t ↦ inl (t, rw t refl)
  | inr f ↦ inr (f, rw f refl)
]

global-refused :
    (m : ℤ) (part rest : Calls) (d : ℕ)
    → global_enter m d ≡ raised depth_limit
    → run_global (resolves m part rest) d ≡ (raised depth_limit, d)
unfolding run_global
global-refused m part rest d h = rw (h, run_global) refl

global-raises :
    (m : ℤ) (part rest : Calls) (d : ℕ) (e : Exception)
    → global_enter m d ≡ ok (d + 1, d)
    → (run_global part (d + 1)).0 ≡ raised e
    → run_global (resolves m part rest) d ≡ (raised e, d)
unfolding run_global
global-raises m part rest d e h r = rw (h, run_global) (rw r refl)

global-goes_on :
    (m : ℤ) (part rest : Calls) (d : ℕ)
    → global_enter m d ≡ ok (d + 1, d)
    → (run_global part (d + 1)).0 ≡ ok tt
    → run_global (resolves m part rest) d ≡ run_global rest d
unfolding run_global
global-goes_on m part rest d h r = rw (h, run_global) (rw r refl)

-- How deep calls nest.
abbrev pub nesting : Calls → ℕ
nesting returns = 0
nesting (raises e) = 0
nesting (resolves m part rest) = elim (leb (suc (nesting part)) (nesting rest)) [
  | true ↦ nesting rest
  | false ↦ suc (nesting part)
]

-- All guards have one limit, and nothing raises by itself.
abbrev pub IsUniform : ℕ → Calls → Type 0
IsUniform limit returns = Unit
IsUniform limit (raises e) = ⊥
IsUniform limit (resolves m part rest) =
    (m ≡ ℤ.pos limit) × IsUniform limit part × IsUniform limit rest

-- The depth of the context is after any nested calls, whether they return or raise, what it was.
pub run_global_balanced : (calls : Calls) (depth : ℕ) → (run_global calls depth).1 ≡ depth
unfolding run_global
run_global_balanced returns d = refl
run_global_balanced (raises e) d = refl
run_global_balanced (resolves m part rest) d = elim (global-cases m d) [
  | inl (_, refused) ↦ ap (λ r. r.1) (global-refused m part rest d refused)
  | inr (_, entered) ↦ elim (Exn-cases (run_global part (d + 1)).0) [
    | inl (e, r) ↦ ap (λ r. r.1) (global-raises m part rest d e entered r)
    | inr r ↦ ap (λ r. r.1) (global-goes_on m part rest d entered r) ∙ run_global_balanced rest d
  ]
]

-- Calls that all have one limit and raise nothing themselves, made at a depth within the limit,
-- succeed if their nesting fits below it and else raise the error of the limit, though every call
-- has a guard of its own.
pub run_global-nesting :
    (calls : Calls) (limit depth : ℕ)
    → IsUniform limit calls
    → depth ≤ limit
    → (run_global calls depth).0
      ≡ (if leb (depth + nesting calls) limit then ok tt else raised depth_limit)
unfolding run_global
run_global-nesting returns m d u le = ground arith
run_global-nesting (raises e) m d u le = absurd u
run_global-nesting (resolves k part rest) m d (same, u, v) le = elim (global-cases k d) [
  | inl (full, refused) ↦
      let none_left : le_int (ℤ.pos m) (ℤ.pos d) ≡ true =
        subst (λ z. le_int z (ℤ.pos d) ≡ true) same full in
      ap (λ r. r.0) (global-refused k part rest d refused) ∙ ground arith
  | inr (room, entered) ↦
      let free : le_int (ℤ.pos m) (ℤ.pos d) ≡ false =
        subst (λ z. le_int z (ℤ.pos d) ≡ false) same room in
      let inner = run_global-nesting part m (d + 1) u (ground arith) in
      elim (Bool-cases (leb (d + 1 + nesting part) m)) [
        | inl fits ↦
            ap (λ r. r.0) (global-goes_on k part rest d entered (inner ∙ rw fits refl))
            ∙ run_global-nesting rest m d v le
            ∙ ground arith
        | inr over ↦
            ap (λ r. r.0) (global-raises k part rest d depth_limit entered (inner ∙ rw over refl))
            ∙ ground arith
      ]
]
