-- ===== src/Depth/Balance.antt =====
-- The guard after the code that it guards, and how deep that code may nest.
use ftllex_engine.Base.{
  ℕ, zero, suc, ◌+◌, ◌≤◌, ◌≡◌, refl, ap, ◌∙◌, ◌⊎◌, inl, inr, true, false, leb, if◌then◌else◌,
  Bool-cases, Exception, depth_limit, Exn, ok, raised, ℤ, arith,
}
use ftllex_engine.Depth.{
  DepthGuard, Block, finish, crash, inside, le_int, incr, decr, enter, exit, run,
}

decr-incr : (z : ℤ) → decr (incr z) ≡ z
decr-incr (ℤ.pos n) = refl
decr-incr (ℤ.negsuc zero) = refl
decr-incr (ℤ.negsuc (suc n)) = refl

-- The state inside the guard.
abbrev pub within : DepthGuard → DepthGuard
within g = record g { current_depth = incr g.current_depth }

pub exit-within : (g : DepthGuard) → exit (within g) ≡ g
unfolding exit
exit-within g =
    ap (λ z. record { max_depth = g.max_depth; current_depth = z }) (decr-incr g.current_depth)

pub enter-cases :
    (g : DepthGuard)
    → ((le_int g.max_depth g.current_depth ≡ true) × (enter g ≡ raised depth_limit))
      ⊎ ((le_int g.max_depth g.current_depth ≡ false) × (enter g ≡ ok (within g)))
unfolding enter
enter-cases g = elim (Bool-cases (le_int g.max_depth g.current_depth)) [
  | inl t ↦ inl (t, rw t refl)
  | inr f ↦ inr (f, rw f refl)
]

pub Exn-cases : (r : Exn (Unit {0})) → ((e : Exception) × (r ≡ raised e)) ⊎ (r ≡ ok tt)
Exn-cases (raised e) = inl (e, refl)
Exn-cases (ok tt) = inr refl

run-refused :
    (part rest : Block) (g : DepthGuard)
    → enter g ≡ raised depth_limit
    → run (inside part rest) g ≡ (raised depth_limit, g)
unfolding run
run-refused part rest g h = rw (h, run) refl

run-raises :
    (part rest : Block) (g : DepthGuard) (e : Exception)
    → enter g ≡ ok (within g)
    → (run part (within g)).0 ≡ raised e
    → run (inside part rest) g ≡ (raised e, exit (run part (within g)).1)
unfolding run
run-raises part rest g e h r = rw (h, run) (rw r refl)

run-goes_on :
    (part rest : Block) (g : DepthGuard)
    → enter g ≡ ok (within g)
    → (run part (within g)).0 ≡ ok tt
    → run (inside part rest) g ≡ run rest (exit (run part (within g)).1)
unfolding run
run-goes_on part rest g h r = rw (h, run) (rw r refl)

-- Whatever the guarded code does, and whether it returns, raises, or is refused by the limit at any
-- nesting, the guard is afterwards as it was before.
pub run_balanced : (block : Block) (g : DepthGuard) → (run block g).1 ≡ g
unfolding run
run_balanced finish g = refl
run_balanced (crash e) g = refl
run_balanced (inside part rest) g = elim (enter-cases g) [
  | inl (_, refused) ↦ ap (λ r. r.1) (run-refused part rest g refused)
  | inr (_, entered) ↦
      let back : exit (run part (within g)).1 ≡ g =
        ap exit (run_balanced part (within g)) ∙ exit-within g in
      elim (Exn-cases (run part (within g)).0) [
        | inl (e, r) ↦ ap (λ r. r.1) (run-raises part rest g e entered r) ∙ back
        | inr r ↦
            ap (λ r. r.1) (run-goes_on part rest g entered r)
            ∙ run_balanced rest (exit (run part (within g)).1)
            ∙ back
      ]
]

-- How deep a block enters the guard.
abbrev pub levels : Block → ℕ
levels finish = 0
levels (crash e) = 0
levels (inside part rest) = elim (leb (suc (levels part)) (levels rest)) [
  | true ↦ levels rest
  | false ↦ suc (levels part)
]

-- A block that raises nothing itself.
abbrev pub IsCalm : Block → Type 0
IsCalm finish = Unit
IsCalm (crash e) = ⊥
IsCalm (inside part rest) = IsCalm part × IsCalm rest

-- A block that raises nothing itself, run at a depth within the limit, succeeds if its nesting fits
-- below the limit, and else raises the error of the limit.
pub run-levels :
    (block : Block) (max_depth depth : ℕ)
    → IsCalm block
    → depth ≤ max_depth
    → (run block (record { max_depth = ℤ.pos max_depth; current_depth = ℤ.pos depth })).0
      ≡ (if leb (depth + levels block) max_depth then ok tt else raised depth_limit)
unfolding run
run-levels finish m d calm le = ground arith
run-levels (crash e) m d calm le = absurd calm
run-levels (inside part rest) m d calm le =
    let g : DepthGuard = record { max_depth = ℤ.pos m; current_depth = ℤ.pos d } in
    elim (enter-cases g) [
      | inl (full, refused) ↦ ap (λ r. r.0) (run-refused part rest g refused) ∙ ground arith
      | inr (room, entered) ↦
          let inner = run-levels part m (suc d) calm.0 (ground arith) in
          elim (Bool-cases (leb (suc d + levels part) m)) [
            | inl fits ↦
                ap (λ r. r.0) (run-goes_on part rest g entered (inner ∙ rw fits refl))
                ∙ ap (λ h. (run rest h).0) (ap exit (run_balanced part (within g)) ∙ exit-within g)
                ∙ run-levels rest m d calm.1 le
                ∙ ground arith
            | inr over ↦
                ap (λ r. r.0) (run-raises part rest g depth_limit entered (inner ∙ rw over refl))
                ∙ ground arith
          ]
    ]
