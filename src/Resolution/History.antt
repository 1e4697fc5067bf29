-- ===== src/Resolution/History.antt =====
-- The contexts that the resolver can reach.
use ftllex_engine.Base.{
  member, add, discard, last, without_last, ℕ, ◌≡◌, refl, ap, sym, ◌∙◌, subst, ◌⊎◌, inl, inr, true,
  false, none, List, [], ◌∷◌, ◌++◌, Text, text_eq, text_eq_iff, if◌then◌else◌, ok, raised,
  data_integrity, arith,
}
use ftllex_engine.Resolution.{ResolutionContext, push, pop, contains, track_expansion}
use ftllex_engine.Resolution.Stack.{
  with_fields, pop-some, discard-add_new, last-append, without_last-append, text_eq_refl,
}

-- A fresh context, pushes of keys that it does not contain, as the resolver makes them, and pops.
pub data Reach : ResolutionContext → Type 0 where
  fresh :
      (max_depth max_expansion_size : ℕ)
      → Reach (record {
        stack = [];
        seen = [];
        max_depth = max_depth;
        max_expansion_size = max_expansion_size;
        total_chars = 0;
      })
  pushed :
      {c : ResolutionContext} (key : Text) → contains key c ≡ false → Reach c → Reach (push key c)
  popped : {c : ResolutionContext} → Reach c → Reach (pop c).1
  tracked :
      {c : ResolutionContext} (char_count : ℕ) → Reach c → Reach (track_expansion char_count c)

abbrev Distinct : List Text → Type 0
Distinct [] = Unit
Distinct (x ∷ xs) = (member x xs ≡ false) × Distinct xs

pub record InStep (c : ResolutionContext) : Type 0 where
  pub same : c.seen ≡ c.stack
  pub distinct : Distinct c.stack

add_new : (key : Text) (xs : List Text) → member key xs ≡ false → add key xs ≡ xs ++ key ∷ []
unfolding member add
add_new key [] h = refl
add_new key (x ∷ xs) h = ground (arith, add_new key xs)

member-append :
    (key j : Text) (xs : List Text)
    → member j (xs ++ key ∷ []) ≡ (if member j xs then true else text_eq key j)
unfolding member
member-append key j [] = ground arith
member-append key j (x ∷ xs) = ground (arith, member-append key j xs)

Distinct-append :
    (key : Text) (xs : List Text) → member key xs ≡ false → Distinct xs → Distinct (xs ++ key ∷ [])
unfolding member
Distinct-append key [] h d = (refl, tt)
Distinct-append key (x ∷ xs) h d = (
  ground (arith, member-append key x xs, text_eq_iff x key, text_eq_iff key x, d.0),
  Distinct-append key xs (ground arith) d.1,
)

last_split :
    (xs : List Text) → (xs ≡ []) ⊎ ((init : List Text) × (key : Text) × (xs ≡ init ++ key ∷ []))
last_split [] = inl refl
last_split (x ∷ xs) = elim (last_split xs) [
  | inl e ↦ inr ([], x, ap (◌∷◌ x) e)
  | inr (init, key, e) ↦ inr (x ∷ init, key, ap (◌∷◌ x) e)
]

Distinct-init :
    (key : Text) (xs : List Text)
    → Distinct (xs ++ key ∷ [])
    → (member key xs ≡ false) × Distinct xs
unfolding member
Distinct-init key [] d = (refl, tt)
Distinct-init key (x ∷ xs) d =
    let (a, b) = Distinct-init key xs d.1 in
    let c = d.0 in
    let apart : member x xs ≡ false = ground (arith, member-append key x xs) in
    (ground (arith, member-append key x xs, text_eq_iff x key, text_eq_iff key x), (apart, b))

-- What `pop` does to a context in step.
abbrev Pops : ResolutionContext → Type 0
Pops c =
    ((c.stack ≡ []) × (pop c ≡ (raised data_integrity, c)))
    ⊎ ((init : List Text) × (key : Text) × (c.stack ≡ init ++ key ∷ [])
        × (pop c ≡ (ok key, record c { stack = init; seen = init }))
        × Distinct init)

pop_empty : (c : ResolutionContext) → last c.stack ≡ none → pop c ≡ (raised data_integrity, c)
unfolding pop
pop_empty c l = rw (l, pop) refl

InStep-pop : (c : ResolutionContext) → InStep c → Pops c
unfolding last
InStep-pop c s = elim (last_split c.stack) [
  | inl e ↦ inl (e, pop_empty c (ap last e))
  | inr (init, key, e) ↦
      let (new, d) = Distinct-init key init (subst Distinct e s.distinct) in
      let seen : c.seen ≡ init ++ key ∷ [] = s.same ∙ e in
      let found : member key c.seen ≡ true =
        ap (member key) seen ∙ member-append key key init ∙ rw (new, text_eq_refl key) refl in
      let popped_set : discard key c.seen ≡ init =
        ap (discard key) (seen ∙ sym (add_new key init new)) ∙ discard-add_new key init new in
      inr (
        init,
        key,
        e,
        pop-some c key (ap last e ∙ last-append init key) found
            ∙ with_fields c key (ap without_last e ∙ without_last-append init key) popped_set,
        d,
      )
]

InStep-popped : (c : ResolutionContext) → InStep c → InStep (pop c).1
InStep-popped c s = elim (InStep-pop c s) [
  | inl (empty, e) ↦ subst (λ r. InStep r.1) (sym e) s
  | inr (init, key, shape, e, d) ↦
      subst (λ r. InStep r.1) (sym e) (record { same = refl; distinct = d })
]

Reach-InStep : {c : ResolutionContext} → Reach c → InStep c
unfolding push contains track_expansion
Reach-InStep (fresh a b) = record { same = refl; distinct = tt }
Reach-InStep (pushed {c} key new r) =
    let s = Reach-InStep r in
    let free : member key c.stack ≡ false = subst (λ x. member key x ≡ false) s.same new in
    record {
      same = add_new key c.seen new ∙ ap (λ x. x ++ key ∷ []) s.same;
      distinct = Distinct-append key c.stack free s.distinct;
    }
Reach-InStep (popped {c} r) = InStep-popped c (Reach-InStep r)
Reach-InStep (tracked n r) =
    let s = Reach-InStep r in record { same = s.same; distinct = s.distinct }

-- In every context that pushes of new keys and pops can reach, `contains` says whether the key is on
-- the stack; `pop` raises only on the empty stack, and else takes the last key off the stack and out
-- of the set.
pub Reach-pop :
    {c : ResolutionContext}
    → Reach c
    → ((key : Text) → contains key c ≡ member key c.stack)
      × (((c.stack ≡ []) × (pop c ≡ (raised data_integrity, c)))
          ⊎ ((init : List Text) × (key : Text) × (c.stack ≡ init ++ key ∷ [])
              × (pop c ≡ (ok key, record c { stack = init; seen = init }))
              × (member key init ≡ false)))
unfolding contains
Reach-pop {c} r =
    let s = Reach-InStep r in
    (
      λ key. ap (member key) s.same,
      elim (InStep-pop c s) [
        | inl x ↦ inl x
        | inr (init, key, shape, e, d) ↦
            inr (init, key, shape, e, (Distinct-init key init (subst Distinct shape s.distinct)).0)
      ],
    )
