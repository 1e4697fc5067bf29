-- ===== src/Resolution/Stack.antt =====
-- The stack and the set of a context stay in step.
use ftllex_engine.Base.{
  member, add, discard, last, without_last, ◌≡◌, refl, ap, ◌∙◌, true, false, some, List, [], ◌∷◌,
  ◌++◌, Text, text_eq, text_eq_iff, if◌then◌else◌, Exn, ok, raised, data_integrity, arith,
}
use ftllex_engine.Resolution.{ResolutionContext, push, pop, contains}

pub last-append : (xs : List Text) (key : Text) → last (xs ++ key ∷ []) ≡ some key
unfolding last
last-append [] key = refl
last-append (x ∷ []) key = refl
last-append (x ∷ y ∷ xs) key = last-append (y ∷ xs) key

pub without_last-append : (xs : List Text) (key : Text) → without_last (xs ++ key ∷ []) ≡ xs
unfolding without_last
without_last-append [] key = refl
without_last-append (x ∷ []) key = refl
without_last-append (x ∷ y ∷ xs) key = ap (◌∷◌ x) (without_last-append (y ∷ xs) key)

pub member-add :
    (key j : Text) (xs : List Text)
    → member j (add key xs) ≡ (if text_eq key j then true else member j xs)
unfolding member add
member-add key j [] = refl
member-add key j (x ∷ xs) =
    ground (arith, member-add key j xs, text_eq_iff x key, text_eq_iff x j, text_eq_iff key j)

pub discard-add_new :
    (key : Text) (xs : List Text) → member key xs ≡ false → discard key (add key xs) ≡ xs
unfolding member add discard
discard-add_new key [] h = ground (arith, text_eq_iff key key)
discard-add_new key (x ∷ xs) h = ground (arith, discard-add_new key xs)

pub text_eq_refl : (key : Text) → text_eq key key ≡ true
text_eq_refl key = (text_eq_iff key key).1 refl

pub pop-some :
    (c : ResolutionContext) (key : Text)
    → last c.stack ≡ some key
    → member key c.seen ≡ true
    → pop c ≡ (ok key, record c { stack = without_last c.stack; seen = discard key c.seen })
unfolding pop
pop-some c key l m = rw (l, pop) (rw m refl)

pop_broken :
    (c : ResolutionContext) (key : Text)
    → last c.stack ≡ some key
    → member key c.seen ≡ false
    → (pop c).0 ≡ raised data_integrity
unfolding pop
pop_broken c key l m = rw (l, pop) (rw m refl)

abbrev pub answers : Text → ResolutionContext → Exn Text × ResolutionContext
answers key c = (ok key, c)

pub with_fields :
    (c : ResolutionContext) (key : Text) {stack stack' seen seen' : List Text}
    → stack ≡ stack'
    → seen ≡ seen'
    → answers key (record c { stack = stack; seen = seen })
      ≡ answers key (record c { stack = stack'; seen = seen' })
with_fields c key a b = cc

same_context :
    (key : Text) (c : ResolutionContext) {stack seen : List Text}
    → stack ≡ c.stack
    → seen ≡ c.seen
    → answers key (record c { stack = stack; seen = seen }) ≡ answers key c
same_context key c a b = with_fields c key a b

twice :
    (key : Text) (xs : List Text) → member key xs ≡ false → discard key (add key (add key xs)) ≡ xs
unfolding member add discard
twice key [] h = ground (arith, text_eq_iff key key)
twice key (x ∷ xs) h = ground (arith, twice key xs)

-- A `push` of a key that the context does not contain, followed by a `pop`, returns the key and
-- restores the context, whatever state it was in.
pub pop-push :
    (key : Text) (c : ResolutionContext) → contains key c ≡ false → pop (push key c) ≡ (ok key, c)
unfolding contains push
pop-push key c new =
    pop-some (push key c) key (last-append c.stack key)
      (member-add key key c.seen ∙ rw (text_eq_refl key) refl)
    ∙ same_context key c (without_last-append c.stack key) (discard-add_new key c.seen new)

-- Pushing a key a second time breaks the context: the second of two pops finds the key gone from the
-- set, and raises although nothing is corrupted.
pub pop-push_twice :
    (key : Text) (c : ResolutionContext)
    → contains key c ≡ false
    → ((pop (push key (push key c))).0 ≡ ok key)
      × ((pop (pop (push key (push key c))).1).0 ≡ raised data_integrity)
unfolding contains push
pop-push_twice key c new =
    let once = push key c in
    let first =
      pop-some (push key once) key (last-append once.stack key)
        (member-add key key once.seen ∙ rw (text_eq_refl key) refl) in
    (
      ap (λ r. r.0) first,
      ap (λ r. (pop r.1).0) first
          ∙ pop_broken _ key
              (ap last (without_last-append once.stack key) ∙ last-append c.stack key)
              (ap (member key) (twice key c.seen new) ∙ new),
    )
