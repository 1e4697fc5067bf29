-- ===== src/CacheEntry/Injective.antt =====
-- What the checksum of an entry covers.
use ftllex_engine.Base.{
  ℕ, zero, suc, ◌*◌, ◌/◌, ◌%◌, ◌<◌, ◌≡◌, refl, sym, ◌∙◌, List, [], ◌∷◌, ◌++◌, append_assoc, length,
  length-append, All, arith,
}
use ftllex_engine.CacheEntry.{Bytes, FluentError, to_bytes, error_bytes}

cons-head : {x y : ℕ} {xs ys : Bytes} → x ∷ xs ≡ y ∷ ys → x ≡ y
cons-head h = cc

cons-tail : {x y : ℕ} {xs ys : Bytes} → x ∷ xs ≡ y ∷ ys → xs ≡ ys
cons-tail h = cc

cons_eq : {x y : ℕ} {xs ys : Bytes} → x ≡ y → xs ≡ ys → x ∷ xs ≡ y ∷ ys
cons_eq a b = cc

-- Two texts with the same beginning length fall apart at it.
pub append-injective :
    (xs ys us vs : Bytes) → length xs ≡ length us → xs ++ ys ≡ us ++ vs → (xs ≡ us) × (ys ≡ vs)
append-injective [] ys [] vs l h = (refl, h)
append-injective [] ys (u ∷ us) vs l h = absurd (omega arith)
append-injective (x ∷ xs) ys [] vs l h = absurd (omega arith)
append-injective (x ∷ xs) ys (u ∷ us) vs l h =
    let (a, b) = append-injective xs ys us vs (omega arith) (cons-tail h) in
    (cons_eq (cons-head h) a, b)

pub length-to_bytes : (size value : ℕ) → length (to_bytes size value) ≡ size
unfolding to_bytes
length-to_bytes zero value = refl
length-to_bytes (suc size) value = omega (
  arith,
  length-append (to_bytes size (value / 256)) (value % 256 ∷ []),
  length-to_bytes size (value / 256),
)

-- The number of values of `size` bytes.
abbrev pub values : ℕ → ℕ
values zero = 1
values (suc size) = 256 * values size

pub to_bytes-injective :
    (size a b : ℕ) → a < values size → b < values size → to_bytes size a ≡ to_bytes size b → a ≡ b
unfolding to_bytes
to_bytes-injective zero a b la lb h = omega arith
to_bytes-injective (suc size) a b la lb h =
    let (high, low) =
      append-injective (to_bytes size (a / 256)) _ (to_bytes size (b / 256)) _
        (length-to_bytes size (a / 256) ∙ sym (length-to_bytes size (b / 256))) h in
    omega (
      arith,
      to_bytes-injective size (a / 256) (b / 256) (omega arith) (omega arith) high,
      cons-head low,
    )

-- The content hashes of errors, which are all that the checksum sees of them.
abbrev pub hashes : List FluentError → List Bytes
hashes [] = []
hashes (error ∷ errors) = error.content_hash ∷ hashes errors

-- Digests of 16 bytes.
abbrev pub Digests : List FluentError → Type 0
Digests = All (λ error. length error.content_hash ≡ 16)

pub error_bytes-injective :
    (es fs : List FluentError) (ys vs : Bytes)
    → Digests es
    → Digests fs
    → length es ≡ length fs
    → error_bytes es ++ ys ≡ error_bytes fs ++ vs
    → (hashes es ≡ hashes fs) × (ys ≡ vs)
error_bytes-injective [] [] ys vs p q l h = (refl, h)
error_bytes-injective [] (f ∷ fs) ys vs p q l h = absurd (omega arith)
error_bytes-injective (e ∷ es) [] ys vs p q l h = absurd (omega arith)
error_bytes-injective (e ∷ es) (f ∷ fs) ys vs p q l h =
    let tail : e.content_hash ++ (error_bytes es ++ ys) ≡ f.content_hash ++ (error_bytes fs ++ vs) =
      sym (append_assoc e.content_hash (error_bytes es) ys)
      ∙ cons-tail h
      ∙ append_assoc f.content_hash (error_bytes fs) vs in
    let (a, b) = append-injective e.content_hash _ f.content_hash _ (p.0 ∙ sym q.0) tail in
    let (c, d) = error_bytes-injective es fs ys vs p.1 q.1 (omega arith) b in (cc, d)
