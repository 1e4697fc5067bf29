-- ===== src/CacheEntry/Utf8.antt =====
-- No two texts have the same UTF-8 bytes: a decoder finds each code point again.
use ftllex_engine.Base.{
  ℕ, ◌+◌, ◌-◌, ◌*◌, ◌/◌, ◌≡◌, refl, sym, ap, ◌∙◌, inl, inr, true, false, [], ◌∷◌, ◌++◌, ◌≢◌, Option,
  none, some, Text, ltb, Bool-cases, if◌then◌else◌, arith,
}
use ftllex_engine.CacheEntry.{Bytes, encode_char, encode}

abbrev second : ℕ → Bytes → Option (ℕ × Bytes)
second a [] = none
second a (b ∷ rest) = some ((a - 192) * 64 + (b - 128), rest)

abbrev third : ℕ → Bytes → Option (ℕ × Bytes)
third a (b ∷ c ∷ rest) = some ((a - 224) * 4096 + (b - 128) * 64 + (c - 128), rest)
third a _ = none

abbrev fourth : ℕ → Bytes → Option (ℕ × Bytes)
fourth a (b ∷ c ∷ d ∷ rest) =
    some ((a - 240) * 262144 + (b - 128) * 4096 + (c - 128) * 64 + (d - 128), rest)
fourth a _ = none

-- The first code point of the bytes, and the bytes behind it.
unfoldable decode_char : Bytes → Option (ℕ × Bytes)
decode_char [] = none
decode_char (a ∷ rest) =
    if ltb a 128
    then some (a, rest)
    else if ltb a 224
    then second a rest
    else if ltb a 240
    then third a rest
    else fourth a rest

pair_eq :
    {a b : ℕ} {xs : Bytes}
    → a ≡ b
    → let read : ℕ → Option (ℕ × Bytes) = λ x. some (x, xs) in read a ≡ read b
pair_eq {xs = xs} h = ap (λ x. some (x, xs)) h

decode_char-encode_char :
    (c : ℕ) (rest : Bytes) → decode_char (encode_char c ++ rest) ≡ some (c, rest)
unfolding decode_char encode_char
decode_char-encode_char c rest = elim (Bool-cases (ltb c 128)) [
  | inl one ↦ rw one (rw one refl)
  | inr more ↦ rw more (elim (Bool-cases (ltb c 2048)) [
    | inl two ↦
        let a : ltb (192 + c / 64) 128 ≡ false = ground arith in
        let b : ltb (192 + c / 64) 224 ≡ true = ground arith in
        rw two (rw (a, b) (pair_eq (omega arith)))
    | inr more' ↦ rw more' (elim (Bool-cases (ltb c 65536)) [
      | inl three ↦
          let a : ltb (224 + c / 4096) 128 ≡ false = ground arith in
          let b : ltb (224 + c / 4096) 224 ≡ false = ground arith in
          let d : ltb (224 + c / 4096) 240 ≡ true = ground arith in
          rw three (rw (a, b, d) (pair_eq (omega arith)))
      | inr four ↦
          let a : ltb (240 + c / 262144) 128 ≡ false = ground arith in
          let b : ltb (240 + c / 262144) 224 ≡ false = ground arith in
          let d : ltb (240 + c / 262144) 240 ≡ false = ground arith in
          rw four (rw (a, b, d) (pair_eq (omega arith)))
    ])
  ])
]

nothing_encoded : (c : ℕ) (rest : Bytes) → [] ≢ encode_char c ++ rest
unfolding decode_char
nothing_encoded c rest h = let e = ap decode_char h ∙ decode_char-encode_char c rest in absurd cc

first_of : Option (ℕ × Bytes) → ℕ
first_of none = 0
first_of (some p) = p.0

rest_of : Option (ℕ × Bytes) → Bytes
rest_of none = []
rest_of (some p) = p.1

pub encode-injective : (xs ys : Text) → encode xs ≡ encode ys → xs ≡ ys
unfolding encode first_of rest_of
encode-injective [] [] h = refl
encode-injective [] (y ∷ ys) h = absurd (nothing_encoded y (encode ys) h)
encode-injective (x ∷ xs) [] h = absurd (nothing_encoded x (encode xs) (sym h))
encode-injective (x ∷ xs) (y ∷ ys) h =
    let e =
      sym (decode_char-encode_char x (encode xs))
      ∙ ap decode_char h
      ∙ decode_char-encode_char y (encode ys) in
    let rest = encode-injective xs ys (ap rest_of e) in let first = ap first_of e in cc
