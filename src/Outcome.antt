-- ===== src/Outcome.antt =====
-- src/ftllexengine/syntax/parser/context.py, and what a grammar rule returns: the depth-exceeded
-- flag that all contexts of a parse share is passed along as a Bool.
use ftllex_engine.Base.{◌-◌, ◌<◌, arith, ℕ, ◌+◌, ◌≡◌, Bool, false, Exception, Exn, ok, raised, leb}
use ftllex_engine.Cursor.{Cursor}
use ftllex_engine.Primitives.{Parsed, parsed, error}

-- `ParseContext`, its flag apart.
pub record ParseContext : Type 0 where
  pub max_nesting_depth : ℕ
  pub current_depth : ℕ

unfoldable pub is_depth_exceeded : ParseContext → Bool
is_depth_exceeded context = leb context.max_nesting_depth context.current_depth

unfoldable pub enter_nesting : ParseContext → ParseContext
enter_nesting context = record context { current_depth = context.current_depth + 1 }

-- `ParseResult[A] | None` with the flag behind the call; an exception; or the fuel was not enough.
pub data Outcome {ℓ} (A : Type ℓ) : Type ℓ where
  found : A → Cursor → Bool → Outcome A
  missing : Bool → Outcome A
  raising : Exception → Outcome A
  out_of_fuel : Outcome A

infixl 5 ◌⟫◌
-- `if result is None: return None`, then the code behind it.
abbrev pub ◌⟫◌ {ℓ κ} :
    {A : Type ℓ} {B : Type κ} → Outcome A → (A → Cursor → Bool → Outcome B) → Outcome B
found a c flag ⟫ f = f a c flag
missing flag ⟫ f = missing flag
raising e ⟫ f = raising e
out_of_fuel ⟫ f = out_of_fuel

-- `if isinstance(result, ParseError): return None`.
abbrev pub or_missing {ℓ} : {A : Type ℓ} → Bool → Parsed A → Outcome A
or_missing flag (parsed a c) = found a c flag
or_missing flag (error e) = missing flag

-- `cursor.current` where it may raise.
abbrev pub reading {ℓ} : {A : Type ℓ} → Exn ℕ → (ℕ → Outcome A) → Outcome A
reading (ok ch) f = f ch
reading (raised e) f = raising e

-- The rule found a result with the property, or returned None: it neither raised nor ran dry.
pub data Ensures {ℓ κ} {A : Type ℓ} (P : A → Cursor → Bool → Type κ)
    : Outcome A → Type (ℓ ⊔ κ) where
  holds : {a : A} {c : Cursor} {flag : Bool} → P a c flag → Ensures P (found a c flag)
  rejected : {flag : Bool} → Ensures P (missing flag)

module _ {ℓ κ} {A : Type ℓ} {P : A → Cursor → Bool → Type κ} where
  pub Ensures-bind {ℓ' κ'} :
      {B : Type ℓ'} {Q : B → Cursor → Bool → Type κ'} {r : Outcome A}
      {f : A → Cursor → Bool → Outcome B}
      → Ensures P r
      → ((a : A) (c : Cursor) (flag : Bool) → P a c flag → Ensures Q (f a c flag))
      → Ensures Q (r ⟫ f)
  Ensures-bind (holds {a} {c} {flag} h) k = k a c flag h
  Ensures-bind rejected k = rejected

  pub Ensures-weaken {κ'} :
      {Q : A → Cursor → Bool → Type κ'} {r : Outcome A}
      → Ensures P r
      → ((a : A) (c : Cursor) (flag : Bool) → P a c flag → Q a c flag)
      → Ensures Q r
  Ensures-weaken (holds {a} {c} {flag} h) k = holds (k a c flag h)
  Ensures-weaken rejected k = rejected

-- How many more placeables and calls the context lets in.
unfoldable pub levels : ParseContext → ℕ
levels k = k.max_nesting_depth - k.current_depth

pub levels-enter_nesting : (k : ParseContext) → levels (enter_nesting k) ≡ levels k - 1
unfolding levels enter_nesting
levels-enter_nesting k = omega arith

pub levels_pos : (k : ParseContext) → is_depth_exceeded k ≡ false → 0 < levels k
unfolding levels is_depth_exceeded
levels_pos k h = ground arith
