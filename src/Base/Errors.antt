-- ===== src/Base/Errors.antt =====
-- Python's exceptions as values, and Python's `int` where a negative value can occur.
use Prim.Native.Nat.{ℕ, suc, ◌+◌, ◌-◌}
use mathlib.Core.Path.{◌≡◌, refl}
use mathlib.Core.Logic.{◌⊎◌, inl, inr}
use ftllex_engine.Base.Compare.{ltb, if◌then◌else◌}

-- The exception classes that the modelled code raises. Their message texts are left out.
pub data Exception : Type 0 where
  value_error index_error eof_error runtime_error timeout_error : Exception
  key_error depth_limit data_integrity cache_corruption write_conflict : Exception

-- A call returns a value or raises.
pub data Exn {ℓ} (A : Type ℓ) : Type ℓ where
  ok : A → Exn A
  raised : Exception → Exn A

pub Exn-cases {ℓ} :
    {A : Type ℓ} (r : Exn A) → ((e : Exception) × (r ≡ raised e)) ⊎ ((a : A) × (r ≡ ok a))
Exn-cases (ok a) = inr (a, refl)
Exn-cases (raised e) = inl (e, refl)

infixl 5 ◌>>=◌
abbrev pub ◌>>=◌ {ℓ κ} : {A : Type ℓ} {B : Type κ} → Exn A → (A → Exn B) → Exn B
ok a >>= f = f a
raised e >>= f = raised e

-- `negsuc n` is -(n + 1).
pub data ℤ : Type 0 where
  pos : ℕ → ℤ
  negsuc : ℕ → ℤ

-- p + z for a number p.
abbrev pub shift : ℕ → ℤ → ℤ
shift p (pos n) = pos (p + n)
shift p (negsuc n) = if ltb n p then pos (p - suc n) else negsuc (n - p)
