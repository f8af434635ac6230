-- ===== src/Prelude/Float.antt =====
-- The operations of `float64` that the source uses, over an abstract carrier: IEEE arithmetic and
-- the conversions of package math are not written in the repository.
use Prim.Native.Nat.{ℕ}
use mathlib.Core.Bool.{Bool}

pub record Float64 (F : Type 0) : Type 0 where
  pub ltf : F → F → Bool
  pub lef : F → F → Bool
  pub eqf : F → F → Bool
  pub add : F → F → F
  pub sub : F → F → F
  pub mul : F → F → F
  pub div : F → F → F
  -- `lit m k` is the literal m / 10 ^ k, `of_int n` is float64(n).
  pub lit : ℕ → ℕ → F
  pub of_int : ℕ → F
  -- int(math.Ceil(x)) and int(x), on the values where the source applies them (never negative).
  pub ceil_int : F → ℕ
  pub trunc_int : F → ℕ
