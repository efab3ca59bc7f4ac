-- ===== src/Base/Floats.antt =====
-- What the sources do with a C `float` and, in between, with a `double`: any type, and its operations.
use Prim.Native.Nat.{ℕ}
use mathlib.Core.Bool.{Bool}

-- `lit n k` is the literal `n / 10 ^ k`; `D` is `double`, with `M_PI` and the two conversions.
pub record Floats : Type 1 where
  pub F : Type 0
  pub lit : ℕ → ℕ → F
  pub of_nat : ℕ → F
  pub neg : F → F
  pub add : F → F → F
  pub sub : F → F → F
  pub mul : F → F → F
  pub div : F → F → F
  pub lt : F → F → Bool
  pub le : F → F → Bool
  pub eq : F → F → Bool
  pub powf : F → F → F
  pub log10f : F → F
  pub fabsf : F → F
  pub cosf : F → F
  pub sinf : F → F
  pub D : Type 0
  pub pi : D
  pub widen : F → D
  pub narrow : D → F
  pub mul_d : D → D → D
  pub div_d : D → D → D
  pub nat_d : ℕ → D
