-- ===== src/Common/Float.antt =====
-- Go's float64. A value is kept as its bit pattern; the operations of the processor are a
-- parameter, and what a proof needs of them is a hypothesis of that proof.
use Prim.Native.Nat.{ℕ}
use mathlib.Core.Bool.{Bool}
use timesync_analyzer.Common.Int.{ℤ}

abbrev pub Float64 : Type 0
Float64 = ℕ

pub record FloatOps : Type 0 where
  pub add : Float64 → Float64 → Float64
  pub sub : Float64 → Float64 → Float64
  pub mul : Float64 → Float64 → Float64
  pub div : Float64 → Float64 → Float64
  pub sqrt : Float64 → Float64
  -- `a < b` and `a <= b`; both are false on a NaN.
  pub lt : Float64 → Float64 → Bool
  pub le : Float64 → Float64 → Bool
  -- The conversions `float64(n)`, of a signed and of an unsigned integer, and `int64(x)`.
  pub of_int64 : ℤ → Float64
  pub of_uint64 : ℕ → Float64
  pub to_int64 : Float64 → ℤ
