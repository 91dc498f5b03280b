-- ===== src/Base/Float64.antt =====
-- IEEE double values, as sign, mantissa and exponent: mantissa * 2 ^ exponent. A value may have
-- several such forms. Scaling by a power of two is exact on them.
use Prim.Native.Nat.{ℕ, suc, ◌*◌, ◌/◌, ◌^◌}
use mathlib.Core.Bool.{Bool, false, ◌||◌}
use nfuse.Base.Tests.{◌==◌}
use nfuse.Base.Int.{ℤ, pos, negsuc}

pub data Float64 : Type 0 where
  nan : Float64
  inf : Bool → Float64
  fin : Bool → ℕ → ℤ → Float64

-- x <= 0. No comparison with a NaN holds.
unfoldable pub le_zero : Float64 → Bool
le_zero nan = false
le_zero (inf negative) = negative
le_zero (fin negative mantissa exponent) = negative || mantissa == 0

-- The integer part of mantissa * 2 ^ exponent.
pub truncate : ℕ → ℤ → ℕ
truncate m (pos e) = m * 2 ^ e
truncate m (negsuc e) = m / 2 ^ suc e
