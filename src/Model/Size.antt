-- ===== src/Model/Size.antt =====
-- The unit of FormatBytes in internal/model/model.go: the integer loop that finds the divisor and
-- the index into "KMGTPE". The quotient that it prints is a float and is not modelled.
use native.Mathlib.Decide.{dec_lt}
use nfuse.Base.{ℕ, zero, suc, ◌+◌, ◌*◌, ◌/◌, ◌%◌, ◌^◌, ◌≤◌, ◌<◌, ◌≡◌, arith, ltb, if◌then◌else◌}

-- A plain count of bytes, or a divisor and the index of its unit.
pub data Size : Type 0 where
  plain : ℕ → Size
  scaled : ℕ → ℕ → Size
  out_of_fuel : Size

-- `for n := b / unit; n >= unit; n /= unit { div *= unit; exp++ }`; `div` is a uint64.
unit_loop : ℕ → ℕ → ℕ → ℕ → Size
unit_loop zero n div exp = out_of_fuel
unit_loop (suc fuel) n div exp =
    let more = unit_loop fuel (n / 1024) (div * 1024 % 2 ^ 64) (exp + 1) in
    if ltb n 1024 then scaled div exp else more

pub byte_unit : ℕ → Size
unfolding unit_loop
byte_unit b = if ltb b 1024 then plain b else unit_loop 6 (b / 1024) 1024 0

-- What the loop owes a count of at least one KiB: an index of "KMGTPE", and the power of 1024 of
-- that index, which fits the count from below with a quotient under 1024.
pub record IsUnitOf (b : ℕ) (s : Size) (exp : ℕ) : Type 0 where
  pub result : s ≡ scaled (1024 ^ (exp + 1)) exp
  pub in_range : exp ≤ 5
  pub from_below : 1024 ^ (exp + 1) ≤ b
  pub quotient : b < 1024 ^ (exp + 1) * 1024

-- Every uint64 of at least 1024 gets a unit: the loop ends within its rounds, its divisor does not
-- wrap around, and its index stays within the six unit letters.
pub byte_unit_lem : (b : ℕ) → 1024 ≤ b → b < 2 ^ 64 → (exp : ℕ) × IsUnitOf b (byte_unit b) exp
unfolding byte_unit
byte_unit_lem b low high = elim (dec_lt b (1024 ^ 2)) [
  | yes h ↦ (0, ground arith)
  | no h ↦ elim (dec_lt b (1024 ^ 3)) [
    | yes h3 ↦ (1, ground arith)
    | no h3 ↦ elim (dec_lt b (1024 ^ 4)) [
      | yes h4 ↦ (2, ground arith)
      | no h4 ↦ elim (dec_lt b (1024 ^ 5)) [
        | yes h5 ↦ (3, ground arith)
        | no h5 ↦ elim (dec_lt b (1024 ^ 6)) [
          | yes h6 ↦ (4, ground arith)
          | no h6 ↦ (5, ground arith)
        ]
      ]
    ]
  ]
]
