-- ===== src/Router/Float.antt =====
-- The float32 costs. IEEE 754 orders the float32 values without NaN like numbers: a value with a
-- clear sign bit stands here as 2^31 plus its bits, one with the sign bit set as 2^31 minus the
-- other 31 bits, so that `<` on floats is `<` on ℕ. Addition rounds, and is a parameter.
use connectopus.Prelude.{ℕ, ◌≤◌, ◌≡◌}

abbrev pub Cost : Type 0
Cost = ℕ

-- 0.0 (and -0.0)
abbrev pub zero_cost : Cost
zero_cost = 0x80000000

-- 1.0, bits 0x3F800000
abbrev pub one_cost : Cost
one_cost = 0xBF800000

-- math.MaxFloat32, bits 0x7F7FFFFF
abbrev pub max_cost : Cost
max_cost = 0xFF7FFFFF

-- float32 addition on costs that are not negative: rounding keeps the order.
pub record Adder : Type 0 where
  pub add : Cost → Cost → Cost
  pub add_grows : (a e : Cost) → zero_cost ≤ a → zero_cost ≤ e → a ≤ add a e
  pub add_mono : (a b e : Cost) → zero_cost ≤ a → zero_cost ≤ e → a ≤ b → add a e ≤ add b e
  pub add_zero_left : (e : Cost) → add zero_cost e ≡ e
