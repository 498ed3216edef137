-- ===== src/Loans/Money.antt =====
-- Amounts of money. The code computes in JavaScript numbers and rounds to cents after each formula;
-- here an amount is exact, a whole number of stroops (10 ^ -7 dollars), and a cent is 10 ^ 5 of
-- them. Binary rounding errors below a stroop are not modelled.
use Prim.Native.Nat.{ℕ, ◌+◌, ◌*◌, ◌/◌, ◌≤◌, ◌<◌}
use mathlib.Core.Path.{◌≡◌}
use native.Mathlib.Omega.{arith}

abbrev pub cent : ℕ
cent = 100000

abbrev pub dollar : ℕ
dollar = 10000000

-- `Math.round(n / d)`: the nearest integer, half of one rounded up
abbrev pub round_ratio : ℕ → ℕ → ℕ
round_ratio n d = (2 * n + d) / (2 * d)

-- `Math.round(x * 100) / 100` of an amount
abbrev pub round_cents : ℕ → ℕ
round_cents x = cent * ((x + 50000) / cent)

pub round_cents_exact : (k : ℕ) → round_cents (cent * k) ≡ cent * k
round_cents_exact k = omega arith

-- Rounding moves an amount by half a cent at most.
pub round_cents_near : (x : ℕ) → (round_cents x ≤ x + 50000) × (x < round_cents x + 50001)
round_cents_near x = omega arith
