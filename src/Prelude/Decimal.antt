-- ===== src/Prelude/Decimal.antt =====
-- Python's `Decimal` in fixed point: an integer that counts units of 10^-16. Sums, differences
-- and orders are exact; a product is exact where both factors are multiples of 10^-8, as the
-- columns `qty` and `price` are, and is otherwise rounded half to even, Python's default mode.
use Prim.Native.Nat.{ℕ, suc, ◌+◌, ◌*◌, ◌/◌, ◌%◌}
use mathlib.Core.Path.{◌≡◌, refl}
use native.Mathlib.Omega.{arith}
use crypto_exchange_pro.Prelude.Tests.{ltb, ◌==◌, if◌then◌else◌}
use crypto_exchange_pro.Prelude.Int.{ℤ, pos, negsuc, sub_ℕ, ◌≤ℤ◌}

abbrev pub Decimal : Type 0
Decimal = ℤ

-- The number of units in 1.
abbrev pub units : ℕ
units = 10000000000000000

-- The quotient rounded half to even.
unfoldable pub div_half_even : ℕ → ℕ → ℕ
div_half_even n d =
    let q = n / d in
    let r = n % d in
    if ltb (2 * r) d then q else if ltb d (2 * r) then q + 1 else if (q % 2) == 0 then q else q + 1

infixl 70 ◌·◌
unfoldable pub ◌·◌ : Decimal → Decimal → Decimal
unfolding div_half_even
pos a · pos b = pos (div_half_even (a * b) units)
pos a · negsuc b = sub_ℕ 0 (div_half_even (a * suc b) units)
negsuc a · pos b = sub_ℕ 0 (div_half_even (suc a * b) units)
negsuc a · negsuc b = pos (div_half_even (suc a * suc b) units)

-- A decimal with two fractional digits, given in hundredths.
abbrev pub cents : ℕ → Decimal
cents n = pos (n * 100000000000000)

abbrev pub whole : ℕ → Decimal
whole n = pos (n * 10000000000000000)

pub ·-nonneg : (a b : Decimal) → pos 0 ≤ℤ a → pos 0 ≤ℤ b → pos 0 ≤ℤ a · b
unfolding ◌·◌
·-nonneg (pos a) (pos b) ha hb = omega arith
·-nonneg (pos a) (negsuc b) ha hb = absurd (omega arith)
·-nonneg (negsuc a) (pos b) ha hb = absurd (omega arith)
·-nonneg (negsuc a) (negsuc b) ha hb = omega arith

product : whole 3 · cents 250 ≡ cents 750
unfolding ◌·◌
product = refl
