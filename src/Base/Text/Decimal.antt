-- ===== src/Base/Text/Decimal.antt =====
-- Reading a number back from its decimal digits.
use Prim.Native.Nat.{ℕ, zero, suc, ◌+◌, ◌/◌, ◌%◌, ◌<◌}
use mathlib.Core.Path.{◌≡◌}
use mathlib.Core.List.{[], ◌∷◌}
use mathlib.Core.Option.{some}
use native.Mathlib.Omega.{arith}
use sulink_lan.Base.Eq.{Str}
use sulink_lan.Base.Text.{digits_value, decimal, decimal_loop}

digits_value-decimal_loop :
    (fuel n : ℕ) (acc : Str)
    → n < fuel
    → digits_value 0 (decimal_loop fuel n acc) ≡ digits_value n acc
unfolding digits_value decimal_loop
digits_value-decimal_loop zero n acc lt = absurd (omega arith)
digits_value-decimal_loop (suc fuel) n acc lt =
    grind (arith, digits_value-decimal_loop fuel (n / 10) ((48 + n % 10) ∷ acc))

pub digits_value-decimal : (n : ℕ) → digits_value 0 (decimal n) ≡ some n
unfolding digits_value decimal
digits_value-decimal n = digits_value-decimal_loop (suc n) n [] (omega arith)

pub decimal_injective : (m n : ℕ) → decimal m ≡ decimal n → m ≡ n
decimal_injective m n e = cc (digits_value-decimal m, digits_value-decimal n)
