-- ===== src/Base/Decimal.antt =====
-- `printf`'s %d and %lld.
use Prim.Native.Nat.{ℕ, zero, suc, ◌+◌, ◌/◌, ◌%◌}
use mathlib.Core.Bool.{true, false}
use mathlib.Core.List.{List, [], ◌∷◌, ◌++◌}
use mtprotor.Base.Tests.{ltb}
use mtprotor.Base.Int.{ℤ, pos, negsuc}

-- The digits of `n`, most significant first; `n + 1` rounds of fuel are enough.
unfoldable pub digits_fuel : ℕ → ℕ → List ℕ
digits_fuel zero n = []
digits_fuel (suc fuel) n = elim (ltb n 10) [
  | true ↦ (b'0' + n) ∷ []
  | false ↦ digits_fuel fuel (n / 10) ++ ((b'0' + n % 10) ∷ [])
]

unfoldable pub print_nat : ℕ → List ℕ
unfolding digits_fuel
print_nat n = digits_fuel (suc n) n

unfoldable pub print_int : ℤ → List ℕ
unfolding print_nat
print_int (pos n) = print_nat n
print_int (negsuc n) = b'-' ∷ print_nat (suc n)
