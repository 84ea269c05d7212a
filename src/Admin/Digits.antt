-- ===== src/Admin/Digits.antt =====
-- How long printed numbers are.
use mtprotor.Base.{
  ℕ, zero, suc, ◌+◌, ◌*◌, ◌/◌, ◌%◌, ◌^◌, ◌≤◌, ◌<◌, [], ◌∷◌, ◌++◌, ltb, arith, length, length-append,
  Bool-cases, inl, inr,
}
use mtprotor.Base.Decimal.{digits_fuel, print_nat, print_int}
use mtprotor.Base.Int.{ℤ, pos, negsuc}
use mtprotor.Base.Scan.Laws.{IsLong}

abbrev power_10 : ℕ → ℕ
power_10 zero = 1
power_10 (suc k) = 10 * power_10 k

length-digits_fuel : (fuel n k : ℕ) → n < power_10 (suc k) → length (digits_fuel fuel n) ≤ suc k
unfolding digits_fuel
length-digits_fuel zero n k h = omega arith
length-digits_fuel (suc fuel) n k h = elim (Bool-cases (ltb n 10)) [
  | inl short ↦ rw (short, digits_fuel) (omega arith)
  | inr long ↦
      rw (long, digits_fuel)
        (longer fuel n k h (ground arith) (λ j below. length-digits_fuel fuel (n / 10) j below))
]
  where
    longer :
        (fuel n k : ℕ)
        → n < power_10 (suc k)
        → 10 ≤ n
        → ((j : ℕ) → n / 10 < power_10 (suc j) → length (digits_fuel fuel (n / 10)) ≤ suc j)
        → length (digits_fuel fuel (n / 10) ++ ((b'0' + n % 10) ∷ [])) ≤ suc k
    longer fuel n zero h ge rest = absurd (omega arith)
    longer fuel n (suc k) h ge rest = omega (
      arith,
      rest k (omega arith),
      length-append (digits_fuel fuel (n / 10)) ((b'0' + n % 10) ∷ []),
    )

pub length-print_nat : (n k : ℕ) → n < power_10 (suc k) → length (print_nat n) ≤ suc k
unfolding print_nat
length-print_nat n k h = length-digits_fuel (suc n) n k h

-- An int or an unsigned int has at most 10 digits, a long long at most 20 characters.
pub length-print_nat-int : (n : ℕ) → n < 2 ^ 32 → length (print_nat n) ≤ 10
length-print_nat-int n h = length-print_nat n 9 (omega arith)

pub length-print_int : (z : ℤ) → IsLong z → length (print_int z) ≤ 20
unfolding print_int
length-print_int (pos n) h = let l = length-print_nat n 18 (omega arith) in omega arith
length-print_int (negsuc n) h = let l = length-print_nat (suc n) 18 (omega arith) in omega arith
