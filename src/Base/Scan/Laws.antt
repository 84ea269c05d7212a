-- ===== src/Base/Scan/Laws.antt =====
-- A printed number reads back.
use mtprotor.Base.{
  ℕ, zero, suc, ◌+◌, ◌-◌, ◌*◌, ◌/◌, ◌%◌, ◌^◌, ◌<◌, ◌≡◌, refl, ap, ◌∙◌, true, false, List, [], ◌∷◌,
  ◌++◌, ltb, leb, ◌==◌, arith, All, All-append, Bool-cases, inl, inr,
}
use mtprotor.Base.Ctype.{isdigit, isspace}
use mtprotor.Base.Decimal.{digits_fuel, print_nat, print_int}
use mtprotor.Base.Int.{ℤ, pos, negsuc}
use mtprotor.Base.Scan.{
  skip_spaces, digits_value, clamp_pos, clamp_neg, signed_value, atoll, atoi, to_int32,
}

abbrev pub IsDigit : ℕ → Type 0
IsDigit c = isdigit c ≡ true

digits_value-append :
    (n : ℕ) (s t : List ℕ)
    → All IsDigit s
    → digits_value n (s ++ t) ≡ digits_value (digits_value n s) t
unfolding digits_value
digits_value-append n [] t h = refl
digits_value-append n (c ∷ s) t (d, h) =
    rw (d, digits_value) (digits_value-append (n * 10 + (c - b'0')) s t h)

digits_fuel_lem :
    (fuel n : ℕ)
    → n < fuel
    → All IsDigit (digits_fuel fuel n) × (digits_value 0 (digits_fuel fuel n) ≡ n)
unfolding digits_fuel digits_value
digits_fuel_lem zero n h = absurd (omega arith)
digits_fuel_lem (suc fuel) n h = elim (Bool-cases (ltb n 10)) [
  | inl short ↦
      let d : isdigit (b'0' + n) ≡ true = ground arith in
      rw (short, digits_fuel) ((d, tt), rw (d, digits_value) (omega arith))
  | inr long ↦
      let (digits, value) = digits_fuel_lem fuel (n / 10) (ground arith) in
      let d : isdigit (b'0' + n % 10) ≡ true = ground arith in
      rw (long, digits_fuel)
        (
          All-append IsDigit (digits_fuel fuel (n / 10)) ((b'0' + n % 10) ∷ []) digits (d, tt),
          digits_value-append 0 (digits_fuel fuel (n / 10)) ((b'0' + n % 10) ∷ []) digits
              ∙ one_more (digits_value 0 (digits_fuel fuel (n / 10))) (n % 10) (omega arith)
              ∙ omega (arith, value),
        )
]
  where
    one_more : (v d : ℕ) → d < 10 → digits_value v ((b'0' + d) ∷ []) ≡ v * 10 + d
    one_more v d h =
        let ok : isdigit (b'0' + d) ≡ true = ground arith in rw (ok, digits_value) (omega arith)

snoc-nonempty : (xs : List ℕ) (d : ℕ) → (c : ℕ) × (s : List ℕ) × (xs ++ (d ∷ []) ≡ c ∷ s)
snoc-nonempty [] d = (d, [], refl)
snoc-nonempty (x ∷ xs) d = (x, xs ++ (d ∷ []), refl)

pub print_nat-nonempty : (n : ℕ) → (c : ℕ) × (s : List ℕ) × (print_nat n ≡ c ∷ s)
unfolding print_nat digits_fuel
print_nat-nonempty n = elim (Bool-cases (ltb n 10)) [
  | inl short ↦ (b'0' + n, [], rw (short, print_nat, digits_fuel) refl)
  | inr long ↦
      let (c, s, e) = snoc-nonempty (digits_fuel n (n / 10)) (b'0' + n % 10) in
      (c, s, rw (long, print_nat, digits_fuel) e)
]

pub print_nat-IsDigit : (n : ℕ) → All IsDigit (print_nat n)
unfolding print_nat
print_nat-IsDigit n = (digits_fuel_lem (suc n) n (omega arith)).0

pub digits_value-print_nat : (n : ℕ) → digits_value 0 (print_nat n) ≡ n
unfolding print_nat
digits_value-print_nat n = (digits_fuel_lem (suc n) n (omega arith)).1

atoll-digits : (c : ℕ) (s : List ℕ) → IsDigit c → atoll (c ∷ s) ≡ clamp_pos (digits_value 0 (c ∷ s))
unfolding atoll skip_spaces signed_value
atoll-digits c s d =
    let no_space : isspace c ≡ false = ground arith in
    let no_minus : (c == b'-') ≡ false = ground arith in
    let no_plus : (c == b'+') ≡ false = ground arith in rw (no_space, no_minus, no_plus) refl

pub atoll-print_nat : (n : ℕ) → n < 2 ^ 63 → atoll (print_nat n) ≡ pos n
atoll-print_nat n h =
    let (c, s, e) = print_nat-nonempty n in
    let digits : All IsDigit (c ∷ s) = rw e at (print_nat-IsDigit n) in
    let value : digits_value 0 (c ∷ s) ≡ n = rw e at (digits_value-print_nat n) in
    let small : ltb n (2 ^ 63) ≡ true = ground arith in
    ap atoll e ∙ atoll-digits c s digits.0 ∙ ap clamp_pos value ∙ rw small refl

-- The range of `long long`.
abbrev pub IsLong : ℤ → Type 0
IsLong (pos n) = n < 2 ^ 63
IsLong (negsuc n) = n < 2 ^ 63

atoll-minus : (n : ℕ) → n < 2 ^ 63 → atoll (b'-' ∷ print_nat (suc n)) ≡ negsuc n
unfolding atoll skip_spaces signed_value
atoll-minus n h =
    let fits : leb (suc n) (2 ^ 63) ≡ true = ground arith in
    ap clamp_neg (digits_value-print_nat (suc n)) ∙ rw fits refl

-- A number printed by %lld reads back by atoll.
pub atoll-print_int : (z : ℤ) → IsLong z → atoll (print_int z) ≡ z
unfolding print_int
atoll-print_int (pos n) h = atoll-print_nat n h
atoll-print_int (negsuc n) h = atoll-minus n h

-- A number printed by %d reads back by atoi.
pub atoi-print_nat : (n : ℕ) → n < 2 ^ 31 → atoi (print_nat n) ≡ pos n
unfolding atoi
atoi-print_nat n h =
    let m : n % 2 ^ 32 ≡ n = omega arith in
    let small : ltb n (2 ^ 31) ≡ true = ground arith in
    ap to_int32 (atoll-print_nat n (omega arith)) ∙ rw (m, small) refl
