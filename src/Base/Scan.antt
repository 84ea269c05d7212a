-- ===== src/Base/Scan.antt =====
-- `atoi` and `atoll`: blanks, a sign and digits, with the values of strtoll where these do not fit.
pub mod Laws
use mtprotor.Base.{
  ℕ, zero, suc, ◌+◌, ◌-◌, ◌*◌, ◌%◌, ◌^◌, Bool, true, false, ◌||◌, List, [], ◌∷◌, ltb, leb, ◌==◌,
  if◌then◌else◌,
}
use mtprotor.Base.Int.{ℤ, pos, negsuc}
use mtprotor.Base.Ctype.{isdigit, isspace}

unfoldable pub skip_spaces : List ℕ → List ℕ
skip_spaces [] = []
skip_spaces (c ∷ s) = if isspace c then skip_spaces s else c ∷ s

-- The digits that the text begins with, behind the number `n`.
unfoldable pub digits_value : ℕ → List ℕ → ℕ
digits_value n [] = n
digits_value n (c ∷ s) = if isdigit c then digits_value (n * 10 + (c - b'0')) s else n

-- LLONG_MAX and LLONG_MIN where the number does not fit.
abbrev pub clamp_pos : ℕ → ℤ
clamp_pos n = if ltb n (2 ^ 63) then pos n else pos (2 ^ 63 - 1)

abbrev pub negate : ℕ → ℤ
negate zero = pos 0
negate (suc n) = negsuc n

abbrev pub clamp_neg : ℕ → ℤ
clamp_neg n = if leb n (2 ^ 63) then negate n else negsuc (2 ^ 63 - 1)

unfoldable pub signed_value : List ℕ → ℤ
signed_value [] = pos 0
signed_value (c ∷ s) =
    if c == b'-'
    then clamp_neg (digits_value 0 s)
    else if c == b'+'
    then clamp_pos (digits_value 0 s)
    else clamp_pos (digits_value 0 (c ∷ s))

unfoldable pub atoll : List ℕ → ℤ
atoll s = signed_value (skip_spaces s)

-- The conversion to `int`.
abbrev pub to_int32 : ℤ → ℤ
to_int32 (pos n) =
    if ltb (n % 2 ^ 32) (2 ^ 31) then pos (n % 2 ^ 32) else negsuc (2 ^ 32 - 1 - n % 2 ^ 32)
to_int32 (negsuc n) =
    if ltb (n % 2 ^ 32) (2 ^ 31) then negsuc (n % 2 ^ 32) else pos (2 ^ 32 - 1 - n % 2 ^ 32)

unfoldable pub atoi : List ℕ → ℤ
atoi s = to_int32 (atoll s)
