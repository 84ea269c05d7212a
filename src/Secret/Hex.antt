-- ===== src/Secret/Hex.antt =====
-- The hexadecimal form of a 16-byte secret: ext_secret16_to_hex, ext_hex16_to_secret and
-- ext_secret16_from_hex of net/net-tcp-rpc-ext-server.c.
pub mod Laws
use Prim.Native.Nat.{bit_or}
use mtprotor.Base.{
  ℕ, zero, suc, ◌+◌, ◌-◌, ◌*◌, ◌/◌, ◌%◌, ◌^◌, Bool, true, false, not, ◌&&◌, ◌||◌, Option, none,
  some, List, [], ◌∷◌, ltb, leb, ◌==◌, if◌then◌else◌, length, drop,
}
use mtprotor.Base.Ctype.{isxdigit, tolower, has_prefix_nocase}

-- `xd[n]` of the table "0123456789abcdef".
abbrev pub xd : ℕ → ℕ
xd n = if ltb n 10 then b'0' + n else b'a' + (n - 10)

-- The loop over the 16 bytes.
unfoldable pub secret16_to_hex : List ℕ → List ℕ
secret16_to_hex [] = []
secret16_to_hex (b ∷ bs) = xd (b / 16) ∷ xd (b % 16) ∷ secret16_to_hex bs

-- `(c <= '9') ? c - '0' : tolower (c) - 'a' + 10`, at a hexadecimal digit.
abbrev pub digit_value : ℕ → ℕ
digit_value c = if leb c b'9' then c - b'0' else tolower c - b'a' + 10

-- The first loop: `n` digits from here on. The terminating NUL is no digit.
unfoldable pub all_digits : ℕ → List ℕ → Bool
all_digits zero s = true
all_digits (suc n) [] = false
all_digits (suc n) (c ∷ s) = isxdigit c && all_digits n s

-- The second loop: `n` bytes, of two digits each.
unfoldable pub digit_pairs : ℕ → List ℕ → List ℕ
digit_pairs zero s = []
digit_pairs (suc n) (h ∷ l ∷ s) =
    bit_or (digit_value h * 16) (digit_value l) % 256 ∷ digit_pairs n s
digit_pairs (suc n) _ = []

-- `none` is the result -1.
unfoldable pub hex16_to_secret : List ℕ → Option (List ℕ)
hex16_to_secret hex = if all_digits 32 hex then some (digit_pairs 16 hex) else none

-- The secret after a two-letter mode prefix, and the check of the suffix behind it.
unfoldable pub after_prefix : List ℕ → Option (List ℕ)
after_prefix hex = elim (hex16_to_secret (drop 2 hex)) [
  | none ↦ none
  | some out ↦
      if not ((length hex - 34) % 2 == 0)
      then none
      else if all_digits (length hex - 34) (drop 34 hex)
      then some out
      else none
]

abbrev pub dd : List ℕ
dd = b'd' ∷ b'd' ∷ []

abbrev pub ee : List ℕ
ee = b'e' ∷ b'e' ∷ []

-- `none` as an argument is the NULL pointer.
unfoldable pub secret16_from_hex : Option (List ℕ) → Option (List ℕ)
secret16_from_hex none = none
secret16_from_hex (some hex) =
    if length hex == 32
    then hex16_to_secret hex
    else if leb 34 (length hex) && has_prefix_nocase hex dd
    then after_prefix hex
    else if leb 34 (length hex) && has_prefix_nocase hex ee
    then after_prefix hex
    else none
