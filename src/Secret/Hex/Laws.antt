-- ===== src/Secret/Hex/Laws.antt =====
-- Round trips of the hexadecimal form, and what an accepted text looks like.
use Prim.Native.Nat.{bit_or}
use mtprotor.Base.{
  ℕ, zero, suc, ◌+◌, ◌-◌, ◌*◌, ◌/◌, ◌%◌, ◌<◌, ◌≡◌, refl, ap, ap₂, ◌∙◌, true, some, List, [], ◌∷◌,
  ◌++◌, map, arith, ◌==◌, if◌then◌else◌, length, take, drop, All, subst, Bool-cases, inl, inr,
  length-append, drop-append, append-nil,
}
use mtprotor.Base.Bytes.{bit_or_nibbles}
use mtprotor.Base.Ctype.{isxdigit, tolower, has_prefix_nocase}
use mtprotor.Secret.Hex.{
  xd, secret16_to_hex, digit_value, all_digits, digit_pairs, hex16_to_secret, after_prefix, dd, ee,
  secret16_from_hex,
}

abbrev pub IsByte : ℕ → Type 0
IsByte b = b < 256

-- A stored secret: 16 bytes.
abbrev pub IsSecret : List ℕ → Type 0
IsSecret s = (length s ≡ 16) × All IsByte s

xd_digit :
    (n : ℕ) → n < 16 → (isxdigit (xd n) ≡ true) × (digit_value (xd n) ≡ n) × (tolower (xd n) ≡ xd n)
xd_digit n h = ground arith

pub length-to_hex : (s : List ℕ) → length (secret16_to_hex s) ≡ length s * 2
unfolding secret16_to_hex
length-to_hex [] = refl
length-to_hex (b ∷ bs) = omega (arith, length-to_hex bs)

twice_suc : (n : ℕ) → suc n * 2 ≡ suc (suc (n * 2))
twice_suc n = omega arith

all_digits-to_hex :
    (s rest : List ℕ) → All IsByte s → all_digits (length s * 2) (secret16_to_hex s ++ rest) ≡ true
unfolding secret16_to_hex all_digits
all_digits-to_hex [] rest h = refl
all_digits-to_hex (b ∷ bs) rest h =
    rw
      (
        twice_suc (length bs),
        (xd_digit (b / 16) (omega arith)).0,
        (xd_digit (b % 16) (omega arith)).0,
      )
      (all_digits-to_hex bs rest h.1)

digit_pairs-to_hex :
    (s rest : List ℕ) → All IsByte s → digit_pairs (length s) (secret16_to_hex s ++ rest) ≡ s
unfolding secret16_to_hex digit_pairs
digit_pairs-to_hex [] rest h = refl
digit_pairs-to_hex (b ∷ bs) rest h = ap₂ ◌∷◌ first (digit_pairs-to_hex bs rest h.1)
  where
    first : bit_or (digit_value (xd (b / 16)) * 16) (digit_value (xd (b % 16))) % 256 ≡ b
    first =
        rw ((xd_digit (b / 16) (omega arith)).1, (xd_digit (b % 16) (omega arith)).1)
          (omega (arith, bit_or_nibbles (b / 16) (b % 16) (omega arith) (omega arith)))

-- The hexadecimal form of a secret, with anything behind it, reads back as that secret.
pub hex16_to_secret-to_hex :
    (s rest : List ℕ) → IsSecret s → hex16_to_secret (secret16_to_hex s ++ rest) ≡ some s
unfolding hex16_to_secret
hex16_to_secret-to_hex s rest (n, h) =
    let digits : all_digits 32 (secret16_to_hex s ++ rest) ≡ true =
      rw n at (all_digits-to_hex s rest h) in
    let pairs : digit_pairs 16 (secret16_to_hex s ++ rest) ≡ s =
      rw n at (digit_pairs-to_hex s rest h) in
    rw (digits, pairs) refl

-- A secret's own hexadecimal form is accepted as that secret.
pub from_hex-to_hex :
    (s : List ℕ) → IsSecret s → secret16_from_hex (some (secret16_to_hex s)) ≡ some s
unfolding secret16_from_hex
from_hex-to_hex s v = rw (length-to_hex s, v.0) (rw append-nil at (hex16_to_secret-to_hex s [] v))

pub data Mode : Type 0 where
  padded fake_tls : Mode

abbrev pub prefix_of : Mode → List ℕ
prefix_of padded = dd
prefix_of fake_tls = ee

module _ (s suffix : List ℕ) (v : IsSecret s) where
  abbrev body : List ℕ
  body = secret16_to_hex s ++ suffix

  length-body : length body ≡ 32 + length suffix
  length-body = omega (arith, length-append (secret16_to_hex s) suffix, length-to_hex s, v.0)

  drop-body : drop 32 body ≡ suffix
  drop-body =
      let n : length (secret16_to_hex s) ≡ 32 = omega (arith, length-to_hex s, v.0) in
      rw n at (drop-append (secret16_to_hex s) suffix)

  after_prefix-body :
      (p q : ℕ)
      → length suffix % 2 ≡ 0
      → all_digits (length suffix) suffix ≡ true
      → after_prefix (p ∷ q ∷ body) ≡ some s
  unfolding after_prefix
  after_prefix-body p q even digits =
      let n : suc (suc (length body)) - 34 ≡ length suffix = omega (arith, length-body) in
      ground (arith, hex16_to_secret-to_hex s suffix v, n, drop-body)

-- A link secret, a mode prefix before the hexadecimal form and an even number of hexadecimal digits
-- behind it, is accepted as the secret that it carries.
pub from_hex-link :
    (m : Mode) (s suffix : List ℕ)
    → IsSecret s
    → length suffix % 2 ≡ 0
    → all_digits (length suffix) suffix ≡ true
    → secret16_from_hex (some (prefix_of m ++ (secret16_to_hex s ++ suffix))) ≡ some s
unfolding secret16_from_hex has_prefix_nocase
from_hex-link padded s suffix v even digits =
    ground (arith, length-body s suffix v, after_prefix-body s suffix v b'd' b'd' even digits)
from_hex-link fake_tls s suffix v even digits =
    ground (arith, length-body s suffix v, after_prefix-body s suffix v b'e' b'e' even digits)

-- Reading two hexadecimal digits: the byte, and the digits that write it.
hex_digit : (c : ℕ) → isxdigit c ≡ true → (digit_value c < 16) × (xd (digit_value c) ≡ tolower c)
hex_digit c h = ground arith

abbrev byte_of : ℕ → ℕ → ℕ
byte_of c d = bit_or (digit_value c * 16) (digit_value d) % 256

byte_of_lem :
    (c d : ℕ)
    → isxdigit c ≡ true
    → isxdigit d ≡ true
    → (byte_of c d < 256)
      × (xd (byte_of c d / 16) ≡ tolower c)
      × (xd (byte_of c d % 16) ≡ tolower d)
byte_of_lem c d p q =
    let (cs, ct) = hex_digit c p in
    let (ds, dt) = hex_digit d q in
    let sum : byte_of c d ≡ digit_value c * 16 + digit_value d =
      omega (arith, bit_or_nibbles (digit_value c) (digit_value d) cs ds) in
    let hi : byte_of c d / 16 ≡ digit_value c = omega arith in
    let lo : byte_of c d % 16 ≡ digit_value d = omega arith in
    (omega arith, ap xd hi ∙ ct, ap xd lo ∙ dt)

digit_pairs_sound :
    (n : ℕ) (h : List ℕ)
    → all_digits (n * 2) h ≡ true
    → (length (digit_pairs n h) ≡ n)
      × All IsByte (digit_pairs n h)
      × (secret16_to_hex (digit_pairs n h) ≡ map tolower (take (n * 2) h))
unfolding all_digits digit_pairs secret16_to_hex
digit_pairs_sound zero h e = (refl, tt, refl)
digit_pairs_sound (suc n) [] e =
    let e' : all_digits (suc (suc (n * 2))) [] ≡ true = rw twice_suc at e in cc
digit_pairs_sound (suc n) (c ∷ []) e =
    let e' : all_digits (suc (suc (n * 2))) (c ∷ []) ≡ true = rw twice_suc at e in ground arith
digit_pairs_sound (suc n) (c ∷ d ∷ h) e =
    let e' : all_digits (suc (suc (n * 2))) (c ∷ d ∷ h) ≡ true = rw twice_suc at e in
    let p : isxdigit c ≡ true = ground arith in
    let q : isxdigit d ≡ true = ground arith in
    let r : all_digits (n * 2) h ≡ true = ground arith in
    let (small, hi, lo) = byte_of_lem c d p q in
    let (size, bytes, text) = digit_pairs_sound n h r in
    (ap suc size, (small, bytes), rw (twice_suc n, hi, lo, text) refl)

pub hex16_to_secret_sound :
    (hex : List ℕ) {s : List ℕ}
    → hex16_to_secret hex ≡ some s
    → IsSecret s × (secret16_to_hex s ≡ map tolower (take 32 hex))
unfolding hex16_to_secret
hex16_to_secret_sound hex {s} e = elim (Bool-cases (all_digits 32 hex)) [
  | inl ok ↦
      let (size, bytes, text) = digit_pairs_sound 16 hex ok in
      let same : digit_pairs 16 hex ≡ s = ground arith in
      subst (λ t. IsSecret t × (secret16_to_hex t ≡ map tolower (take 32 hex))) same
        ((size, bytes), text)
  | inr bad ↦ ground arith
]

-- Where the 32 digits of a secret stand in an accepted text: at the start of a text of 32 characters,
-- behind the mode prefix of a longer one.
pub digits_of : List ℕ → List ℕ
digits_of hex = if length hex == 32 then take 32 hex else take 32 (drop 2 hex)

-- Whatever is accepted is a 16-byte secret, and its hexadecimal form is the accepted text's 32
-- digits in lower case.
pub from_hex_sound :
    (hex : List ℕ) {s : List ℕ}
    → secret16_from_hex (some hex) ≡ some s
    → IsSecret s × (secret16_to_hex s ≡ map tolower (digits_of hex))
unfolding secret16_from_hex after_prefix digits_of
from_hex_sound hex {s} e = elim (Bool-cases (length hex == 32)) [
  | inl whole ↦ rw whole (hex16_to_secret_sound hex (rw whole at e))
  | inr longer ↦ rw longer (hex16_to_secret_sound (drop 2 hex) (ground arith))
]
