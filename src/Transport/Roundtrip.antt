-- ===== src/Transport/Roundtrip.antt =====
-- What the writer sends is what the reader delivers.
use Prim.Native.Nat.{bit_or}
use mtprotor.Base.{
  ℕ, ◌+◌, ◌*◌, ◌/◌, ◌%◌, ◌^◌, ◌≤◌, ◌<◌, ◌≡◌, refl, sym, ap, ◌∙◌, Bool, true, false, not, ◌&&◌, ◌||◌,
  some, List, [], ◌∷◌, ◌++◌, ltb, leb, ◌==◌, if◌then◌else◌, length, take, arith, append_assoc,
  take-append, drop-append, length-append, length-take, Bool-cases, leb→le, lt→ltb, append-nil, ◌⊎◌,
  inl, inr,
}
use mtprotor.Base.Bytes.{bit_or_shifted}
use mtprotor.Transport.Frame.{
  Mode, le32, lookup32, frame, write_packet_compact, write_framed, read_packet, read_body,
  read_length, bad_length, deliver, packet, min_len, packet_length, sent, Written,
}

pub lookup32-le32 : (n : ℕ) (rest : List ℕ) → n < 2 ^ 32 → lookup32 (le32 n ++ rest) ≡ some n
unfolding lookup32 le32
lookup32-le32 n rest h = ap some (omega arith)

pub length-le32 : (n : ℕ) → length (le32 n) ≡ 4
unfolding le32
length-le32 n = refl

-- The long prefix of the compact transport.
pub long_prefix :
    (n : ℕ) → n < 2 ^ 26 → n % 4 ≡ 0 → bit_or (n * 2 ^ 6 % 2 ^ 32) 0x7f ≡ n / 4 * 256 + 0x7f
long_prefix n small even =
    let h : n * 2 ^ 6 % 2 ^ 32 ≡ n / 4 * 2 ^ 8 = omega arith in
    rw h (bit_or_shifted 8 (n / 4) 0x7f (omega arith))

-- The length that the reader finds behind each of the three prefixes.
packet_length-medium :
    (mode : Mode) (n : ℕ)
    → mode.medium ≡ true
    → n < 2 ^ 26
    → packet_length mode n ≡ some (false, n, 4)
unfolding packet_length
packet_length-medium mode n m small = ground arith

packet_length-short :
    (mode : Mode) (n x : ℕ)
    → mode.medium ≡ false
    → n ≤ 0x7e * 4
    → n % 4 ≡ 0
    → packet_length mode (n / 4 % 256 + 256 * x) ≡ some (false, n, 1)
unfolding packet_length
packet_length-short mode n x m small even = ground arith

packet_length-long :
    (mode : Mode) (n : ℕ)
    → mode.medium ≡ false
    → 0x7e * 4 < n
    → n % 4 ≡ 0
    → packet_length mode (n / 4 * 256 + 0x7f) ≡ some (false, n, 4)
unfolding packet_length
packet_length-long mode n m big even = ground arith

-- A length that both ends accept.
pub record IsLength (mode : Mode) (max_packet_len n : ℕ) : Type 0 where
  pub positive : 0 < n
  pub small : n < 2 ^ 26
  pub whole : mode.pad ≡ false → n % 4 ≡ 0
  pub allowed : (max_packet_len ≡ 0) ⊎ (n ≤ max_packet_len)
  pub pad_is_medium : mode.medium ≡ false → mode.pad ≡ false

good_length : (mode : Mode) (m n : ℕ) → IsLength mode m n → bad_length mode m n ≡ false
unfolding bad_length
good_length mode m n l =
    let p : 0 < n = l.positive in
    let s : n < 2 ^ 26 = l.small in
    let w : mode.pad ≡ false → n % 4 ≡ 0 = l.whole in
    elim l.allowed [ inl z ↦ ground arith | inr z ↦ ground arith ]

-- The reader past the length.
body-frame :
    (mode : Mode) (m : ℕ) (before raw rest : List ℕ)
    → IsLength mode m (length raw)
    → read_body mode m false (length raw) (length before) (before ++ (raw ++ rest))
      ≡ deliver mode false raw rest
unfolding read_body
body-frame mode m before raw rest l =
    let enough : ltb (length (before ++ (raw ++ rest))) (length raw + length before) ≡ false =
      ground (arith, length-append before (raw ++ rest), length-append raw rest) in
    rw
      (
        good_length mode m (length raw) l,
        enough,
        drop-append before (raw ++ rest),
        take-append raw rest,
        drop-append raw rest,
      )
      refl

-- The reader before the length: with enough bytes there it depends on the first four.
pub read-lookup :
    (mode : Mode) (m w : ℕ) (input : List ℕ)
    → min_len mode + 8 ≤ length input
    → lookup32 input ≡ some w
    → read_packet mode m input ≡ read_length mode m input (packet_length mode w)
unfolding read_packet
read-lookup mode m w input enough look =
    let a : (length input == 0) ≡ false = ground arith in
    let b : ltb (length input) (min_len mode + 8) ≡ false = ground arith in rw (a, b, look) refl

read-prefixed :
    (mode : Mode) (m w : ℕ) (before raw rest : List ℕ)
    → IsLength mode m (length raw)
    → lookup32 (before ++ (raw ++ rest)) ≡ some w
    → packet_length mode w ≡ some (false, length raw, length before)
    → min_len mode + 8 ≤ length (before ++ (raw ++ rest))
    → read_packet mode m (before ++ (raw ++ rest)) ≡ deliver mode false raw rest
read-prefixed mode m w before raw rest l look len enough =
    rw (read-lookup mode m w (before ++ (raw ++ rest)) enough look, len)
      (body-frame mode m before raw rest l)

-- The first word behind a prefix of one byte.
lookup32-short :
    (a : ℕ) (more : List ℕ)
    → 9 ≤ length (a ∷ more)
    → (x : ℕ) × (lookup32 (a ∷ more) ≡ some (a + 256 * x))
unfolding lookup32
lookup32-short a [] h = absurd (omega arith)
lookup32-short a (b ∷ []) h = absurd (omega arith)
lookup32-short a (b ∷ c ∷ []) h = absurd (omega arith)
lookup32-short a (b ∷ c ∷ d ∷ more) h = (b + 256 * (c + 256 * d), refl)

read-short :
    (mode : Mode) (m : ℕ) (raw rest : List ℕ)
    → IsLength mode m (length raw)
    → mode.medium ≡ false
    → length raw ≤ 0x7e * 4
    → min_len mode + 8 ≤ length (length raw / 4 % 256 ∷ (raw ++ rest))
    → read_packet mode m (length raw / 4 % 256 ∷ (raw ++ rest)) ≡ deliver mode false raw rest
read-short mode m raw rest l no_medium short enough =
    let nine : 9 ≤ length (length raw / 4 % 256 ∷ (raw ++ rest)) = ground arith in
    let (x, look) = lookup32-short (length raw / 4 % 256) (raw ++ rest) nine in
    read-prefixed mode m (length raw / 4 % 256 + 256 * x) (length raw / 4 % 256 ∷ []) raw rest l
      look
      (packet_length-short mode (length raw) x no_medium short
        (l.whole (l.pad_is_medium no_medium)))
      enough

read-le32 :
    (mode : Mode) (m w : ℕ) (raw rest : List ℕ)
    → IsLength mode m (length raw)
    → w < 2 ^ 32
    → packet_length mode w ≡ some (false, length raw, 4)
    → min_len mode + 8 ≤ length ((le32 w ++ raw) ++ rest)
    → read_packet mode m ((le32 w ++ raw) ++ rest) ≡ deliver mode false raw rest
read-le32 mode m w raw rest l small len enough = rw (append_assoc (le32 w) raw rest) (
    read-prefixed mode m w (le32 w) raw rest l (lookup32-le32 w (raw ++ rest) small)
      (len ∙ ap (λ k. some (false, length raw, k)) (sym (length-le32 w)))
      (rw (append_assoc (le32 w) raw rest) at enough))

frame-medium :
    (mode : Mode) (raw : List ℕ)
    → mode.medium ≡ true
    → frame mode (length raw) raw ≡ le32 (length raw) ++ raw
unfolding frame
frame-medium mode raw med = rw med refl

frame-short :
    (mode : Mode) (raw : List ℕ)
    → mode.medium ≡ false
    → leb (length raw) (0x7e * 4) ≡ true
    → frame mode (length raw) raw ≡ length raw / 4 % 256 ∷ raw
unfolding frame
frame-short mode raw not_med short = rw (not_med, short) refl

frame-long :
    (mode : Mode) (raw : List ℕ)
    → mode.medium ≡ false
    → leb (length raw) (0x7e * 4) ≡ false
    → length raw < 2 ^ 26
    → length raw % 4 ≡ 0
    → frame mode (length raw) raw ≡ le32 (length raw / 4 * 256 + 0x7f) ++ raw
unfolding frame
frame-long mode raw not_med long small whole =
    rw (not_med, long, long_prefix (length raw) small whole) refl

-- A frame is read back, whatever follows it, once as many bytes are there as the reader waits for.
pub read-frame :
    (mode : Mode) (m : ℕ) (raw rest : List ℕ)
    → IsLength mode m (length raw)
    → min_len mode + 8 ≤ length (frame mode (length raw) raw ++ rest)
    → read_packet mode m (frame mode (length raw) raw ++ rest) ≡ deliver mode false raw rest
read-frame mode m raw rest l enough = elim (Bool-cases mode.medium) [
  | inl med ↦
      let e = frame-medium mode raw med in
      rw e (
        read-le32 mode m (length raw) raw rest l (below (length raw) l.small)
          (packet_length-medium mode (length raw) med l.small) (rw e at enough))
  | inr not_med ↦ elim (Bool-cases (leb (length raw) (0x7e * 4))) [
    | inl short ↦
        let e = frame-short mode raw not_med short in
        rw e (
          read-short mode m raw rest l not_med (leb→le (length raw) (0x7e * 4) short)
            (rw e at enough))
    | inr long ↦
        let whole = l.whole (l.pad_is_medium not_med) in
        let e = frame-long mode raw not_med long l.small whole in
        rw e (
          read-le32 mode m (length raw / 4 * 256 + 0x7f) raw rest l
            (prefix_fits (length raw) l.small)
            (packet_length-long mode (length raw) not_med (ground arith) whole) (rw e at enough))
  ]
]
  where
    below : (n : ℕ) → n < 2 ^ 26 → n < 2 ^ 32
    below n h = omega arith

    prefix_fits : (n : ℕ) → n < 2 ^ 26 → n / 4 * 256 + 0x7f < 2 ^ 32
    prefix_fits n h = omega arith

-- A message as the proxy sends it, on a connection of the compact or medium transport.
pub record IsMessage (mode : Mode) (max_packet_len : ℕ) (raw : List ℕ) : Type 0 where
  pub transport : (mode.compact || mode.medium) ≡ true
  pub pad_is_medium : mode.medium ≡ false → mode.pad ≡ false
  pub has_type : 4 ≤ length raw
  pub whole : length raw % 4 ≡ 0
  pub small : length raw + 3 < 2 ^ 26
  pub allowed : (max_packet_len ≡ 0) ⊎ (length raw + 3 ≤ max_packet_len)

length-IsLength :
    (mode : Mode) (m : ℕ) (raw padding : List ℕ)
    → IsMessage mode m raw
    → length padding < 4
    → (mode.pad ≡ false → length padding ≡ 0)
    → IsLength mode m (length (raw ++ padding))
length-IsLength mode m raw padding v few none_unless =
    let n : length (raw ++ padding) ≡ length raw + length padding = length-append raw padding in
    let h : 4 ≤ length raw = v.has_type in
    let w : length raw % 4 ≡ 0 = v.whole in
    let s : length raw + 3 < 2 ^ 26 = v.small in
    record {
      positive = omega arith;
      small = omega arith;
      whole = λ no_pad. let z = none_unless no_pad in omega arith;
      allowed = elim v.allowed [ inl z ↦ inl z | inr le ↦ inr (omega arith) ];
      pad_is_medium = v.pad_is_medium;
    }

-- The reader drops the padding.
deliver-padded :
    (mode : Mode) (raw padding rest : List ℕ)
    → 4 ≤ length raw
    → length raw % 4 ≡ 0
    → length padding < 4
    → (mode.pad ≡ false → padding ≡ [])
    → deliver mode false (raw ++ padding) rest ≡ packet false raw rest
unfolding deliver
deliver-padded mode raw padding rest h w few none_unless =
    let n : length (raw ++ padding) / 4 * 4 ≡ length raw =
      omega (arith, length-append raw padding) in
    let typed : ltb (length raw) 4 ≡ false = ground arith in
    elim (Bool-cases mode.pad) [
      | inl padded ↦ rw (padded, n, take-append raw padding, typed) refl
      | inr plain ↦ rw (plain, none_unless plain, append-nil raw, typed) refl
    ]

padding_of : Mode → ℕ → ℕ → List ℕ
padding_of mode x y = if mode.pad then take (y % 4) (le32 x) else []

length-padding : (mode : Mode) (x y : ℕ) → length (padding_of mode x y) < 4
unfolding padding_of
length-padding mode x y = ground (arith, length-take (y % 4) (le32 x))

no_padding : (mode : Mode) (x y : ℕ) → mode.pad ≡ false → padding_of mode x y ≡ []
unfolding padding_of
no_padding mode x y plain = rw plain refl

write_framed_lem :
    (mode : Mode) (m : ℕ) (out : List ℕ)
    → IsLength mode m (length out)
    → write_framed mode out ≡ sent (frame mode (length out) out)
unfolding write_framed
write_framed_lem mode m out l =
    let s : ltb (length out) (2 ^ 26) ≡ true = lt→ltb (length out) (2 ^ 26) l.small in
    let w : mode.pad ≡ false → length out % 4 ≡ 0 = l.whole in
    let good : (not mode.pad && not (length out % 4 == 0)) ≡ false = ground arith in
    rw (s, good) refl

pad_first :
    (f : List ℕ → Written) (b : Bool) (raw padding : List ℕ)
    → (if b then f (raw ++ padding) else f raw) ≡ f (raw ++ (if b then padding else []))
pad_first f true raw padding = refl
pad_first f false raw padding = ap f (sym (append-nil raw))

-- The writer adds the padding and the prefix, and no assertion fails.
write-frame :
    (mode : Mode) (m x y : ℕ) (raw : List ℕ)
    → IsMessage mode m raw
    → IsLength mode m (length (raw ++ padding_of mode x y))
    → let out = raw ++ padding_of mode x y in
      write_packet_compact false mode x y raw ≡ sent (frame mode (length out) out)
unfolding write_packet_compact padding_of
write-frame mode m x y raw v l =
    let w : length raw % 4 ≡ 0 = v.whole in
    let not_five : (length raw == 5) ≡ false = ground arith in
    rw (not_five, v.transport)
      (pad_first (write_framed mode) mode.pad raw (take (y % 4) (le32 x))
        ∙ write_framed_lem mode m (raw ++ padding_of mode x y) l)

-- A message of whole words, of at least 4 and fewer than 2^26 - 3 bytes and by 3 bytes within the limit
-- on packets if there is one, that is sent on a compact transport or a medium one, padded in the
-- second case or not, passes every assertion of the writer, and the reader delivers it unpadded,
-- whatever follows it, once 8 bytes more than the shortest prefix are there.
pub write-read :
    (mode : Mode) (m x y : ℕ) (raw : List ℕ)
    → IsMessage mode m raw
    → (out : List ℕ) × (write_packet_compact false mode x y raw ≡ sent out)
      × ((rest : List ℕ)
          → min_len mode + 8 ≤ length (out ++ rest)
          → read_packet mode m (out ++ rest) ≡ packet false raw rest)
write-read mode m x y raw v = (
  frame mode (length padded) padded,
  write-frame mode m x y raw v l,
  λ rest enough.
      read-frame mode m padded rest l enough
      ∙ deliver-padded mode raw padding rest v.has_type v.whole few (no_padding mode x y),
)
  where
    padding : List ℕ
    padding = padding_of mode x y

    padded : List ℕ
    padded = raw ++ padding

    few : length padding < 4
    few = length-padding mode x y

    l : IsLength mode m (length padded)
    l = length-IsLength mode m raw padding v few (λ plain. ap length (no_padding mode x y plain))
