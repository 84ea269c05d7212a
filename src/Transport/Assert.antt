-- ===== src/Transport/Assert.antt =====
-- Which assertion of the reader can fail, and for which input.
use mtprotor.Base.{
  ℕ, ◌+◌, ◌-◌, ◌*◌, ◌/◌, ◌%◌, ◌≤◌, ◌<◌, ◌≡◌, refl, ◌⊎◌, Bool, true, false, Option, none, some, List,
  ltb, some_eq, ◌↔◌, sym, ◌∙◌, length, take, drop, arith, length-take, length-drop, Bool-cases, inl,
  inr,
}
use mtprotor.Transport.Frame.{
  Mode, lookup32, read_packet, read_body, read_length, bad_length, deliver, min_len, packet_length,
  need, fail_connection, read_aborted,
}
use mtprotor.Transport.Roundtrip.{read-lookup}
use mtprotor.Transport.Prefix.{begin, nothing, few, looked}

-- The packets whose padding leaves no room for a packet type.
abbrev pub TooShort : Mode → ℕ → Type 0
TooShort mode n = (mode.pad ≡ true) × (0 < n) × (n < 4)

deliver-aborted :
    (mode : Mode) (q : Bool) (msg rest : List ℕ)
    → 0 < length msg
    → (mode.pad ≡ false → length msg % 4 ≡ 0)
    → deliver mode q msg rest ≡ read_aborted
    → TooShort mode (length msg)
unfolding deliver
deliver-aborted mode q msg rest there whole h = elim (Bool-cases mode.pad) [
  | inl padded ↦ (padded, there, ground (arith, length-take (length msg / 4 * 4) msg))
  | inr plain ↦ let w : length msg % 4 ≡ 0 = whole plain in absurd (ground arith)
]

pub good-positive : (mode : Mode) (m n : ℕ) → bad_length mode m n ≡ false → 0 < n
unfolding bad_length
good-positive mode m n h = ground arith

good-whole : (mode : Mode) (m n : ℕ) → bad_length mode m n ≡ false → mode.pad ≡ false → n % 4 ≡ 0
unfolding bad_length
good-whole mode m n h plain = ground arith

body-aborted :
    (mode : Mode) (m : ℕ) (q : Bool) (n prefix : ℕ) (input : List ℕ)
    → read_body mode m q n prefix input ≡ read_aborted
    → TooShort mode n
unfolding read_body
body-aborted mode m q n prefix input h = elim (Bool-cases (bad_length mode m n)) [
  | inl bad ↦ absurd (let f : fail_connection ≡ read_aborted = rw bad at h in cc)
  | inr good ↦ elim (Bool-cases (ltb (length input) (n + prefix))) [
    | inl short ↦
        absurd
          (let f : need (n + prefix - length input) ≡ read_aborted = rw (good, short) at h in cc)
    | inr long ↦
        let msg = take n (drop prefix input) in
        let size : length msg ≡ n =
          ground (arith, length-take n (drop prefix input), length-drop prefix input) in
        let f : deliver mode q msg (drop n (drop prefix input)) ≡ read_aborted =
          rw (good, long) at h in
        rw size at (
          deliver-aborted mode q msg (drop n (drop prefix input))
            (rw size (good-positive mode m n good))
            (λ plain. rw size (good-whole mode m n good plain)) f)
  ]
]

deliver-short :
    (mode : Mode) (q : Bool) (msg rest : List ℕ)
    → TooShort mode (length msg)
    → deliver mode q msg rest ≡ read_aborted
unfolding deliver
deliver-short mode q msg rest (padded, there, short) =
    let few : ltb (length (take (length msg / 4 * 4) msg)) 4 ≡ true =
      ground (arith, length-take (length msg / 4 * 4) msg) in
    rw (padded, few) refl

short-good :
    (mode : Mode) (m n : ℕ) → TooShort mode n → (m ≡ 0) ⊎ (4 ≤ m) → bad_length mode m n ≡ false
unfolding bad_length
short-good mode m n (padded, there, short) limit = elim limit [
  | inl z ↦ ground arith
  | inr le ↦ ground arith
]

body-short :
    (mode : Mode) (m : ℕ) (q : Bool) (n prefix : ℕ) (input : List ℕ)
    → TooShort mode n
    → (m ≡ 0) ⊎ (4 ≤ m)
    → n + prefix ≤ length input
    → read_body mode m q n prefix input ≡ read_aborted
unfolding read_body
body-short mode m q n prefix input short limit enough =
    let long : ltb (length input) (n + prefix) ≡ false = ground arith in
    let size : length (take n (drop prefix input)) ≡ n =
      ground (arith, length-take n (drop prefix input), length-drop prefix input) in
    rw (short-good mode m n short limit, long)
      (deliver-short mode q (take n (drop prefix input)) (drop n (drop prefix input))
        (rw size short))

prefix_le :
    (mode : Mode) (w n prefix : ℕ) (q : Bool)
    → packet_length mode w ≡ some (q, n, prefix)
    → prefix ≤ 4
unfolding packet_length
prefix_le mode w n prefix q h = ground arith

-- The length of the packet that begins the input.
abbrev pub length_of : Option (Bool × ℕ × ℕ) → Option ℕ
length_of none = none
length_of (some (q, n, prefix)) = some n

abbrev pub declared_length : Mode → List ℕ → Option ℕ
declared_length mode input = elim (lookup32 input) [
  | none ↦ none
  | some w ↦ length_of (packet_length mode w)
]

length-aborted :
    (mode : Mode) (m : ℕ) (input : List ℕ) (o : Option (Bool × ℕ × ℕ))
    → read_length mode m input o ≡ read_aborted
    → (n : ℕ) × (length_of o ≡ some n) × TooShort mode n
length-aborted mode m input none h = cc
length-aborted mode m input (some (q, n, prefix)) h =
    (n, refl, body-aborted mode m q n prefix input h)

length-short :
    (mode : Mode) (m n : ℕ) (input : List ℕ) (o : Option (Bool × ℕ × ℕ))
    → length_of o ≡ some n
    → ((q : Bool) (k prefix : ℕ) → o ≡ some (q, k, prefix) → prefix ≤ 4)
    → TooShort mode n
    → (m ≡ 0) ⊎ (4 ≤ m)
    → min_len mode + 8 ≤ length input
    → read_length mode m input o ≡ read_aborted
length-short mode m n input none e le short limit enough = cc
length-short mode m n input (some (q, k, prefix)) e le short limit enough =
    let same : k ≡ n = some_eq e in
    let p : prefix ≤ 4 = le q k prefix refl in
    rw same (body-short mode m q n prefix input short limit (ground arith))

-- With the bytes there that the reader waits for first, and no limit on packets that is below 4, an
-- assertion of the reader fails exactly when the transport is padded and the input begins with a
-- packet of one to three bytes.
pub read-aborted_iff :
    (mode : Mode) (m : ℕ) (input : List ℕ)
    → (m ≡ 0) ⊎ (4 ≤ m)
    → min_len mode + 8 ≤ length input
    → (read_packet mode m input ≡ read_aborted)
      ↔ ((n : ℕ) × (declared_length mode input ≡ some n) × TooShort mode n)
read-aborted_iff mode m input limit enough = elim (begin mode m input) [
  | nothing z ↦ absurd (omega (arith, z, enough))
  | few there short ↦ absurd (omega (arith, short, enough))
  | looked w enough' look ↦
      let one = read-lookup mode m w input enough look in
      let same : declared_length mode input ≡ length_of (packet_length mode w) =
        rw (look, declared_length) refl in
      (
        λ h.
            let (n, e, short) = length-aborted mode m input (packet_length mode w) (sym one ∙ h) in
            (n, same ∙ e, short),
        λ (n, e, short).
            one
            ∙ length-short mode m n input (packet_length mode w) (sym same ∙ e)
                (λ q k prefix. prefix_le mode w k prefix q) short limit enough,
      )
]
