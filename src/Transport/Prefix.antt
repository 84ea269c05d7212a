-- ===== src/Transport/Prefix.antt =====
-- How the reader depends on the segments in which the input arrives, and which assertions of it can
-- fail.
use mtprotor.Base.{
  ℕ, zero, suc, ◌+◌, ◌-◌, ◌*◌, ◌≤◌, ◌<◌, ◌≡◌, ◌≢◌, refl, ap, ◌∙◌, Bool, true, false, Option, none,
  some, List, [], ◌∷◌, ◌++◌, ltb, ◌==◌, length, take, drop, arith, length-append, length-drop,
  Bool-cases, inl, inr,
}
use mtprotor.Transport.Frame.{
  Mode, lookup32, read_packet, read_body, read_length, bad_length, deliver, min_len, packet_length,
  Read, idle, need, fail_connection, read_aborted, packet,
}
use mtprotor.Transport.Roundtrip.{read-lookup}

-- The reader has made up its mind.
abbrev pub settled : Read → Bool
settled idle = false
settled (need n) = false
settled fail_connection = true
settled read_aborted = true
settled (packet q msg rest) = true

-- The same result with more input behind it.
abbrev pub grow : List ℕ → Read → Read
grow more idle = idle
grow more (need n) = need n
grow more fail_connection = fail_connection
grow more read_aborted = read_aborted
grow more (packet q msg rest) = packet q msg (rest ++ more)

module _ {ℓ} {A : Type ℓ} where
  drop-append_le : (n : ℕ) (xs ys : List A) → n ≤ length xs → drop n (xs ++ ys) ≡ drop n xs ++ ys
  drop-append_le zero xs ys h = refl
  drop-append_le (suc n) [] ys h = absurd (omega arith)
  drop-append_le (suc n) (x ∷ xs) ys h = drop-append_le n xs ys (omega arith)

  take-append_le : (n : ℕ) (xs ys : List A) → n ≤ length xs → take n (xs ++ ys) ≡ take n xs
  take-append_le zero xs ys h = refl
  take-append_le (suc n) [] ys h = absurd (omega arith)
  take-append_le (suc n) (x ∷ xs) ys h = ap (λ zs. x ∷ zs) (take-append_le n xs ys (omega arith))

lookup32-some : (xs : List ℕ) → 4 ≤ length xs → (w : ℕ) × (lookup32 xs ≡ some w)
unfolding lookup32
lookup32-some [] h = absurd (omega arith)
lookup32-some (a ∷ []) h = absurd (omega arith)
lookup32-some (a ∷ b ∷ []) h = absurd (omega arith)
lookup32-some (a ∷ b ∷ c ∷ []) h = absurd (omega arith)
lookup32-some (a ∷ b ∷ c ∷ d ∷ xs) h = (a + 256 * (b + 256 * (c + 256 * d)), refl)

lookup32-append : (xs ys : List ℕ) (w : ℕ) → lookup32 xs ≡ some w → lookup32 (xs ++ ys) ≡ some w
unfolding lookup32
lookup32-append [] ys w h = cc
lookup32-append (a ∷ []) ys w h = cc
lookup32-append (a ∷ b ∷ []) ys w h = cc
lookup32-append (a ∷ b ∷ c ∷ []) ys w h = cc
lookup32-append (a ∷ b ∷ c ∷ d ∷ xs) ys w h = h

deliver-grow :
    (mode : Mode) (q : Bool) (msg rest more : List ℕ)
    → deliver mode q msg (rest ++ more) ≡ grow more (deliver mode q msg rest)
unfolding deliver
deliver-grow mode q msg rest more = ground arith

body-grow :
    (mode : Mode) (m : ℕ) (q : Bool) (n prefix : ℕ) (input more : List ℕ)
    → settled (read_body mode m q n prefix input) ≡ true
    → read_body mode m q n prefix (input ++ more) ≡ grow more (read_body mode m q n prefix input)
unfolding read_body
body-grow mode m q n prefix input more h = elim (Bool-cases (bad_length mode m n)) [
  | inl bad ↦ rw bad refl
  | inr good ↦ elim (Bool-cases (ltb (length input) (n + prefix))) [
    | inl short ↦
        absurd
          (let f : settled (need (n + prefix - length input)) ≡ true = rw (good, short) at h in cc)
    | inr long ↦
        let long' : ltb (length (input ++ more)) (n + prefix) ≡ false =
          ground (arith, length-append input more) in
        let start : drop prefix (input ++ more) ≡ drop prefix input ++ more =
          drop-append_le prefix input more (ground arith) in
        let fits : n ≤ length (drop prefix input) = ground (arith, length-drop prefix input) in
        rw
          (
            good,
            long,
            long',
            start,
            take-append_le n (drop prefix input) more fits,
            drop-append_le n (drop prefix input) more fits,
          )
          (deliver-grow mode q (take n (drop prefix input)) (drop n (drop prefix input)) more)
  ]
]

-- The reader with too few bytes for its first look.
pub read-few :
    (mode : Mode) (m : ℕ) (input : List ℕ)
    → 0 < length input
    → length input < min_len mode + 8
    → read_packet mode m input ≡ need (min_len mode + 8 - length input)
unfolding read_packet
read-few mode m input some_there few =
    let a : (length input == 0) ≡ false = ground arith in
    let b : ltb (length input) (min_len mode + 8) ≡ true = ground arith in rw (a, b) refl

pub read-none :
    (mode : Mode) (m : ℕ) (input : List ℕ) → length input ≡ 0 → read_packet mode m input ≡ idle
unfolding read_packet
read-none mode m input z = rw z refl

-- The three ways in which a turn begins.
pub data Begin (mode : Mode) (m : ℕ) (input : List ℕ) : Type 0 where
  nothing : length input ≡ 0 → Begin mode m input
  few : 0 < length input → length input < min_len mode + 8 → Begin mode m input
  looked : (w : ℕ) → min_len mode + 8 ≤ length input → lookup32 input ≡ some w → Begin mode m input

pub begin : (mode : Mode) (m : ℕ) (input : List ℕ) → Begin mode m input
begin mode m input = elim (Bool-cases (length input == 0)) [
  | inl z ↦ nothing (ground arith)
  | inr there ↦ elim (Bool-cases (ltb (length input) (min_len mode + 8))) [
    | inl short ↦ few (ground arith) (ground arith)
    | inr long ↦
        let enough : min_len mode + 8 ≤ length input = ground arith in
        let four : 4 ≤ length input = omega (arith, enough) in
        let (w, look) = lookup32-some input four in looked w enough look
  ]
]

length-grow :
    (mode : Mode) (m : ℕ) (input more : List ℕ) (o : Option (Bool × ℕ × ℕ))
    → settled (read_length mode m input o) ≡ true
    → read_length mode m (input ++ more) o ≡ grow more (read_length mode m input o)
length-grow mode m input more none h = refl
length-grow mode m input more (some (q, n, prefix)) h = body-grow mode m q n prefix input more h

-- Once the reader has delivered a packet, failed the connection or failed an assertion, it does the
-- same when more bytes have arrived, and leaves these behind the packet: how the input is cut into
-- segments does not matter.
pub read-grow :
    (mode : Mode) (m : ℕ) (input more : List ℕ)
    → settled (read_packet mode m input) ≡ true
    → read_packet mode m (input ++ more) ≡ grow more (read_packet mode m input)
read-grow mode m input more h = elim (begin mode m input) [
  | nothing z ↦ absurd (let f : settled idle ≡ true = rw (read-none mode m input z) at h in cc)
  | few there short ↦ absurd (
      let f : settled (need (min_len mode + 8 - length input)) ≡ true =
        rw (read-few mode m input there short) at h in
      cc)
  | looked w enough look ↦
      let enough' : min_len mode + 8 ≤ length (input ++ more) =
        omega (arith, enough, length-append input more) in
      let one = read-lookup mode m w input enough look in
      rw (one, read-lookup mode m w (input ++ more) enough' (lookup32-append input more w look))
        (length-grow mode m input more (packet_length mode w) (rw one at h))
]

deliver-not_need :
    (mode : Mode) (q : Bool) (msg rest : List ℕ) (k : ℕ) → deliver mode q msg rest ≢ need k
unfolding deliver
deliver-not_need mode q msg rest k h = ground arith

need_eq : {a b : ℕ} → need a ≡ need b → a ≡ b
need_eq h = cc

body-need :
    (mode : Mode) (m : ℕ) (q : Bool) (n prefix k : ℕ) (input more : List ℕ)
    → read_body mode m q n prefix input ≡ need k
    → (0 < k)
      × (length more < k → read_body mode m q n prefix (input ++ more) ≡ need (k - length more))
unfolding read_body
body-need mode m q n prefix k input more h = elim (Bool-cases (bad_length mode m n)) [
  | inl bad ↦ absurd (let f : fail_connection ≡ need k = rw bad at h in cc)
  | inr good ↦ elim (Bool-cases (ltb (length input) (n + prefix))) [
    | inr long ↦
        let f : deliver mode q (take n (drop prefix input)) (drop n (drop prefix input)) ≡ need k =
          rw (good, long) at h in
        absurd
          (deliver-not_need mode q (take n (drop prefix input)) (drop n (drop prefix input)) k f)
    | inl short ↦
        let missing : n + prefix - length input ≡ k = need_eq (rw (good, short) at h) in
        let positive : 0 < k = ground arith in
        (
          positive,
          λ fewer.
              let short' : ltb (length (input ++ more)) (n + prefix) ≡ true =
                ground (arith, length-append input more) in
              rw (good, short') (ap need (omega (arith, missing, length-append input more))),
        )
  ]
]

length-need :
    (mode : Mode) (m k : ℕ) (input more : List ℕ) (o : Option (Bool × ℕ × ℕ))
    → read_length mode m input o ≡ need k
    → (0 < k) × (length more < k → read_length mode m (input ++ more) o ≡ need (k - length more))
length-need mode m k input more none h = cc
length-need mode m k input more (some (q, n, prefix)) h = body-need mode m q n prefix k input more h

-- The number of bytes that the reader asks for is positive, and with fewer of them it asks for the
-- remaining number.
pub read-need :
    (mode : Mode) (m k : ℕ) (input more : List ℕ)
    → read_packet mode m input ≡ need k
    → (0 < k) × (length more < k → read_packet mode m (input ++ more) ≡ need (k - length more))
read-need mode m k input more h = elim (begin mode m input) [
  | nothing z ↦ absurd (let f : idle ≡ need k = rw (read-none mode m input z) at h in cc)
  | few there short ↦
      let missing : min_len mode + 8 - length input ≡ k =
        need_eq (rw (read-few mode m input there short) at h) in
      (
        omega (arith, missing, short),
        λ fewer.
            let there' : 0 < length (input ++ more) =
              omega (arith, there, length-append input more) in
            let short' : length (input ++ more) < min_len mode + 8 =
              omega (arith, missing, fewer, length-append input more) in
            read-few mode m (input ++ more) there' short'
            ∙ ap need (omega (arith, missing, length-append input more)),
      )
  | looked w enough look ↦
      let enough' : min_len mode + 8 ≤ length (input ++ more) =
        omega (arith, enough, length-append input more) in
      let one = read-lookup mode m w input enough look in
      rw (read-lookup mode m w (input ++ more) enough' (lookup32-append input more w look))
        (length-need mode m k input more (packet_length mode w) (rw one at h))
]
