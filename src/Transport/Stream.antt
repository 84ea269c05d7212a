-- ===== src/Transport/Stream.antt =====
-- The loop of the reader over all the input that is there, and the packets of a whole stream.
use mtprotor.Base.{
  ℕ, zero, suc, ◌+◌, ◌-◌, ◌≤◌, ◌<◌, ◌≡◌, refl, sym, ap, ap₂, ◌∙◌, Bool, false, Option, none, some,
  List, [], ◌∷◌, ◌++◌, ltb, length, take, drop, arith, append_assoc, length-append, length-drop,
  Bool-cases, inl, inr, All,
}
use mathlib.Core.Option
use mtprotor.Transport.Frame.{
  Mode, read_packet, read_body, read_length, bad_length, deliver, min_len, packet_length, Read,
  idle, need, fail_connection, read_aborted, packet, write_packet_compact, sent, full,
  write_aborted,
}
use mtprotor.Transport.Roundtrip.{read-lookup, IsMessage, write-read}
use mtprotor.Transport.Assert.{good-positive}
use mtprotor.Transport.Prefix.{begin, nothing, few, looked, read-few, read-none}

-- The packets delivered, in order, with their flags, the result that ended the loop, and the input
-- that it left.
abbrev pub Run : Type 0
Run = List (Bool × List ℕ) × Read × List ℕ

abbrev pub delivered : Bool → List ℕ → Run → Run
delivered q msg (packets, last, rest) = ((q, msg) ∷ packets, last, rest)

-- The loop, with `none` where the fuel runs out.
unfoldable pub read_loop : ℕ → Mode → ℕ → List ℕ → Option Run
read_loop zero mode m input = none
read_loop (suc fuel) mode m input = elim (read_packet mode m input) [
  | packet q msg rest ↦ Option.map (delivered q msg) (read_loop fuel mode m rest)
  | idle ↦ some ([], idle, input)
  | need n ↦ some ([], need n, input)
  | fail_connection ↦ some ([], fail_connection, input)
  | read_aborted ↦ some ([], read_aborted, input)
]

deliver-rest :
    (mode : Mode) (q p : Bool) (msg out rest left : List ℕ)
    → deliver mode q msg rest ≡ packet p out left
    → left ≡ rest
unfolding deliver
deliver-rest mode q p msg out rest left h = ground arith

body-shrinks :
    (mode : Mode) (m : ℕ) (q p : Bool) (n prefix : ℕ) (input out left : List ℕ)
    → read_body mode m q n prefix input ≡ packet p out left
    → length left < length input
unfolding read_body
body-shrinks mode m q p n prefix input out left h = elim (Bool-cases (bad_length mode m n)) [
  | inl bad ↦ absurd (let f : fail_connection ≡ packet p out left = rw bad at h in cc)
  | inr good ↦ elim (Bool-cases (ltb (length input) (n + prefix))) [
    | inl short ↦
        absurd (
          let f : need (n + prefix - length input) ≡ packet p out left = rw (good, short) at h in
          cc)
    | inr long ↦
        let f : deliver mode q (take n (drop prefix input)) (drop n (drop prefix input))
            ≡ packet p out left =
          rw (good, long) at h in
        let e : left ≡ drop n (drop prefix input) =
          deliver-rest mode q p (take n (drop prefix input)) out (drop n (drop prefix input)) left
            f in
        let there : 0 < n = good-positive mode m n good in
        rw e (ground (arith, length-drop n (drop prefix input), length-drop prefix input))
  ]
]

length-shrinks :
    (mode : Mode) (m : ℕ) (p : Bool) (input out left : List ℕ) (o : Option (Bool × ℕ × ℕ))
    → read_length mode m input o ≡ packet p out left
    → length left < length input
length-shrinks mode m p input out left none h = cc
length-shrinks mode m p input out left (some (q, n, prefix)) h =
    body-shrinks mode m q p n prefix input out left h

-- A delivered packet takes at least a byte of the input.
read-shrinks :
    (mode : Mode) (m : ℕ) (p : Bool) (input out left : List ℕ)
    → read_packet mode m input ≡ packet p out left
    → length left < length input
read-shrinks mode m p input out left h = elim (begin mode m input) [
  | nothing z ↦ absurd (let f : idle ≡ packet p out left = rw (read-none mode m input z) at h in cc)
  | few there short ↦ absurd (
      let f : need (min_len mode + 8 - length input) ≡ packet p out left =
        rw (read-few mode m input there short) at h in
      cc)
  | looked w enough look ↦
      length-shrinks mode m p input out left (packet_length mode w)
        (sym (read-lookup mode m w input enough look) ∙ h)
]

map-some {ℓ κ} :
    {A : Type ℓ} {B : Type κ} (f : A → B) (o : Option A)
    → ((a : A) × (o ≡ some a))
    → (b : B) × (Option.map f o ≡ some b)
map-some f o (a, e) = (f a, ap (Option.map f) e)

-- With fuel for more than the bytes of the input the loop ends.
pub read_loop-ends :
    (fuel : ℕ) (mode : Mode) (m : ℕ) (input : List ℕ)
    → length input < fuel
    → (run : Run) × (read_loop fuel mode m input ≡ some run)
unfolding read_loop
read_loop-ends zero mode m input h = absurd (omega arith)
read_loop-ends (suc fuel) mode m input h =
    go (λ rest less. read_loop-ends fuel mode m rest less) (read_packet mode m input) refl
  where
    go :
        ((rest : List ℕ)
          → length rest < fuel
          → (run : Run) × (read_loop fuel mode m rest ≡ some run))
        → (r : Read) → read_packet mode m input ≡ r
        → (run : Run) × (read_loop (suc fuel) mode m input ≡ some run)
    go again idle e = (([], idle, input), rw (e, read_loop) refl)
    go again (need n) e = (([], need n, input), rw (e, read_loop) refl)
    go again fail_connection e = (([], fail_connection, input), rw (e, read_loop) refl)
    go again read_aborted e = (([], read_aborted, input), rw (e, read_loop) refl)
    go again (packet q msg rest) e =
        let less : length rest < fuel = omega (arith, read-shrinks mode m q input msg rest e) in
        rw (e, read_loop)
          (map-some (delivered q msg) (read_loop fuel mode m rest) (again rest less))

-- The packets of a stream as they are sent, each with its two random numbers.
unfoldable pub send_all : Mode → List (ℕ × ℕ × List ℕ) → Option (List ℕ)
send_all mode [] = some []
send_all mode ((x, y, raw) ∷ messages) = elim (write_packet_compact false mode x y raw) [
  | sent out ↦ Option.map (λ more. out ++ more) (send_all mode messages)
  | full left ↦ none
  | write_aborted ↦ none
]

-- The run that delivers the messages first.
abbrev pub delivered_all : List (ℕ × ℕ × List ℕ) → Run → Run
delivered_all [] run = run
delivered_all ((x, y, raw) ∷ messages) run = delivered false raw (delivered_all messages run)

abbrev pub AreMessages : Mode → ℕ → List (ℕ × ℕ × List ℕ) → Type 0
AreMessages mode m messages = All (λ message. IsMessage mode m message.2) messages

map-id : (o : Option Run) → o ≡ Option.map (delivered_all []) o
map-id none = refl
map-id (some run) = refl

map-map :
    (raw : List ℕ) (messages : List (ℕ × ℕ × List ℕ)) (o : Option Run) (x y : ℕ)
    → Option.map (delivered false raw) (Option.map (delivered_all messages) o)
      ≡ Option.map (delivered_all ((x, y, raw) ∷ messages)) o
map-map raw messages none x y = refl
map-map raw messages (some run) x y = refl

loop-packet :
    (k : ℕ) (mode : Mode) (m : ℕ) (q : Bool) (input msg rest : List ℕ)
    → read_packet mode m input ≡ packet q msg rest
    → read_loop (suc k) mode m input ≡ Option.map (delivered q msg) (read_loop k mode m rest)
unfolding read_loop
loop-packet k mode m q input msg rest e = rw (e, read_loop) refl

send-cons :
    (mode : Mode) (x y : ℕ) (raw out more : List ℕ) (messages : List (ℕ × ℕ × List ℕ))
    → write_packet_compact false mode x y raw ≡ sent out
    → send_all mode messages ≡ some more
    → send_all mode ((x, y, raw) ∷ messages) ≡ some (out ++ more)
unfolding send_all
send-cons mode x y raw out more messages e f = rw (e, f, send_all) refl

-- A stream of messages of whole words, of at least 4 and fewer than 2^26 - 3 bytes each and by 3 bytes
-- within the limit on packets if there is one, is written without a failed assertion, and the reader's
-- loop delivers exactly these messages in order, unpadded, then goes on with what follows them, of
-- which at least 8 bytes more than the shortest prefix are there.
pub send_all-read_loop :
    (mode : Mode) (m fuel : ℕ) (messages : List (ℕ × ℕ × List ℕ)) (tail : List ℕ)
    → AreMessages mode m messages
    → min_len mode + 8 ≤ length tail
    → (out : List ℕ) × (send_all mode messages ≡ some out)
      × (read_loop (length messages + fuel) mode m (out ++ tail)
          ≡ Option.map (delivered_all messages) (read_loop fuel mode m tail))
unfolding send_all
send_all-read_loop mode m fuel [] tail v enough =
    let z : 0 + fuel ≡ fuel = omega arith in
    ([], refl, ap (λ k. read_loop k mode m tail) z ∙ map-id (read_loop fuel mode m tail))
send_all-read_loop mode m fuel ((x, y, raw) ∷ messages) tail v enough =
    let (out, written, reads) = write-read mode m x y raw v.0 in
    let (more, all_written, all_read) = send_all-read_loop mode m fuel messages tail v.1 enough in
    let n = length messages + fuel in
    let one_more : suc (length messages) + fuel ≡ suc n = omega arith in
    let enough' : min_len mode + 8 ≤ length (out ++ (more ++ tail)) =
      omega (arith, enough, length-append out (more ++ tail), length-append more tail) in
    (
      out ++ more,
      send-cons mode x y raw out more messages written all_written,
      ap₂ (λ k input. read_loop k mode m input) one_more (append_assoc out more tail)
          ∙ loop-packet n mode m false (out ++ (more ++ tail)) raw (more ++ tail)
              (reads (more ++ tail) enough')
          ∙ ap (Option.map (delivered false raw)) all_read
          ∙ map-map raw messages (read_loop fuel mode m tail) x y,
    )
