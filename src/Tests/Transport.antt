-- ===== src/Tests/Transport.antt =====
-- The compact and medium transports at concrete inputs.
use mtprotor.Base.{
  ℕ, ◌+◌, ◌-◌, ◌≤◌, ◌<◌, ◌≡◌, ◌↔◌, refl, true, false, some, inl, List, [], ◌∷◌, ◌++◌, arith, length,
  replicate,
}
use mathlib.Core.Option
use mtprotor.Transport.Frame.{
  Mode, write_packet_compact, read_packet, lookup32, packet_length, read_body, bad_length, deliver,
  need, packet, read_aborted, sent, min_len,
}
use mtprotor.Transport.Roundtrip.{IsMessage, write-read}
use mtprotor.Transport.Prefix.{settled, grow, read-grow, read-need}
use mtprotor.Transport.Assert.{TooShort, declared_length, read-aborted_iff}
use mtprotor.Transport.Stream.{
  Run, read_loop, read_loop-ends, delivered_all, send_all, send_all-read_loop,
}

abbrev padded : Mode
padded = record { compact = false; medium = true; pad = true }

abbrev compact : Mode
compact = record { compact = true; medium = false; pad = false }

abbrev ping : List ℕ
ping = replicate 8 7

ping-IsMessage : IsMessage padded 0 ping
ping-IsMessage = record {
  transport = refl;
  pad_is_medium = λ h. absurd (ground arith);
  has_type = omega arith;
  whole = refl;
  small = omega arith;
  allowed = inl refl;
}

write-read_example :
    (out : List ℕ) × (write_packet_compact false padded 0x0a0b0c0d 6 ping ≡ sent out)
    × ((rest : List ℕ)
        → min_len padded + 8 ≤ length (out ++ rest)
        → read_packet padded 0 (out ++ rest) ≡ packet false ping rest)
write-read_example = write-read padded 0 0x0a0b0c0d 6 ping ping-IsMessage

send_all-read_loop_example :
    (out : List ℕ) × (send_all padded ((1, 3, ping) ∷ (2, 0, ping) ∷ []) ≡ some out)
    × (read_loop (2 + 5) padded 0 (out ++ replicate 12 0)
        ≡ Option.map
            (delivered_all ((1, 3, ping) ∷ (2, 0, ping) ∷ []))
            (read_loop 5 padded 0 (replicate 12 0)))
send_all-read_loop_example =
    send_all-read_loop padded 0 5 ((1, 3, ping) ∷ (2, 0, ping) ∷ []) (replicate 12 0)
      (ping-IsMessage, (ping-IsMessage, tt)) (omega arith)

-- Two words in the compact transport, and the first bytes of the next packet.
abbrev two_words : List ℕ
two_words = 2 ∷ replicate 8 9

two_words-settled : settled (read_packet compact 0 two_words) ≡ true
unfolding read_packet lookup32 packet_length read_body bad_length deliver
two_words-settled = refl

read-grow_example :
    read_packet compact 0 (two_words ++ (5 ∷ [])) ≡ grow (5 ∷ []) (read_packet compact 0 two_words)
read-grow_example = read-grow compact 0 two_words (5 ∷ []) two_words-settled

-- A packet of one word takes 5 bytes, and the reader wants 9.
one_word : read_packet compact 0 (1 ∷ replicate 4 9) ≡ need 4
unfolding read_packet
one_word = refl

abbrev next_byte : List ℕ
next_byte = 8 ∷ []

read-need_example :
    (0 < 4)
    × (length next_byte < 4
        → read_packet compact 0 ((1 ∷ replicate 4 9) ++ next_byte) ≡ need (4 - length next_byte))
read-need_example = read-need compact 0 4 (1 ∷ replicate 4 9) next_byte one_word

-- A packet of 3 bytes, all of them padding.
abbrev three_bytes : List ℕ
three_bytes = 3 ∷ 0 ∷ 0 ∷ 0 ∷ replicate 8 1

read-aborted_iff_example :
    (read_packet padded 0 three_bytes ≡ read_aborted)
    ↔ ((n : ℕ) × (declared_length padded three_bytes ≡ some n) × TooShort padded n)
read-aborted_iff_example = read-aborted_iff padded 0 three_bytes (inl refl) (omega arith)

three_bytes_abort : read_packet padded 0 three_bytes ≡ read_aborted
unfolding lookup32 packet_length
three_bytes_abort = read-aborted_iff_example.1 (3, refl, (refl, omega arith, omega arith))

read_loop-ends_example : (run : Run) × (read_loop 20 compact 0 two_words ≡ some run)
read_loop-ends_example = read_loop-ends 20 compact 0 two_words (omega arith)
