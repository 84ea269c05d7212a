-- ===== src/Tls/Hello.antt =====
-- The answers of servers: check_response, which learns the shape of a domain's answer, and the
-- emulated ServerHello of tcp_rpcs_compact_parse_execute, of net/net-tcp-rpc-ext-server.c.
pub mod Accepts
pub mod Bounds
use mtprotor.Base.{
  ℕ, zero, suc, ◌+◌, ◌-◌, ◌*◌, ◌/◌, ◌%◌, Bool, true, false, not, ◌&&◌, ◌||◌, Option, none, some,
  List, [], ◌∷◌, ◌++◌, ltb, leb, ◌==◌, if◌then◌else◌, get_elem?, length, take, drop, same_bytes,
  replicate,
}
use mtprotor.Tls.Sni.{length_at}

-- What the check makes of an answer: refused, accepted with the order of the extensions and the size
-- of the encrypted data, a read past the end of the buffer, or no fuel left.
pub data Checked : Type 0 where
  refused : Checked
  accepted : Bool → ℕ → Checked
  overrun : Checked
  no_fuel : Checked

-- FAIL under a condition, and CHECK_LENGTH.
abbrev pub fail_if : Bool → Checked → Checked
fail_if b k = if b then refused else k

abbrev pub check_length : ℕ → ℕ → Checked → Checked
check_length end len k = fail_if (ltb len end) k

abbrev pub with_length {ℓ} : {A : Type ℓ} → Option A → (A → Checked) → Checked
with_length none k = overrun
with_length (some v) k = k v

-- memcmp (response + pos, str, length of str) == 0
unfoldable pub equal_at : List ℕ → ℕ → List ℕ → Option Bool
equal_at response pos str =
    if ltb (length response) (pos + length str)
    then none
    else some (same_bytes (take (length str) (drop pos response)) str)

-- EXPECT_STR
abbrev pub expect : List ℕ → ℕ → List ℕ → Checked → Checked
expect response pos str k = with_length (equal_at response pos str) (λ same. fail_if (not same) k)

abbrev pub hello_retry_request : List ℕ
hello_retry_request =
    0xcf ∷ 0x21 ∷ 0xad ∷ 0x74 ∷ 0xe5 ∷ 0x9a ∷ 0x61 ∷ 0x11 ∷ 0xbe ∷ 0x1d ∷ 0x8c ∷ 0x02 ∷ 0x1e ∷ 0x65
    ∷ 0xb8 ∷ 0x91 ∷ 0xc2 ∷ 0xa2 ∷ 0x11 ∷ 0x16 ∷ 0x7a ∷ 0xbb ∷ 0x8c ∷ 0x5e ∷ 0x07 ∷ 0x9e ∷ 0x09
    ∷ 0xe2 ∷ 0xc8 ∷ 0xa8 ∷ 0x33 ∷ 0x9c ∷ []

-- From the dummy ChangeCipherSpec at `pos` on.
unfoldable pub check_tail : List ℕ → ℕ → Bool → ℕ → Checked
check_tail response len reversed pos = check_length (pos + 9) len (
    expect response pos (0x14 ∷ 0x03 ∷ 0x03 ∷ 0x00 ∷ 0x01 ∷ 0x01 ∷ []) (
      expect response (pos + 6) (0x17 ∷ 0x03 ∷ 0x03 ∷ []) (
        check_length (pos + 9 + 2) len (
          with_length (length_at response (pos + 9)) (λ size. fail_if (size == 0) (
            check_length (pos + 11 + size) len
              (fail_if (not (pos + 11 + size == len)) (accepted reversed size))))))))

-- The end of the loop over the extensions, with the sum of their numbers.
unfoldable pub check_sum : List ℕ → ℕ → ℕ → ℕ → Bool → ℕ → Checked
check_sum response len hello_length sum reversed pos =
    fail_if (not (sum == 0x33 + 0x2b))
      (fail_if (not (pos == 5 + hello_length)) (check_tail response len reversed pos))

unfoldable pub check_extensions : ℕ → List ℕ → ℕ → ℕ → ℕ → Bool → ℕ → Checked
check_extensions zero response len hello_length sum reversed pos = no_fuel
check_extensions (suc fuel) response len hello_length sum reversed pos =
    elim (ltb pos (5 + hello_length - 4)) [
      | false ↦ check_sum response len hello_length sum reversed pos
      | true ↦ with_length (length_at response pos) (λ id.
          fail_if (not (id == 0x33) && not (id == 0x2b)) (
            with_length (length_at response (pos + 2)) (λ n.
              fail_if (ltb (5 + hello_length) (pos + 4 + n)) (
                fail_if (not (n == (if id == 0x33 then 36 else 2))) (
                  check_extensions fuel response len hello_length (sum + id)
                    (if pos + 2 == 83 then id == 0x2b else reversed) (pos + 4 + n))))))
    ]

-- Each extension takes at least 6 bytes.
unfoldable pub check_response : List ℕ → ℕ → List ℕ → Checked
check_response response len session_id = check_length 3 len (
    expect response 0 (0x16 ∷ 0x03 ∷ 0x03 ∷ []) (
      check_length 5 len (
        with_length (length_at response 3) (λ hello_length. fail_if (leb hello_length 39) (
          check_length (5 + hello_length) len (
            expect response 5 (0x02 ∷ 0x00 ∷ []) (
              expect response 9 (0x03 ∷ 0x03 ∷ []) (
                with_length (equal_at response 11 hello_retry_request) (λ retry. fail_if retry (
                  with_length (get_elem? response 43) (λ id_length. fail_if (id_length == 0) (
                    fail_if (not (id_length == 0x20)) (
                      fail_if (leb hello_length 75) (
                        expect response 44 session_id (
                          expect response 76 (0x13 ∷ 0x01 ∷ 0x00 ∷ []) (
                            with_length (length_at response 79) (λ extensions_length.
                              fail_if (not (extensions_length + 76 == hello_length)) (
                                check_extensions len response len hello_length 0 false
                                  81))))))))))))))))))

-- The emulated answer, with its random, the session id and the cipher suite of the hello, the order
-- of the extensions, a public key of 32 bytes and the encrypted data.
unfoldable pub key_share : List ℕ → List ℕ
key_share public_key = 0x00 ∷ 0x33 ∷ 0x00 ∷ 0x24 ∷ 0x00 ∷ 0x1d ∷ 0x00 ∷ 0x20 ∷ public_key

abbrev pub supported_versions : List ℕ
supported_versions = 0x00 ∷ 0x2b ∷ 0x00 ∷ 0x02 ∷ 0x03 ∷ 0x04 ∷ []

unfoldable pub server_hello : List ℕ → List ℕ → ℕ → Bool → List ℕ → List ℕ → List ℕ
server_hello random session_id cipher_suite_id reversed public_key encrypted =
    0x16
    ∷ 0x03
    ∷ 0x03
    ∷ 0x00
    ∷ 0x7a
    ∷ 0x02
    ∷ 0x00
    ∷ 0x00
    ∷ 0x76
    ∷ 0x03
    ∷ 0x03
    ∷ (random
        ++ (0x20
            ∷ (session_id
                ++ (0x13
                    ∷ cipher_suite_id
                    ∷ 0x00
                    ∷ 0x00
                    ∷ 0x2e
                    ∷ ((if reversed
                          then supported_versions ++ key_share public_key
                          else key_share public_key ++ supported_versions)
                        ++ (0x14
                            ∷ 0x03
                            ∷ 0x03
                            ∷ 0x00
                            ∷ 0x01
                            ∷ 0x01
                            ∷ 0x17
                            ∷ 0x03
                            ∷ 0x03
                            ∷ length encrypted / 256
                            ∷ length encrypted % 256
                            ∷ encrypted))))))
