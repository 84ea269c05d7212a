-- ===== src/Tls/Hello/Bounds.antt =====
-- The check of an answer reads within the buffer and ends, whatever the server sent.
use mtprotor.Base.{
  ℕ, zero, suc, ◌+◌, ◌-◌, ◌≤◌, ◌<◌, ◌≡◌, refl, Bool, true, false, not, ◌&&◌, Option, some, List,
  ltb, leb, ◌==◌, length, take, drop, same_bytes, get_elem?-some, arith, Bool-cases, inl, inr,
  if◌then◌else◌,
}
use mtprotor.Tls.Sni.Bounds.{length_at-some}
use mtprotor.Tls.Hello.{
  Checked, refused, accepted, overrun, no_fuel, fail_if, check_length, with_length, equal_at,
  expect, check_tail, check_sum, check_extensions, check_response, hello_retry_request,
}

-- The check came to an end within the buffer.
abbrev pub ended : Checked → Bool
ended refused = true
ended (accepted reversed size) = true
ended overrun = false
ended no_fuel = false

fail_if-ended : (b : Bool) (k : Checked) → (b ≡ false → ended k ≡ true) → ended (fail_if b k) ≡ true
fail_if-ended true k h = refl
fail_if-ended false k h = h refl

check_length-ended :
    (end len : ℕ) (k : Checked)
    → (end ≤ len → ended k ≡ true)
    → ended (check_length end len k) ≡ true
check_length-ended end len k h = ground (arith, h)

with_length-ended {ℓ} :
    {A : Type ℓ} (o : Option A) (k : A → Checked)
    → ((a : A) × (o ≡ some a))
    → ((a : A) → ended (k a) ≡ true)
    → ended (with_length o k) ≡ true
with_length-ended o k (a, e) h = rw e (h a)

equal_at-some :
    (xs : List ℕ) (pos : ℕ) (str : List ℕ)
    → pos + length str ≤ length xs
    → (b : Bool) × (equal_at xs pos str ≡ some b)
unfolding equal_at
equal_at-some xs pos str h =
    let room : ltb (length xs) (pos + length str) ≡ false = ground arith in
    (same_bytes (take (length str) (drop pos xs)) str, rw (room, equal_at) refl)

expect-ended :
    (xs : List ℕ) (pos : ℕ) (str : List ℕ) (k : Checked)
    → pos + length str ≤ length xs
    → ended k ≡ true
    → ended (expect xs pos str k) ≡ true
expect-ended xs pos str k fits h =
    with_length-ended _ _ (equal_at-some xs pos str fits)
      (λ same. fail_if-ended (not same) k (λ e. h))

tail-ended :
    (xs : List ℕ) (len pos : ℕ) (reversed : Bool)
    → len ≤ length xs
    → ended (check_tail xs len reversed pos) ≡ true
unfolding check_tail
tail-ended xs len pos reversed fits = check_length-ended (pos + 9) len _ (λ nine.
    expect-ended xs pos _ _ (omega arith) (
      expect-ended xs (pos + 6) _ _ (omega arith) (
        check_length-ended (pos + 9 + 2) len _ (λ two.
          with_length-ended _ _ (length_at-some xs (pos + 9) (omega arith)) (λ size.
            fail_if-ended (size == 0) _ (λ some_data.
              check_length-ended (pos + 11 + size) len _
                (λ all. fail_if-ended (not (pos + 11 + size == len)) _ (λ exact. refl))))))))

extensions-ended :
    (fuel : ℕ) (xs : List ℕ) (len hello sum pos : ℕ) (reversed : Bool)
    → len ≤ length xs
    → 5 + hello ≤ len
    → pos ≤ 5 + hello
    → len < pos + fuel
    → ended (check_extensions fuel xs len hello sum reversed pos) ≡ true
unfolding check_extensions check_sum
extensions-ended zero xs len hello sum pos reversed fits inside here enough = absurd (omega arith)
extensions-ended (suc fuel) xs len hello sum pos reversed fits inside here enough =
    elim (Bool-cases (ltb pos (5 + hello - 4))) [
      | inr out ↦
          rw (out, check_extensions)
            (fail_if-ended (not (sum == 0x33 + 0x2b)) _ (λ both.
              fail_if-ended (not (pos == 5 + hello)) _
                (λ at_end. tail-ended xs len pos reversed fits)))
      | inl more ↦
          let four : pos + 4 < 5 + hello = ground arith in
          rw (more, check_extensions)
            (with_length-ended _ _ (length_at-some xs pos (omega arith)) (λ id.
              fail_if-ended (not (id == 0x33) && not (id == 0x2b)) _ (λ known.
                with_length-ended _ _ (length_at-some xs (pos + 2) (omega arith)) (λ n.
                  fail_if-ended (ltb (5 + hello) (pos + 4 + n)) _ (λ room.
                    let next : pos + 4 + n ≤ 5 + hello = ground arith in
                    fail_if-ended (not (n == (if id == 0x33 then 36 else 2))) _ (λ size.
                      extensions-ended fuel xs len hello (sum + id) (pos + 4 + n)
                        (if pos + 2 == 83 then id == 0x2b else reversed) fits inside next
                        (omega arith)))))))
    ]

-- The check of the first `len` bytes of a buffer of at least as many bytes, for a session id of 32
-- bytes, never reads past the end of the buffer, and accepts the answer or refuses it.
pub check_response-ended :
    (response : List ℕ) (len : ℕ) (session_id : List ℕ)
    → len ≤ length response
    → length session_id ≡ 32
    → ended (check_response response len session_id) ≡ true
unfolding check_response
check_response-ended response len session_id fits s32 = check_length-ended 3 len _ (λ three.
    expect-ended response 0 _ _ (omega arith) (
      check_length-ended 5 len _ (λ five.
        with_length-ended _ _ (length_at-some response 3 (omega arith)) (λ hello.
          fail_if-ended (leb hello 39) _ (λ long. check_length-ended (5 + hello) len _ (λ all.
            let big : 45 ≤ length response = ground arith in
            expect-ended response 5 _ _ (omega (arith, big)) (
              expect-ended response 9 _ _ (omega (arith, big)) (
                with_length-ended _ _
                  (equal_at-some response 11 hello_retry_request (omega (arith, big)))
                  (λ retry. fail_if-ended retry _ (λ no_retry.
                    with_length-ended _ _ (get_elem?-some response 43 (omega (arith, big)))
                      (λ id_length. fail_if-ended (id_length == 0) _ (λ some_id.
                        fail_if-ended (not (id_length == 0x20)) _ (λ whole_id.
                          fail_if-ended (leb hello 75) _ (λ longer.
                            let bigger : 81 ≤ 5 + hello = ground arith in
                            expect-ended response 44 session_id _ (omega (arith, s32, bigger, all))
                              (expect-ended response 76 _ _ (omega (arith, bigger, all)) (
                                with_length-ended _ _
                                  (length_at-some response 79 (omega (arith, bigger, all)))
                                  (λ extensions.
                                    fail_if-ended (not (extensions + 76 == hello)) _ (λ same.
                                      extensions-ended len response len hello 0 81 false fits all
                                        bigger (omega arith)))))))))))))))))))
