-- ===== src/Tls/Hello/Accepts.antt =====
-- The emulated answer passes the proxy's own check of answers.
use mtprotor.Base.{
  ℕ, suc, ◌+◌, ◌-◌, ◌≤◌, ◌<◌, ◌≡◌, refl, ap, ◌∙◌, Bool, true, false, not, ◌&&◌, some, List, [], ◌∷◌,
  ◌++◌, ltb, ◌==◌, if◌then◌else◌, length, take, drop, same_bytes, same_bytes_refl, length-append,
  append_assoc, arith,
}
use mtprotor.Tls.Sni.Layout.{At, At-skip, At-elem, At-length_at, At-size, At-slice, bytes16}
use mtprotor.Tls.Hello.{
  accepted, equal_at, check_tail, check_sum, check_extensions, check_response, hello_retry_request,
  key_share, supported_versions, server_hello,
}

At-equal :
    (response : List ℕ) (pos : ℕ) (str xs tail : List ℕ)
    → At response pos (xs ++ tail)
    → length str ≡ length xs
    → equal_at response pos str ≡ some (same_bytes xs str)
unfolding equal_at
At-equal response pos str xs tail a e =
    let room : ltb (length response) (pos + length str) ≡ false =
      ground (arith, At-size response pos (xs ++ tail) a, length-append xs tail) in
    let slice : take (length str) (drop pos response) ≡ xs =
      rw e (At-slice response pos xs tail a) in
    rw (room, slice) refl

At-same :
    (response : List ℕ) (pos : ℕ) (str tail : List ℕ)
    → At response pos (str ++ tail)
    → equal_at response pos str ≡ some true
At-same response pos str tail a =
    At-equal response pos str str tail a refl ∙ ap some (same_bytes_refl str)

abbrev tail_bytes : List ℕ → List ℕ
tail_bytes encrypted =
    0x14
    ∷ 0x03
    ∷ 0x03
    ∷ 0x00
    ∷ 0x01
    ∷ 0x01
    ∷ 0x17
    ∷ 0x03
    ∷ 0x03
    ∷ (bytes16 (length encrypted) ++ encrypted)

tail-accepted :
    (response encrypted : List ℕ) (len pos : ℕ) (reversed : Bool)
    → At response pos (tail_bytes encrypted)
    → len ≡ length response
    → 0 < length encrypted
    → check_tail response len reversed pos ≡ accepted reversed (length encrypted)
unfolding check_tail
tail-accepted response encrypted len pos reversed a e there =
    let spec : List ℕ = 0x14 ∷ 0x03 ∷ 0x03 ∷ 0x00 ∷ 0x01 ∷ 0x01 ∷ [] in
    let data_type : List ℕ = 0x17 ∷ 0x03 ∷ 0x03 ∷ [] in
    let n = length encrypted in
    let rest = bytes16 n ++ encrypted in
    let total = At-size response pos (tail_bytes encrypted) a in
    let one = At-same response pos spec (data_type ++ rest) a in
    let a6 = At-skip response pos (pos + 6) spec (data_type ++ rest) a refl in
    let two = At-same response (pos + 6) data_type rest a6 in
    let a9 = At-skip response (pos + 6) (pos + 9) data_type rest a6 (omega arith) in
    let size = At-length_at response (pos + 9) n encrypted a9 in
    let r1 : ltb len (pos + 9) ≡ false = ground (arith, total) in
    let r2 : ltb len (pos + 9 + 2) ≡ false = ground (arith, total) in
    let r3 : (n == 0) ≡ false = ground arith in
    let r4 : ltb len (pos + 11 + n) ≡ false = ground (arith, total) in
    let r5 : (pos + 11 + n == len) ≡ true = ground (arith, total) in
    rw (r1, one, two, r2, size, r3, r4, r5) refl

-- One turn of the loop over the extensions.
extension-turn :
    (fuel : ℕ) (response : List ℕ) (len hello_length sum pos id n : ℕ) (reversed : Bool)
    (body tail : List ℕ)
    → At response pos (bytes16 id ++ (bytes16 n ++ (body ++ tail)))
    → length body ≡ n
    → pos + 4 + n ≤ 5 + hello_length
    → 0 < n
    → (not (id == 0x33) && not (id == 0x2b)) ≡ false
    → (n == (if id == 0x33 then 36 else 2)) ≡ true
    → (check_extensions (suc fuel) response len hello_length sum reversed pos
        ≡ check_extensions fuel response len hello_length
            (sum + id)
            (if pos + 2 == 83 then id == 0x2b else reversed)
            (pos + 4 + n))
      × At response (pos + 4 + n) tail
unfolding check_extensions
extension-turn fuel response len hello_length sum pos id n reversed body tail a measured inside
      there known size =
    let number = At-length_at response pos id (bytes16 n ++ (body ++ tail)) a in
    let a2 = At-skip response pos (pos + 2) (bytes16 id) (bytes16 n ++ (body ++ tail)) a refl in
    let length_n = At-length_at response (pos + 2) n (body ++ tail) a2 in
    let a4 = At-skip response (pos + 2) (pos + 4) (bytes16 n) (body ++ tail) a2 (omega arith) in
    let more : ltb pos (5 + hello_length - 4) ≡ true = ground arith in
    let fits : ltb (5 + hello_length) (pos + 4 + n) ≡ false = ground arith in
    (
      rw (more, number, known, length_n, fits, size, check_extensions) refl,
      At-skip response (pos + 4) (pos + 4 + n) body tail a4 (omega (arith, measured)),
    )

abbrev key_body : List ℕ → List ℕ
key_body public_key = 0x00 ∷ 0x1d ∷ 0x00 ∷ 0x20 ∷ public_key

extensions_end :
    (fuel : ℕ) (response encrypted : List ℕ) (len : ℕ) (reversed : Bool)
    → At response 127 (tail_bytes encrypted)
    → len ≡ length response
    → 0 < length encrypted
    → check_extensions (suc fuel) response len 122 94 reversed 127
      ≡ accepted reversed (length encrypted)
unfolding check_extensions check_sum
extensions_end fuel response encrypted len reversed a e there =
    tail-accepted response encrypted len 127 reversed a e there

-- Both orders of the two extensions are accepted, and told apart.
extensions-accepted :
    (reversed : Bool) (fuel : ℕ) (response key encrypted : List ℕ) (len : ℕ)
    → At response 81 (
        (if reversed
          then supported_versions ++ key_share key
          else key_share key ++ supported_versions)
        ++ tail_bytes encrypted)
    → length key ≡ 32
    → len ≡ length response
    → 0 < length encrypted
    → check_extensions (suc (suc (suc fuel))) response len 122 0 false 81
      ≡ accepted reversed (length encrypted)
unfolding key_share
extensions-accepted true fuel response key encrypted len a k e there =
    let (one, a1) =
      extension-turn (suc (suc fuel)) response len 122 0 81 0x2b 2 false (0x03 ∷ 0x04 ∷ [])
        (key_share key ++ tail_bytes encrypted) a refl (omega arith) (omega arith) refl refl in
    let (two, a2) =
      extension-turn (suc fuel) response len 122 0x2b 87 0x33 36 true (key_body key)
        (tail_bytes encrypted) a1 (omega (arith, k)) (omega arith) (omega arith) refl refl in
    one ∙ two ∙ extensions_end fuel response encrypted len true a2 e there
extensions-accepted false fuel response key encrypted len a k e there =
    let (one, a1) =
      extension-turn (suc (suc fuel)) response len 122 0 81 0x33 36 false (key_body key)
        (supported_versions ++ tail_bytes encrypted)
        (rw (append_assoc key supported_versions (tail_bytes encrypted)) at a) (omega (arith, k))
        (omega arith) (omega arith) refl refl in
    let (two, a2) =
      extension-turn (suc fuel) response len 122 0x33 121 0x2b 2 false (0x03 ∷ 0x04 ∷ [])
        (tail_bytes encrypted) a1 refl (omega arith) (omega arith) refl refl in
    one ∙ two ∙ extensions_end fuel response encrypted len false a2 e there

extensions_of : Bool → List ℕ → List ℕ
extensions_of reversed key =
    if reversed then supported_versions ++ key_share key else key_share key ++ supported_versions

length-extensions :
    (reversed : Bool) (key : List ℕ) → length key ≡ 32 → length (extensions_of reversed key) ≡ 46
unfolding extensions_of key_share
length-extensions true key k = omega (arith, k)
length-extensions false key k = omega (arith, k, length-append key supported_versions)

-- The loop with the fuel that it is given.
enough_fuel :
    (reversed : Bool) (response key encrypted : List ℕ)
    → At response 81 (extensions_of reversed key ++ tail_bytes encrypted)
    → length key ≡ 32
    → 127 ≤ length response
    → 0 < length encrypted
    → check_extensions (length response) response (length response) 122 0 false 81
      ≡ accepted reversed (length encrypted)
unfolding extensions_of
enough_fuel reversed response key encrypted a k big there =
    let fuel = length response - 3 in
    let e : length response ≡ suc (suc (suc fuel)) = omega (arith, big) in
    ap (λ f. check_extensions f response (length response) 122 0 false 81) e
    ∙ extensions-accepted reversed fuel response key encrypted (length response) a k refl there

answer-accepted :
    (response random session_id key encrypted : List ℕ) (reversed : Bool)
    → At response 0 (server_hello random session_id 0x01 reversed key encrypted)
    → length random ≡ 32
    → same_bytes random hello_retry_request ≡ false
    → length session_id ≡ 32
    → length key ≡ 32
    → 0 < length encrypted
    → check_response response (length response) session_id ≡ accepted reversed (length encrypted)
unfolding check_response server_hello extensions_of
answer-accepted response random session_id key encrypted reversed a0 r32 no_retry s32 k32 there =
    let t81 = extensions_of reversed key ++ tail_bytes encrypted in
    let t76 : List ℕ = 0x13 ∷ 0x01 ∷ 0x00 ∷ 0x00 ∷ 0x2e ∷ t81 in
    let t43 : List ℕ = 0x20 ∷ (session_id ++ t76) in
    let t11 = random ++ t43 in
    let t9 : List ℕ = 0x03 ∷ 0x03 ∷ t11 in
    let t5 : List ℕ = 0x02 ∷ 0x00 ∷ 0x00 ∷ 0x76 ∷ t9 in
    let t3 : List ℕ = 0x00 ∷ 0x7a ∷ t5 in
    let e0 = At-same response 0 (0x16 ∷ 0x03 ∷ 0x03 ∷ []) t3 a0 in
    let a3 = At-skip response 0 3 (0x16 ∷ 0x03 ∷ 0x03 ∷ []) t3 a0 refl in
    let l3 = At-length_at response 3 122 t5 a3 in
    let a5 = At-skip response 3 5 (0x00 ∷ 0x7a ∷ []) t5 a3 refl in
    let e5 = At-same response 5 (0x02 ∷ 0x00 ∷ []) (0x00 ∷ 0x76 ∷ t9) a5 in
    let a9 = At-skip response 5 9 (0x02 ∷ 0x00 ∷ 0x00 ∷ 0x76 ∷ []) t9 a5 refl in
    let e9 = At-same response 9 (0x03 ∷ 0x03 ∷ []) t11 a9 in
    let a11 = At-skip response 9 11 (0x03 ∷ 0x03 ∷ []) t11 a9 refl in
    let retry = At-equal response 11 hello_retry_request random t43 a11 (omega (arith, r32)) in
    let a43 = At-skip response 11 43 random t43 a11 (omega (arith, r32)) in
    let b43 = At-elem response 43 0x20 (session_id ++ t76) a43 in
    let a44 = At-skip response 43 44 (0x20 ∷ []) (session_id ++ t76) a43 refl in
    let e44 = At-same response 44 session_id t76 a44 in
    let a76 = At-skip response 44 76 session_id t76 a44 (omega (arith, s32)) in
    let e76 = At-same response 76 (0x13 ∷ 0x01 ∷ 0x00 ∷ []) (0x00 ∷ 0x2e ∷ t81) a76 in
    let a79 = At-skip response 76 79 (0x13 ∷ 0x01 ∷ 0x00 ∷ []) (0x00 ∷ 0x2e ∷ t81) a76 refl in
    let l79 = At-length_at response 79 46 t81 a79 in
    let a81 = At-skip response 79 81 (0x00 ∷ 0x2e ∷ []) t81 a79 refl in
    let big : 127 ≤ length response = omega (
      arith,
      At-size response 81 t81 a81,
      length-append (extensions_of reversed key) (tail_bytes encrypted),
      length-extensions reversed key k32,
    ) in
    let r3 : ltb (length response) 3 ≡ false = ground (arith, big) in
    let r5 : ltb (length response) 5 ≡ false = ground (arith, big) in
    let r127 : ltb (length response) 127 ≡ false = ground (arith, big) in
    rw (r3, e0, r5, l3, r127, e5, e9, retry, no_retry, b43, e44, e76, l79)
      (enough_fuel reversed response key encrypted a81 k32 big there)

-- The answer that the proxy emulates for the cipher suite 0x1301, with a random and a session id of 32
-- bytes, of which the random is not that of a HelloRetryRequest, a public key of 32 bytes and some
-- encrypted data, passes the check that the proxy makes of the answers of servers, which learns from it
-- the order of the extensions and the size of the encrypted data.
pub server_hello-accepted :
    (random session_id key encrypted : List ℕ) (reversed : Bool)
    → length random ≡ 32
    → same_bytes random hello_retry_request ≡ false
    → length session_id ≡ 32
    → length key ≡ 32
    → 0 < length encrypted
    → let answer = server_hello random session_id 0x01 reversed key encrypted in
      check_response answer (length answer) session_id ≡ accepted reversed (length encrypted)
server_hello-accepted random session_id key encrypted reversed r32 no_retry s32 k32 there =
    answer-accepted (server_hello random session_id 0x01 reversed key encrypted) random session_id
      key encrypted reversed (record { before = []; whole = refl; place = refl }) r32 no_retry s32
      k32 there
