-- ===== src/Tls/Sni/Finds.antt =====
-- The server name of a well-formed ClientHello is found.
use mtprotor.Base.{
  ℕ, zero, suc, ◌+◌, ◌<◌, ◌≡◌, ◌≢◌, refl, true, false, List, [], ◌∷◌, ◌++◌, ltb, ◌==◌, length,
  length-append, All, arith,
}
use mtprotor.Tls.Sni.{server_name, read_server_name, read_extensions, read_sni, cipher_suites_at}
use mtprotor.Tls.Sni.Layout.{
  At, At-skip, At-elem, At-length_at, At-size, At-slice, At-has_nul, bytes16, Extension, encode_all,
  encode_sni, sni_body,
}

server_name-found :
    (request : List ℕ) (pos : ℕ) (domain tail : List ℕ)
    → At request pos (sni_body domain tail)
    → All (λ c. c ≢ 0) domain
    → read_server_name request (length request) (length domain + 5) pos ≡ server_name domain
unfolding read_server_name
server_name-found request pos domain tail a name =
    let n = length domain in
    let name_at = domain ++ tail in
    let inner = At-length_at request pos (n + 3) (0 ∷ (bytes16 n ++ name_at)) a in
    let a2 = At-skip request pos (pos + 2) (bytes16 (n + 3)) (0 ∷ (bytes16 n ++ name_at)) a refl in
    let kind = At-elem request (pos + 2) 0 (bytes16 n ++ name_at) a2 in
    let a3 = At-skip request (pos + 2) (pos + 3) (0 ∷ []) (bytes16 n ++ name_at) a2 (omega arith) in
    let domain_length = At-length_at request (pos + 3) n name_at a3 in
    let a5 = At-skip request (pos + 3) (pos + 5) (bytes16 n) name_at a3 (omega arith) in
    let nul = At-has_nul request (pos + 5) domain tail a5 name in
    let slice = At-slice request (pos + 5) domain tail a5 in
    let room : ltb (length request) (pos + 5) ≡ false =
      ground (arith, At-size request (pos + 5) name_at a5) in
    let inner_fits : (n + 3 + 2 == n + 5) ≡ true = ground arith in
    let domain_fits : (n + 5 == n + 5) ≡ true = ground arith in
    rw (room, inner, inner_fits, kind, domain_length, domain_fits, nul, slice) refl

extensions-found :
    (xs : List Extension) (fuel : ℕ) (request : List ℕ) (pos : ℕ) (domain tail : List ℕ)
    → At request pos (encode_all xs (encode_sni domain tail))
    → All (λ x. x.id ≢ 0) xs
    → All (λ c. c ≢ 0) domain
    → length request < pos + fuel
    → read_extensions fuel request (length request) pos ≡ server_name domain
unfolding read_extensions
extensions-found xs zero request pos domain tail a ids name enough =
    absurd (omega (arith, At-size request pos (encode_all xs (encode_sni domain tail)) a))
extensions-found [] (suc fuel) request pos domain tail a ids name enough =
    let n = length domain in
    let body = sni_body domain tail in
    let id = At-length_at request pos 0 (bytes16 (n + 5) ++ body) a in
    let a2 = At-skip request pos (pos + 2) (bytes16 0) (bytes16 (n + 5) ++ body) a refl in
    let size = At-length_at request (pos + 2) (n + 5) body a2 in
    let a4 = At-skip request (pos + 2) (pos + 4) (bytes16 (n + 5)) body a2 (omega arith) in
    let total = At-size request (pos + 4) body a4 in
    let room : ltb (length request) (pos + 4) ≡ false = ground (arith, total) in
    let room' : ltb (length request) (pos + 4 + (n + 5)) ≡ false =
      ground (arith, total, length-append domain tail) in
    rw (room, id, size, room') (server_name-found request (pos + 4) domain tail a4 name)
extensions-found (x ∷ xs) (suc fuel) request pos domain tail a ids name enough =
    let n = length x.body in
    let later = encode_all xs (encode_sni domain tail) in
    let id = At-length_at request pos x.id (bytes16 n ++ (x.body ++ later)) a in
    let a2 = At-skip request pos (pos + 2) (bytes16 x.id) (bytes16 n ++ (x.body ++ later)) a refl in
    let size = At-length_at request (pos + 2) n (x.body ++ later) a2 in
    let a4 = At-skip request (pos + 2) (pos + 4) (bytes16 n) (x.body ++ later) a2 (omega arith) in
    let total = At-size request (pos + 4) (x.body ++ later) a4 in
    let room : ltb (length request) (pos + 4) ≡ false = ground (arith, total) in
    let room' : ltb (length request) (pos + 4 + n) ≡ false =
      ground (arith, total, length-append x.body later) in
    let other : (x.id == 0) ≡ false = let ne : x.id ≢ 0 = ids.0 in ground arith in
    let a6 = At-skip request (pos + 4) (pos + 4 + n) x.body later a4 refl in
    rw (room, id, size, room', other)
      (extensions-found xs fuel request (pos + 4 + n) domain tail a6 ids.1 name (omega arith))

-- A request of 76 bytes up to the cipher suites, the cipher suites, 4 bytes of compression methods and
-- the total length, extensions other than the server name, the extension with a server name without
-- NUL, and anything behind it yields this server name.
pub read_sni-finds :
    (start suites gap : List ℕ) (xs : List Extension) (domain tail : List ℕ)
    → length start ≡ cipher_suites_at
    → length gap ≡ 4
    → All (λ x. x.id ≢ 0) xs
    → All (λ c. c ≢ 0) domain
    → let request =
        start
        ++ (bytes16 (length suites)
            ++ (suites ++ (gap ++ encode_all xs (encode_sni domain tail)))) in
      read_sni request (length request) ≡ server_name domain
unfolding read_sni
read_sni-finds start suites gap xs domain tail at76 four ids name =
    let n = length suites in
    let extensions = encode_all xs (encode_sni domain tail) in
    let request = start ++ (bytes16 n ++ (suites ++ (gap ++ extensions))) in
    let a : At request cipher_suites_at (bytes16 n ++ (suites ++ (gap ++ extensions))) = record {
      before = start;
      whole = refl;
      place = at76;
    } in
    let first = At-length_at request cipher_suites_at n (suites ++ (gap ++ extensions)) a in
    let a2 =
      At-skip request cipher_suites_at 78 (bytes16 n) (suites ++ (gap ++ extensions)) a refl in
    let a3 = At-skip request 78 (78 + n) suites (gap ++ extensions) a2 refl in
    let a4 = At-skip request (78 + n) (78 + (n + 4)) gap extensions a3 (omega (arith, four)) in
    let total = At-size request (78 + (n + 4)) extensions a4 in
    let room : ltb (length request) 78 ≡ false = ground (arith, total) in
    let room' : ltb (length request) (78 + (n + 4)) ≡ false = ground (arith, total) in
    rw (room, first, room')
      (extensions-found xs (length request) request (78 + (n + 4)) domain tail a4 ids name
        (omega arith))
