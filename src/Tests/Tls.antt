-- ===== src/Tests/Tls.antt =====
-- The imitation of TLS at concrete inputs.
use mtprotor.Base.{ℕ, ◌+◌, ◌*◌, ◌≡◌, refl, true, false, some, List, ◌∷◌, arith, replicate}
use mtprotor.Base.{length, none, ◌++◌, [], if◌then◌else◌}
use mtprotor.Base.{same_bytes}
use mtprotor.Base.Text.{codes}
use mtprotor.Tls.Hello.{hello_retry_request, server_hello, check_response, accepted}
use mtprotor.Tls.Hello.Bounds.{ended as hello_ended, check_response-ended}
use mtprotor.Tls.Hello.Accepts.{server_hello-accepted}
use mtprotor.Tls.Domain.{get_domain_info, add_all, is_one_of, named, get_domain_info_lem}
use mtprotor.Tls.Sni.{read_sni, server_name}
use mtprotor.Tls.Sni.Bounds.{ended, read_sni-ended}
use mtprotor.Tls.Sni.Layout.{Extension, bytes16, encode_all, encode_sni}
use mtprotor.Tls.Sni.Finds.{read_sni-finds}
use mtprotor.Base.Int.{pos}
use mtprotor.Tls.Random.{
  Cache, empty_cache, pass_hello, have_client_random, chain_has, bucket_of, bucket_loop,
  add_client_random, delete_old_client_randoms, delete_loop, is_allowed_timestamp,
}
use mtprotor.Tls.Random.Chains.{IsSound, empty_cache-IsSound}
use mtprotor.Tls.Random.NoReplay.{here, no_replay}
use mtprotor.Tls.Random.Sound.{Passed, add-IsSound, pass_hello-Passed}

abbrev random : List ℕ
random = 0x12 ∷ replicate 15 0x7f

abbrev start : ℕ
start = 1_700_000_000

-- The first hello at `start`, with a timestamp two seconds before.
pass_hello-Passed_example : Passed start random (some (pos 1_699_999_998)) empty_cache
pass_hello-Passed_example =
    pass_hello-Passed start start random (some (pos 1_699_999_998)) empty_cache (omega arith)
      (empty_cache-IsSound start)

bucket_of_random : bucket_of random ≡ 0x12 * 64 + 0x3f
unfolding bucket_of bucket_loop
bucket_of_random = refl

after : Cache
after = add_client_random start random empty_cache

first_passes : pass_hello start random (some (pos 1_699_999_998)) empty_cache ≡ some (true, after)
unfolding pass_hello have_client_random chain_has add_client_random delete_old_client_randoms
    delete_loop is_allowed_timestamp after
first_passes = refl

after-IsSound : IsSound start after
unfolding after
after-IsSound = add-IsSound start start random empty_cache (omega arith) (empty_cache-IsSound start)

-- The same hello three days later.
replayed : Passed (start + 259_200) random (some (pos 1_699_999_998)) after
replayed =
    pass_hello-Passed start (start + 259_200) random (some (pos 1_699_999_998)) after (omega arith)
      after-IsSound

no_replay_example : replayed.passes ≡ false
no_replay_example =
    no_replay start start start (start + 259_200) random (pos 1_699_999_998) empty_cache after after
      replayed.cache replayed.passes (empty_cache-IsSound start) (omega arith) first_passes here
      (omega arith) replayed.returns

abbrev site : List ℕ
site = codes "example.org"

abbrev mirror : List ℕ
mirror = codes "example.net"

get_domain_info_lem_example :
    get_domain_info site (add_all (mirror ∷ site ∷ []))
    ≡ (if is_one_of site (mirror ∷ site ∷ []) then some (named site) else none)
get_domain_info_lem_example = get_domain_info_lem site (mirror ∷ site ∷ [])

-- 76 bytes, and a length of cipher suites that points behind the buffer.
read_sni-ended_example : ended (read_sni (replicate 80 255) 80) ≡ true
read_sni-ended_example = read_sni-ended (replicate 80 255) 80 (omega arith)

abbrev other_extension : Extension
other_extension = record { id = 23; body = 1 ∷ 2 ∷ [] }

hello : List ℕ
hello =
    replicate 76 0
    ++ (bytes16 2
        ++ (replicate 2 7
            ++ (replicate 4 0 ++ encode_all (other_extension ∷ []) (encode_sni site (9 ∷ [])))))

read_sni-finds_example : read_sni hello (length hello) ≡ server_name site
unfolding hello
read_sni-finds_example =
    read_sni-finds (replicate 76 0) (replicate 2 7) (replicate 4 0) (other_extension ∷ []) site
      (9 ∷ []) refl refl ((ground arith), tt) (ground arith)

abbrev server_random : List ℕ
server_random = replicate 32 3

not_retry : same_bytes server_random hello_retry_request ≡ false
unfolding same_bytes
not_retry = refl

server_hello-accepted_example :
    let answer =
      server_hello server_random (replicate 32 4) 0x01 true (replicate 32 5) (replicate 9 6) in
    check_response answer (length answer) (replicate 32 4) ≡ accepted true 9
server_hello-accepted_example =
    server_hello-accepted server_random (replicate 32 4) (replicate 32 5) (replicate 9 6) true refl
      not_retry refl refl (omega arith)

-- 90 bytes of which none is right.
check_response-ended_example :
    hello_ended (check_response (replicate 90 255) 90 (replicate 32 4)) ≡ true
check_response-ended_example =
    check_response-ended (replicate 90 255) 90 (replicate 32 4) (omega arith) refl
