-- ===== src/Tls/Random.antt =====
-- The cache of client randoms against replayed ClientHellos (get_client_random_bucket,
-- have_client_random, add_client_random, delete_old_client_randoms) and is_allowed_timestamp, of
-- net/net-tcp-rpc-ext-server.c. `now` and the times are Unix times of an `int`, that is below 2^31.
pub mod Chains
pub mod Sound
pub mod Replay
pub mod NoReplay
use Prim.Native.Nat.{bit_or, bit_and}
use mtprotor.Base.{
  ℕ, zero, suc, ◌+◌, ◌-◌, ◌*◌, ◌^◌, Bool, true, false, ◌&&◌, Option, none, some, List, [], ◌∷◌,
  ◌++◌, ltb, leb, ◌==◌, if◌then◌else◌, same_bytes, get_elem?,
}
use mathlib.Core.Option
use mtprotor.Base.Int.{ℤ, pos, negsuc, ltb_ℤ, sub_ℕ}

-- struct client_random, with the address of its block. The two links are the lists below.
pub record ClientRandom : Type 0 where
  pub address : ℕ
  pub random : List ℕ
  pub time : ℕ

-- `by_time` is the list from first_client_random along next_by_time, and `bucket i` the chain from
-- client_randoms[i] along next_by_hash. `fresh` is the next address that malloc gives.
pub record Cache : Type 0 where
  pub by_time : List ClientRandom
  pub bucket : ℕ → List ClientRandom
  pub fresh : ℕ

abbrev pub random_hash_bits : ℕ
random_hash_bits = 14

-- The loop of get_client_random_bucket with `i` bits to go: 8 of the first byte, 6 of the second.
unfoldable pub bucket_loop : ℕ → ℕ → ℕ → List ℕ → ℕ
bucket_loop zero i id random = id
bucket_loop (suc fuel) i id [] = id
bucket_loop (suc fuel) i id (b ∷ random) = elim (ltb 0 i) [
  | false ↦ id
  | true ↦
      let bits = if ltb i 8 then i else 8 in
      bucket_loop fuel (i - bits) (bit_or (id * 2 ^ bits) (bit_and b (2 ^ bits - 1))) random
]

unfoldable pub bucket_of : List ℕ → ℕ
bucket_of random = bucket_loop random_hash_bits random_hash_bits 0 random

-- memcmp (random, cur->random, 16) == 0
abbrev pub is_random : List ℕ → ClientRandom → Bool
is_random random e = same_bytes e.random random

unfoldable pub chain_has : List ℕ → List ClientRandom → Bool
chain_has random [] = false
chain_has random (e ∷ chain) = if is_random random e then true else chain_has random chain

unfoldable pub have_client_random : List ℕ → Cache → Bool
have_client_random random c = chain_has random (c.bucket (bucket_of random))

abbrev pub set_bucket : (ℕ → List ClientRandom) → ℕ → List ClientRandom → ℕ → List ClientRandom
set_bucket bucket i chain j = if i == j then chain else bucket j

unfoldable pub add_client_random : ℕ → List ℕ → Cache → Cache
add_client_random now random c = record {
  by_time = c.by_time ++ (entry ∷ []);
  bucket = set_bucket c.bucket (bucket_of random) (entry ∷ c.bucket (bucket_of random));
  fresh = c.fresh + 1;
}
  where
    entry : ClientRandom
    entry = record { address = c.fresh; random = random; time = now }

-- 2 * 86400
abbrev pub max_cache_time : ℕ
max_cache_time = 172800

-- The walk to the link that points to the entry, and the cut there. `none` is a walk past the end of
-- the chain, or an entry that has a successor, which the assertion before the walk excludes.
unfoldable pub cut_chain : ℕ → List ClientRandom → Option (List ClientRandom)
cut_chain address [] = none
cut_chain address (e ∷ []) = if e.address == address then some [] else none
cut_chain address (e ∷ d ∷ chain) =
    if e.address == address
    then none
    else Option.map (λ rest. e ∷ rest) (cut_chain address (d ∷ chain))

-- The loop of delete_old_client_randoms over the list by time. `none` is a failed assertion.
unfoldable pub delete_loop : ℕ → List ClientRandom → (ℕ → List ClientRandom) → ℕ → Option Cache
delete_loop now [] bucket fresh = some (record { by_time = []; bucket = bucket; fresh = fresh })
delete_loop now (e ∷ []) bucket fresh =
    some (record { by_time = e ∷ []; bucket = bucket; fresh = fresh })
delete_loop now (e ∷ d ∷ later) bucket fresh = elim (ltb now (e.time + max_cache_time)) [
  | true ↦ some (record { by_time = e ∷ d ∷ later; bucket = bucket; fresh = fresh })
  | false ↦ elim (cut_chain e.address (bucket (bucket_of e.random))) [
    | none ↦ none
    | some chain ↦ delete_loop now (d ∷ later) (set_bucket bucket (bucket_of e.random) chain) fresh
  ]
]

unfoldable pub delete_old_client_randoms : ℕ → Cache → Option Cache
delete_old_client_randoms now c = delete_loop now c.by_time c.bucket c.fresh

-- MAX_ALLOWED_TIMESTAMP_ERROR
abbrev pub max_timestamp_error : ℕ
max_timestamp_error = 600

-- first_client_random != NULL && timestamp > first_client_random->time + 3
abbrev pub after_first : ℤ → List ClientRandom → Bool
after_first timestamp [] = false
after_first timestamp (e ∷ later) = ltb_ℤ (pos (e.time + 3)) timestamp

unfoldable pub is_allowed_timestamp : ℕ → ℤ → Cache → Bool
is_allowed_timestamp now timestamp c =
    if ltb_ℤ (pos (now + 3)) timestamp
    then false
    else if after_first timestamp c.by_time
    then true
    else ltb_ℤ (sub_ℕ now max_timestamp_error) timestamp

-- The part of the ClientHello handling of tcp_rpcs_compact_parse_execute that uses the cache: the
-- look-up, the insertion, the deletion, and for a hello that some secret matches the test of its
-- timestamp. `timestamp` is `none` where no active secret matches. The result says whether the
-- hello passes; `none` is a failed assertion.
unfoldable pub pass_hello : ℕ → List ℕ → Option ℤ → Cache → Option (Bool × Cache)
pass_hello now random timestamp c =
    if have_client_random random c
    then some (false, c)
    else elim (delete_old_client_randoms now (add_client_random now random c)) [
      | none ↦ none
      | some d ↦ elim timestamp [
        | none ↦ some (false, d)
        | some ts ↦ some (is_allowed_timestamp now ts d, d)
      ]
    ]

-- The static initial state.
abbrev pub empty_cache : Cache
empty_cache = record { by_time = []; bucket = λ i. []; fresh = 1 }
