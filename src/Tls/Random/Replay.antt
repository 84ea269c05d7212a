-- ===== src/Tls/Random/Replay.antt =====
-- A ClientHello that was let through is not let through again.
use mtprotor.Base.{
  ℕ, ◌+◌, ◌≤◌, ◌≡◌, ◌≢◌, refl, ap, ◌∙◌, subst, Bool, true, false, Option, none, some, List, [], ◌∷◌,
  ◌++◌, arith, All, All-right, Bool-cases, Option-cases, inl, inr, ◌⊎◌, same_bytes_eq, ◌||◌,
}
use mtprotor.Base.Int.{ℤ}
use mtprotor.Tls.Random.{
  ClientRandom, Cache, bucket_of, is_random, chain_has, have_client_random, add_client_random,
  delete_old_client_randoms, max_cache_time, pass_hello, is_allowed_timestamp,
}
use mtprotor.Tls.Random.Chains.{chain_of, Sorted, IsSound}

-- An entry for `r` that was made at time `t`.
abbrev pub Held : List ℕ → ℕ → List ClientRandom → Type 0
Held r t [] = ⊥
Held r t (e ∷ q) = ((is_random r e ≡ true) × (e.time ≡ t)) ⊎ Held r t q

-- The hello with random `r` was taken in at time `t`: its entry is there, or it is old by now and
-- all that is there is newer.
abbrev pub Seen : List ℕ → ℕ → ℕ → Cache → Type 0
Seen r t now c =
    Held r t c.by_time
    ⊎ ((t + max_cache_time ≤ now) × (c.by_time ≢ []) × All (λ e. t ≤ e.time) c.by_time)

chain_has-append :
    (r : List ℕ) (p q : List ClientRandom) → chain_has r (p ++ q) ≡ chain_has r p || chain_has r q
unfolding chain_has
chain_has-append r [] q = refl
chain_has-append r (e ∷ p) q = ground (arith, chain_has-append r p q)

pub Held-chain :
    (r : List ℕ) (t : ℕ) (q : List ClientRandom)
    → Held r t q
    → chain_has r (chain_of (bucket_of r) q) ≡ true
unfolding chain_of chain_has
Held-chain r t [] h = elim h [ ]
Held-chain r t (e ∷ q) (inl (hit, _)) =
    let same : bucket_of e.random ≡ bucket_of r = ap bucket_of (same_bytes_eq e.random r hit) in
    ground (arith, chain_has-append r (chain_of (bucket_of r) q) (e ∷ []))
Held-chain r t (e ∷ q) (inr h) =
    ground (arith, chain_has-append r (chain_of (bucket_of r) q) (e ∷ []), Held-chain r t q h)

-- A held random is found through its bucket.
pub Held-have :
    (r : List ℕ) (t now : ℕ) (c : Cache)
    → IsSound now c
    → Held r t c.by_time
    → have_client_random r c ≡ true
unfolding have_client_random
Held-have r t now c v h = rw (v.chains (bucket_of r)) (Held-chain r t c.by_time h)

pub Held-left : (r : List ℕ) (t : ℕ) (p q : List ClientRandom) → Held r t p → Held r t (p ++ q)
Held-left r t [] q h = elim h [ ]
Held-left r t (e ∷ p) q (inl hit) = inl hit
Held-left r t (e ∷ p) q (inr h) = inr (Held-left r t p q h)

pub Held-last :
    (r : List ℕ) (t : ℕ) (p : List ClientRandom) (e : ClientRandom)
    → is_random r e ≡ true
    → e.time ≡ t
    → Held r t (p ++ (e ∷ []))
Held-last r t [] e h k = inl (h, k)
Held-last r t (f ∷ p) e h k = inr (Held-last r t p e h k)

-- Dropping expired entries from the front drops it, if at all, when it is old and the rest is newer.
pub Held-drop :
    (r : List ℕ) (t now : ℕ) (dropped rest : List ClientRandom)
    → Held r t (dropped ++ rest)
    → Sorted (dropped ++ rest)
    → All (λ e. e.time + max_cache_time ≤ now) dropped
    → Held r t rest ⊎ ((t + max_cache_time ≤ now) × All (λ e. t ≤ e.time) rest)
Held-drop r t now [] rest h s x = inl h
Held-drop r t now (e ∷ p) rest (inl (hit, k)) s x = inr (
  omega (arith, x.0),
  subst (λ u. All (λ d. u ≤ d.time) rest) k (All-right (λ d. e.time ≤ d.time) p rest s.0),
)
Held-drop r t now (e ∷ p) rest (inr h) s x = Held-drop r t now p rest h s.1 x.1

-- The two ways through a hello.
pub data Shape (now : ℕ) (r : List ℕ) (ts : Option ℤ) (c : Cache) (b : Bool) (d : Cache)
    : Type 0 where
  again : have_client_random r c ≡ true → b ≡ false → c ≡ d → Shape now r ts c b d
  new :
      have_client_random r c ≡ false
      → delete_old_client_randoms now (add_client_random now r c) ≡ some d
      → b ≡ elim ts [ none ↦ false | some t ↦ is_allowed_timestamp now t d ]
      → Shape now r ts c b d

pub pass_hello-Shape :
    (now : ℕ) (r : List ℕ) (ts : Option ℤ) (c : Cache) (b : Bool) (d : Cache)
    → pass_hello now r ts c ≡ some (b, d)
    → Shape now r ts c b d
unfolding pass_hello
pass_hello-Shape now r ts c b d e = elim (Bool-cases (have_client_random r c)) [
  | inl old ↦ again old (ground arith) (ground arith)
  | inr fresh ↦ elim (Option-cases (delete_old_client_randoms now (add_client_random now r c))) [
    | inl fails ↦ absurd (ground arith)
    | inr (d', gone) ↦
        let same : d' ≡ d = ground arith in new fresh (gone ∙ ap some same) (ground arith)
  ]
]
