-- ===== src/Tls/Random/Chains.antt =====
-- The hash chains of the client-random cache are its list by time, newest first.
use mtprotor.Base.{
  ℕ, ◌+◌, ◌≤◌, ◌<◌, ◌≡◌, ◌≢◌, refl, ap, ◌∙◌, Option, some, List, [], ◌∷◌, ◌++◌, arith, ltb, ◌==◌,
  ==_iff, if◌then◌else◌, All, All-append, Bool-cases, inl, inr,
}
use mtprotor.Tls.Random.{
  ClientRandom, Cache, bucket_of, set_bucket, cut_chain, delete_loop, max_cache_time, empty_cache,
}

-- The entries of bucket `i`, the newest first.
unfoldable pub chain_of : ℕ → List ClientRandom → List ClientRandom
chain_of i [] = []
chain_of i (e ∷ q) = if bucket_of e.random == i then chain_of i q ++ (e ∷ []) else chain_of i q

pub chain_of-append :
    (i : ℕ) (q : List ClientRandom) (e : ClientRandom)
    → chain_of i (q ++ (e ∷ []))
      ≡ (if bucket_of e.random == i then e ∷ chain_of i q else chain_of i q)
unfolding chain_of
chain_of-append i [] e = refl
chain_of-append i (d ∷ q) e = rw (chain_of-append i q e) (ground arith)

-- No other entry has the address `a`.
abbrev pub Elsewhere : ℕ → List ClientRandom → Type 0
Elsewhere a q = All (λ d. d.address ≢ a) q

abbrev pub Distinct : List ClientRandom → Type 0
Distinct [] = Unit
Distinct (e ∷ q) = Elsewhere e.address q × Distinct q

abbrev pub Sorted : List ClientRandom → Type 0
Sorted [] = Unit
Sorted (e ∷ q) = All (λ d. e.time ≤ d.time) q × Sorted q

-- The chains agree with the list by time, whose entries lie at different addresses, in the order of
-- their times, none later than `now`.
pub record IsSound (now : ℕ) (c : Cache) : Type 0 where
  pub chains : (i : ℕ) → c.bucket i ≡ chain_of i c.by_time
  pub distinct : Distinct c.by_time
  pub allocated : All (λ d. d.address < c.fresh) c.by_time
  pub sorted : Sorted c.by_time
  pub past : All (λ d. d.time ≤ now) c.by_time

chain_of-Elsewhere : (a i : ℕ) (q : List ClientRandom) → Elsewhere a q → Elsewhere a (chain_of i q)
unfolding chain_of
chain_of-Elsewhere a i [] h = tt
chain_of-Elsewhere a i (e ∷ q) h = elim (Bool-cases (bucket_of e.random == i)) [
  | inl own ↦ rw own (
      All-append (λ d. d.address ≢ a) (chain_of i q) (e ∷ []) (chain_of-Elsewhere a i q h.1)
        (h.0, tt))
  | inr other ↦ rw other (chain_of-Elsewhere a i q h.1)
]

-- The walk stops at the last entry of the chain, and cuts it off.
cut_chain-last :
    (e : ClientRandom) (chain : List ClientRandom)
    → Elsewhere e.address chain
    → cut_chain e.address (chain ++ (e ∷ [])) ≡ some chain
unfolding cut_chain
cut_chain-last e [] h = ground arith
cut_chain-last e (d ∷ []) h = let ne = h.0 in ground (arith)
cut_chain-last e (d ∷ f ∷ chain) h =
    let ne = h.0 in ground (arith, cut_chain-last e (f ∷ chain) h.1)

-- The chains once the oldest entry is cut off its own.
unlinked : ClientRandom → List ClientRandom → (ℕ → List ClientRandom) → ℕ → List ClientRandom
unlinked e q bucket = set_bucket bucket (bucket_of e.random) (chain_of (bucket_of e.random) q)

cut_own :
    (e : ClientRandom) (q : List ClientRandom) (bucket : ℕ → List ClientRandom)
    → ((i : ℕ) → bucket i ≡ chain_of i (e ∷ q))
    → Elsewhere e.address q
    → cut_chain e.address (bucket (bucket_of e.random)) ≡ some (chain_of (bucket_of e.random) q)
cut_own e q bucket agree h =
    let b = bucket_of e.random in
    let own : chain_of b (e ∷ q) ≡ chain_of b q ++ (e ∷ []) = unfold chain_of in ground arith in
    rw (agree b, own) (cut_chain-last e (chain_of b q) (chain_of-Elsewhere e.address b q h))

unlinked-agrees :
    (e : ClientRandom) (q : List ClientRandom) (bucket : ℕ → List ClientRandom)
    → ((i : ℕ) → bucket i ≡ chain_of i (e ∷ q))
    → (i : ℕ) → unlinked e q bucket i ≡ chain_of i q
unfolding unlinked chain_of
unlinked-agrees e q bucket agree i = elim (Bool-cases (bucket_of e.random == i)) [
  | inl own ↦
      let b : bucket_of e.random ≡ i = (==_iff _ _).0 own in rw own (ap (λ t. chain_of t q) b)
  | inr other ↦ rw other (agree i ∙ rw other refl)
]

-- What the deletion leaves: a suffix of the list by time, with chains that agree with it; what it
-- dropped has expired, and the last entry is never dropped.
pub record Deleted (now : ℕ) (q : List ClientRandom) (fresh : ℕ) (out : Option Cache) : Type 0 where
  pub cache : Cache
  pub returns : out ≡ some cache
  pub same_fresh : cache.fresh ≡ fresh
  pub chains : (i : ℕ) → cache.bucket i ≡ chain_of i cache.by_time
  pub dropped : List ClientRandom
  pub split : q ≡ dropped ++ cache.by_time
  pub expired : All (λ d. d.time + max_cache_time ≤ now) dropped
  pub keeps_last : q ≢ [] → cache.by_time ≢ []

pub delete_loop-Deleted :
    (now : ℕ) (q : List ClientRandom) (bucket : ℕ → List ClientRandom) (fresh : ℕ)
    → ((i : ℕ) → bucket i ≡ chain_of i q)
    → Distinct q
    → Deleted now q fresh (delete_loop now q bucket fresh)
unfolding delete_loop unlinked
delete_loop-Deleted now [] bucket fresh agree d = record {
  cache = record { by_time = []; bucket = bucket; fresh = fresh };
  returns = refl;
  same_fresh = refl;
  chains = agree;
  dropped = [];
  split = refl;
  expired = tt;
  keeps_last = λ h. h;
}
delete_loop-Deleted now (e ∷ []) bucket fresh agree d = record {
  cache = record { by_time = e ∷ []; bucket = bucket; fresh = fresh };
  returns = refl;
  same_fresh = refl;
  chains = agree;
  dropped = [];
  split = refl;
  expired = tt;
  keeps_last = λ h. h;
}
delete_loop-Deleted now (e ∷ f ∷ q) bucket fresh agree d =
    elim (Bool-cases (ltb now (e.time + max_cache_time))) [
      | inl young ↦ record {
        cache = record { by_time = e ∷ f ∷ q; bucket = bucket; fresh = fresh };
        returns = rw (young, delete_loop) refl;
        same_fresh = refl;
        chains = agree;
        dropped = [];
        split = refl;
        expired = tt;
        keeps_last = λ h. h;
      }
      | inr old ↦
          let rest =
            delete_loop-Deleted now (f ∷ q) (unlinked e (f ∷ q) bucket) fresh
              (unlinked-agrees e (f ∷ q) bucket agree) d.1 in
          record {
            cache = rest.cache;
            returns = rw (old, cut_own e (f ∷ q) bucket agree d.0, delete_loop) rest.returns;
            same_fresh = rest.same_fresh;
            chains = rest.chains;
            dropped = e ∷ rest.dropped;
            split = ap (λ t. e ∷ t) rest.split;
            expired = (ground arith, rest.expired);
            keeps_last = λ h. rest.keeps_last (λ z. cc);
          }
    ]

-- The empty cache is sound.
pub empty_cache-IsSound : (now : ℕ) → IsSound now empty_cache
empty_cache-IsSound now = record {
  chains = λ i. unfold chain_of in refl;
  distinct = tt;
  allocated = tt;
  sorted = tt;
  past = tt;
}
