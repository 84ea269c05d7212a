-- ===== src/Tls/Random/Sound.antt =====
-- A ClientHello keeps the client-random cache sound, and no assertion of the deletion fails.
use mtprotor.Base.{
  ℕ, ◌+◌, ◌≤◌, ◌<◌, ◌≡◌, ◌≢◌, refl, Bool, false, Option, none, some, List, [], ◌∷◌, ◌++◌, arith,
  ◌==◌, ==_iff, All, All-append, All-map, All-right, Bool-cases, inl, inr,
}
use mtprotor.Base.Int.{ℤ}
use mtprotor.Tls.Random.{
  ClientRandom, Cache, bucket_of, have_client_random, add_client_random, delete_old_client_randoms,
  pass_hello, is_allowed_timestamp,
}
use mtprotor.Tls.Random.Chains.{
  chain_of-append, Distinct, Sorted, IsSound, Deleted, delete_loop-Deleted,
}

Distinct-append :
    (q : List ClientRandom) (e : ClientRandom)
    → Distinct q
    → All (λ d. d.address < e.address) q
    → Distinct (q ++ (e ∷ []))
Distinct-append [] e d h = (tt, tt)
Distinct-append (f ∷ q) e d h = (
  All-append (λ g. g.address ≢ f.address) q (e ∷ []) d.0 ((omega (arith, h.0)), tt),
  Distinct-append q e d.1 h.1,
)

Distinct-right : (p q : List ClientRandom) → Distinct (p ++ q) → Distinct q
Distinct-right [] q d = d
Distinct-right (e ∷ p) q d = Distinct-right p q d.1

Sorted-append :
    (q : List ClientRandom) (e : ClientRandom)
    → Sorted q
    → All (λ d. d.time ≤ e.time) q
    → Sorted (q ++ (e ∷ []))
Sorted-append [] e s h = (tt, tt)
Sorted-append (f ∷ q) e s h =
    (All-append (λ g. f.time ≤ g.time) q (e ∷ []) s.0 (h.0, tt), Sorted-append q e s.1 h.1)

Sorted-right : (p q : List ClientRandom) → Sorted (p ++ q) → Sorted q
Sorted-right [] q s = s
Sorted-right (e ∷ p) q s = Sorted-right p q s.1

pub add-IsSound :
    (before now : ℕ) (random : List ℕ) (c : Cache)
    → before ≤ now
    → IsSound before c
    → IsSound now (add_client_random now random c)
unfolding add_client_random
add-IsSound before now random c later v = record {
  chains = λ i. elim (Bool-cases (bucket_of random == i)) [
    | inl own ↦
        let b : bucket_of random ≡ i = (==_iff _ _).0 own in
        rw (own, chain_of-append i c.by_time e, own, ← b, v.chains (bucket_of random)) refl
    | inr other ↦ rw (other, chain_of-append i c.by_time e, other) (v.chains i)
  ];
  distinct = Distinct-append c.by_time e v.distinct v.allocated;
  allocated =
      All-append (λ d. d.address < c.fresh + 1) c.by_time (e ∷ [])
        (All-map (λ d. d.address < c.fresh) (λ d. d.address < c.fresh + 1) (λ d h. omega arith)
          c.by_time v.allocated)
        (omega arith, tt);
  sorted =
      Sorted-append c.by_time e v.sorted
        (All-map (λ d. d.time ≤ before) (λ d. d.time ≤ now) (λ d h. omega arith) c.by_time v.past);
  past =
      All-append (λ d. d.time ≤ now) c.by_time (e ∷ [])
        (All-map (λ d. d.time ≤ before) (λ d. d.time ≤ now) (λ d h. omega arith) c.by_time v.past)
        (omega arith, tt);
}
  where
    e : ClientRandom
    e = record { address = c.fresh; random = random; time = now }

-- The deletion on a sound cache.
pub delete-Deleted :
    (now : ℕ) (c : Cache)
    → IsSound now c
    → Deleted now c.by_time c.fresh (delete_old_client_randoms now c)
unfolding delete_old_client_randoms
delete-Deleted now c v = delete_loop-Deleted now c.by_time c.bucket c.fresh v.chains v.distinct

pub Deleted-IsSound :
    (now : ℕ) (c : Cache) (out : Option Cache) (v : IsSound now c)
    (d : Deleted now c.by_time c.fresh out)
    → IsSound now d.cache
Deleted-IsSound now c out v d = record {
  chains = d.chains;
  distinct = Distinct-right d.dropped d.cache.by_time (rw d.split at v.distinct);
  allocated =
      rw d.same_fresh (
        All-right (λ e. e.address < c.fresh) d.dropped d.cache.by_time (rw d.split at v.allocated));
  sorted = Sorted-right d.dropped d.cache.by_time (rw d.split at v.sorted);
  past = All-right (λ e. e.time ≤ now) d.dropped d.cache.by_time (rw d.split at v.past);
}

-- What a hello does to a sound cache.
pub record Passed (now : ℕ) (random : List ℕ) (timestamp : Option ℤ) (c : Cache) : Type 0 where
  pub passes : Bool
  pub cache : Cache
  pub returns : pass_hello now random timestamp c ≡ some (passes, cache)
  pub sound : IsSound now cache

IsSound-mono : (before now : ℕ) (c : Cache) → before ≤ now → IsSound before c → IsSound now c
IsSound-mono before now c later v = record {
  chains = v.chains;
  distinct = v.distinct;
  allocated = v.allocated;
  sorted = v.sorted;
  past = All-map (λ d. d.time ≤ before) (λ d. d.time ≤ now) (λ d h. omega arith) c.by_time v.past;
}

-- A hello at a later time finds no failed assertion and leaves a sound cache.
pub pass_hello-Passed :
    (before now : ℕ) (random : List ℕ) (timestamp : Option ℤ) (c : Cache)
    → before ≤ now
    → IsSound before c
    → Passed now random timestamp c
unfolding pass_hello
pass_hello-Passed before now random timestamp c later v =
    elim (Bool-cases (have_client_random random c)) [
      | inl again ↦ record {
        passes = false;
        cache = c;
        returns = rw (again, pass_hello) refl;
        sound = IsSound-mono before now c later v;
      }
      | inr new ↦ verdict timestamp new
    ]
  where
    added : Cache
    added = add_client_random now random c

    gone : Deleted now added.by_time added.fresh (delete_old_client_randoms now added)
    gone = delete-Deleted now added (add-IsSound before now random c later v)

    left : IsSound now gone.cache
    left = Deleted-IsSound now added _ (add-IsSound before now random c later v) gone

    verdict : (t : Option ℤ) → have_client_random random c ≡ false → Passed now random t c
    verdict none new = record {
      passes = false;
      cache = gone.cache;
      returns = rw (new, gone.returns, pass_hello) refl;
      sound = left;
    }
    verdict (some ts) new = record {
      passes = is_allowed_timestamp now ts gone.cache;
      cache = gone.cache;
      returns = rw (new, gone.returns, pass_hello) refl;
      sound = left;
    }
