-- ===== src/Tls/Random/NoReplay.antt =====
-- The cache and the timestamp test together: no ClientHello is let through twice.
use mtprotor.Base.{
  ℕ, ◌+◌, ◌≤◌, ◌≡◌, ◌≢◌, refl, ap, sym, ◌∙◌, subst, Bool, true, false, Option, some, List, [], ◌∷◌,
  ◌++◌, arith, All, All-append, All-right, inl, inr, same_bytes_refl, some_eq,
}
use mtprotor.Base.Int.{ℤ, pos, ltb_ℤ}
use mtprotor.Tls.Random.{
  ClientRandom, Cache, have_client_random, add_client_random, after_first,
  delete_old_client_randoms, max_cache_time, pass_hello, is_allowed_timestamp,
}
use mtprotor.Tls.Random.Chains.{IsSound, Sorted, Deleted}
use mtprotor.Tls.Random.Replay.{
  Held, Seen, Held-have, Held-left, Held-last, Held-drop, Shape, again, new, pass_hello-Shape,
}
use mtprotor.Tls.Random.Sound.{add-IsSound, delete-Deleted, pass_hello-Passed}

snoc-ne-nil : (q : List ClientRandom) (e : ClientRandom) → q ++ (e ∷ []) ≢ []
snoc-ne-nil [] e h = cc
snoc-ne-nil (f ∷ q) e h = cc

module _ (r : List ℕ) (t : ℕ) where
  -- The insertion and the deletion leave nothing older than what was there.
  added-newer :
      (before now : ℕ) (r' : List ℕ) (c d : Cache)
      → before ≤ now
      → IsSound before c
      → All (λ e. t ≤ e.time) c.by_time
      → t ≤ now
      → delete_old_client_randoms now (add_client_random now r' c) ≡ some d
      → All (λ e. t ≤ e.time) d.by_time
  unfolding add_client_random
  added-newer before now r' c d later v all young gone =
      subst (λ x. All (λ e. t ≤ e.time) x.by_time) (some_eq (sym del.returns ∙ gone))
        (All-right (λ e. t ≤ e.time) del.dropped del.cache.by_time
          (subst (λ q. All (λ e. t ≤ e.time) q) del.split
            (All-append (λ e. t ≤ e.time) c.by_time _ all (young, tt))))
    where
      added : Cache
      added = add_client_random now r' c

      del : Deleted now added.by_time added.fresh (delete_old_client_randoms now added)
      del = delete-Deleted now added (add-IsSound before now r' c later v)

  -- What was there before a new hello is, after the insertion and the deletion, there or old.
  added-Seen :
      (before now : ℕ) (r' : List ℕ) (c d : Cache)
      → before ≤ now
      → IsSound before c
      → Seen r t now (add_client_random now r' c)
      → delete_old_client_randoms now (add_client_random now r' c) ≡ some d
      → Seen r t now d
  unfolding add_client_random
  added-Seen before now r' c d later v seen gone = subst (Seen r t now) same (left seen)
    where
      added : Cache
      added = add_client_random now r' c

      sound : IsSound now added
      sound = add-IsSound before now r' c later v

      del : Deleted now added.by_time added.fresh (delete_old_client_randoms now added)
      del = delete-Deleted now added sound

      same : del.cache ≡ d
      same = some_eq (sym del.returns ∙ gone)

      some_left : del.cache.by_time ≢ []
      some_left = del.keeps_last (snoc-ne-nil c.by_time _)

      left : Seen r t now added → Seen r t now del.cache
      left (inl held) =
          elim (Held-drop r t now del.dropped del.cache.by_time (subst (Held r t) del.split held)
            (subst Sorted del.split sound.sorted) del.expired) [
              | inl h ↦ inl h
              | inr (old, rest) ↦ inr (old, some_left, rest)
            ]
      left (inr (old, _, all)) = inr (
        old,
        some_left,
        All-right (λ e. t ≤ e.time) del.dropped del.cache.by_time
            (subst (λ q. All (λ e. t ≤ e.time) q) del.split all),
      )

  Seen-add :
      (before now : ℕ) (r' : List ℕ) (c : Cache)
      → before ≤ now
      → IsSound before c
      → Seen r t before c
      → Seen r t now (add_client_random now r' c)
  unfolding add_client_random
  Seen-add before now r' c later v (inl held) = inl (Held-left r t c.by_time _ held)
  Seen-add before now r' c later v (inr (old, _, all)) = inr (
    omega arith,
    snoc-ne-nil c.by_time _,
    All-append (λ e. t ≤ e.time) c.by_time _ all (omega arith, tt),
  )

  -- A later hello keeps what was taken in on record.
  pass-Seen :
      (before now : ℕ) (r' : List ℕ) (ts : Option ℤ) (c d : Cache) (b : Bool)
      → before ≤ now
      → IsSound before c
      → Seen r t before c
      → pass_hello now r' ts c ≡ some (b, d)
      → Seen r t now d
  pass-Seen before now r' ts c d b later v seen e = by_shape (pass_hello-Shape now r' ts c b d e)
    where
      wait : Seen r t before c → Seen r t now c
      wait (inl held) = inl held
      wait (inr (old, some_left, all)) = inr (omega arith, some_left, all)

      by_shape : Shape now r' ts c b d → Seen r t now d
      by_shape (again _ _ same) = subst (Seen r t now) same (wait seen)
      by_shape (new _ gone _) =
          added-Seen before now r' c d later v (Seen-add before now r' c later v seen) gone

  -- Its replay is refused: by the cache while its entry is there, by its timestamp after that.
  Seen-refuses :
      (before now : ℕ) (ts : ℤ) (c d : Cache) (b : Bool)
      → before ≤ now
      → IsSound before c
      → Seen r t before c
      → ltb_ℤ (pos (t + 3)) ts ≡ false
      → pass_hello now r (some ts) c ≡ some (b, d)
      → b ≡ false
  unfolding is_allowed_timestamp
  Seen-refuses before now ts c d b later v seen in_time e =
      by_shape (pass_hello-Shape now r (some ts) c b d e)
    where
      too_old : Seen r t before c → have_client_random r c ≡ false → t + max_cache_time ≤ now
      too_old (inl held) absent = let there = Held-have r t before c v held in absurd (ground arith)
      too_old (inr (old, _, _)) absent = omega arith

      not_after : (q : List ClientRandom) → All (λ e. t ≤ e.time) q → after_first ts q ≡ false
      not_after [] all = refl
      not_after (f ∷ q) all = let h : t ≤ f.time = all.0 in ground arith

      newer : Seen r t before c → have_client_random r c ≡ false → All (λ e. t ≤ e.time) c.by_time
      newer (inl held) absent = let there = Held-have r t before c v held in absurd (ground arith)
      newer (inr (_, _, all)) absent = all

      by_shape : Shape now r (some ts) c b d → b ≡ false
      by_shape (again _ no_pass _) = no_pass
      by_shape (new absent gone verdict) =
          let old = too_old seen absent in
          let first =
            not_after d.by_time
              (added-newer before now r c d later v (newer seen absent) (omega arith) gone) in
          verdict ∙ ground arith

-- Hellos that follow, at times that do not decrease.
pub data Later (c : Cache) (now : ℕ) : Cache → ℕ → Type 0 where
  here : Later c now c now
  hello :
      {d e : Cache} {m k : ℕ} {b : Bool} (r : List ℕ) (ts : Option ℤ)
      → Later c now d m
      → m ≤ k
      → pass_hello k r ts d ≡ some (b, e)
      → Later c now e k

pass-IsSound :
    (before now : ℕ) (r : List ℕ) (ts : Option ℤ) (c d : Cache) (b : Bool)
    → before ≤ now
    → IsSound before c
    → pass_hello now r ts c ≡ some (b, d)
    → IsSound now d
pass-IsSound before now r ts c d b later v e =
    let p = pass_hello-Passed before now r ts c later v in
    subst (IsSound now) (ap (λ x. x.1) (some_eq (sym p.returns ∙ e))) p.sound

-- A hello that passes is on record, and its timestamp is not in the future.
first_pass :
    (before now : ℕ) (r : List ℕ) (ts : ℤ) (c d : Cache)
    → before ≤ now
    → IsSound before c
    → pass_hello now r (some ts) c ≡ some (true, d)
    → Seen r now now d × (ltb_ℤ (pos (now + 3)) ts ≡ false)
unfolding is_allowed_timestamp add_client_random
first_pass before now r ts c d later v e = by_shape (pass_hello-Shape now r (some ts) c true d e)
  where
    by_shape :
        Shape now r (some ts) c true d → Seen r now now d × (ltb_ℤ (pos (now + 3)) ts ≡ false)
    by_shape (again _ no_pass _) = cc
    by_shape (new _ gone verdict) = (
      added-Seen r now before now r c d later v
          (inl (Held-last r now c.by_time _ (same_bytes_refl r) refl)) gone,
      ground arith,
    )

Later-Seen :
    (r : List ℕ) (t n : ℕ) (c : Cache) (m : ℕ) (d : Cache)
    → Later c n d m
    → IsSound n c
    → Seen r t n c
    → IsSound m d × Seen r t m d
Later-Seen r t n c m d here v seen = (v, seen)
Later-Seen r t n c m d (hello {d = d'} {m = m'} {b = b} r' ts run step e) v seen =
    let (v', seen') = Later-Seen r t n c m' d' run v seen in
    (pass-IsSound m' m r' ts d' d b step v' e, pass-Seen r t m' m r' ts d' d b step v' seen' e)

-- A ClientHello that passes at one time does not pass again later, whatever hellos come between: one
-- with the same client random and the same timestamp is refused.
pub no_replay :
    (n0 n1 n2 n3 : ℕ) (r : List ℕ) (ts : ℤ) (c0 c1 c2 c3 : Cache) (b : Bool)
    → IsSound n0 c0
    → n0 ≤ n1
    → pass_hello n1 r (some ts) c0 ≡ some (true, c1)
    → Later c1 n1 c2 n2
    → n2 ≤ n3
    → pass_hello n3 r (some ts) c2 ≡ some (b, c3)
    → b ≡ false
no_replay n0 n1 n2 n3 r ts c0 c1 c2 c3 b v first passed later last again_passed =
    let (seen, in_time) = first_pass n0 n1 r ts c0 c1 first v passed in
    let sound = pass-IsSound n0 n1 r (some ts) c0 c1 true first v passed in
    let (sound', seen') = Later-Seen r n1 n1 c1 n2 c2 later sound seen in
    Seen-refuses r n1 n2 n3 ts c2 c3 b last sound' seen' in_time again_passed
