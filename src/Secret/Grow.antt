-- ===== src/Secret/Grow.antt =====
-- The invariant of the secret store under the growth of its arrays and under a new entry.
use mtprotor.Base.{
  ℕ, ◌+◌, ◌≤◌, ◌<◌, ◌≡◌, ◌≢◌, refl, Bool, false, none, List, [], ◌∷◌, ◌++◌, arith, length, All,
  All-append, All-map, length-append, modify, length-modify, get_elem?-modify_ne, true,
  if◌then◌else◌, same_bytes, same_bytes_eq, Bool-cases, inl, inr, ◌==◌, subst,
}
use mtprotor.Base.Search.{count, find?, count-append, count-eq-zero}
use mtprotor.Secret.Add.{has_secret, has_id}
use mtprotor.Secret.Persist.{metric_of}
use mtprotor.Secret.State.{Entry, Metric}
use mtprotor.Secret.Valid.{IsEntry, Good}

pub IsEntry-mono :
    (next next' n n' : ℕ)
    → next ≤ next'
    → n ≤ n'
    → (e : Entry) → IsEntry next n e
    → IsEntry next' n' e
IsEntry-mono next next' n n' p q e v = record {
  secret = v.secret;
  hex = v.hex;
  label = v.label;
  last_ip = v.last_ip;
  id_pos = v.id_pos;
  id_old = omega arith;
  id_counted = omega arith;
}

-- No entry has an id that was not given out yet.
pub count-new_id :
    (next n j : ℕ) (es : List Entry) → All (IsEntry next n) es → next ≤ j → count (has_id j) es ≡ 0
unfolding count
count-new_id next n j [] h p = refl
count-new_id next n j (e ∷ es) (v, h) p =
    let old : e.id < next = v.id_old in ground (arith, count-new_id next n j es h p)

module _ {es : List Entry} {cap next : ℕ} {metrics : List Metric}
    (v : Good es cap next metrics) where
  pub cap-Good : (cap' : ℕ) → cap ≤ cap' → Good es cap' next metrics
  cap-Good cap' p = record {
    fits = omega (arith, v.fits);
    next_pos = v.next_pos;
    one_secret = v.one_secret;
    one_id = v.one_id;
    each = v.each;
    unused = v.unused;
  }

  -- Counters may be added, while none that was not zero becomes zero for an unused id.
  pub metrics-Good :
      (metrics' : List Metric)
      → length metrics ≤ length metrics'
      → ((i : ℕ) → next ≤ i → metric_of metrics' i ≡ metric_of metrics i)
      → Good es cap next metrics'
  metrics-Good metrics' p same = record {
    fits = v.fits;
    next_pos = v.next_pos;
    one_secret = v.one_secret;
    one_id = v.one_id;
    each =
        All-map (IsEntry next (length metrics)) (IsEntry next (length metrics'))
          (IsEntry-mono next next (length metrics) (length metrics') (omega arith) p) es v.each;
    unused = λ i q. rw (same i q) (v.unused i q);
  }

  -- Any id beyond those given out may be next.
  pub next-Good : (next' : ℕ) → next ≤ next' → Good es cap next' metrics
  next-Good next' p = record {
    fits = v.fits;
    next_pos = omega (arith, v.next_pos);
    one_secret = v.one_secret;
    one_id = v.one_id;
    each =
        All-map (IsEntry next (length metrics)) (IsEntry next' (length metrics))
          (IsEntry-mono next next' (length metrics) (length metrics) p (omega arith)) es v.each;
    unused = λ i q. v.unused i (omega arith);
  }

  -- A new entry, whose secret and id were not there.
  pub insert-Good :
      (e : Entry)
      → length es + 1 ≤ cap
      → find? (has_secret e.secret) es ≡ none
      → count (has_id e.id) es ≡ 0
      → IsEntry next (length metrics) e
      → Good (es ++ (e ∷ [])) cap next metrics
  insert-Good e room absent other good = record {
    fits = omega (arith, length-append es (e ∷ []));
    next_pos = v.next_pos;
    one_secret = λ k. elim (Bool-cases (same_bytes e.secret k)) [
      | inl hit ↦
          let zero_before : count (has_secret k) es ≡ 0 =
            subst (λ t. count (has_secret t) es ≡ 0) (same_bytes_eq e.secret k hit)
              (count-eq-zero (has_secret e.secret) es absent) in
          omega (arith, count-append (has_secret k) es (e ∷ []), count_one (has_secret k) e)
      | inr miss ↦ omega (
        arith,
        count-append (has_secret k) es (e ∷ []),
        count_none (has_secret k) e miss,
        v.one_secret k,
      )
    ];
    one_id = λ j. elim (Bool-cases (e.id == j)) [
      | inl hit ↦
          let same : e.id ≡ j = ground arith in
          let zero_before : count (has_id j) es ≡ 0 =
            subst (λ i. count (has_id i) es ≡ 0) same other in
          omega (arith, count-append (has_id j) es (e ∷ []), count_one (has_id j) e)
      | inr miss ↦
          omega
            (arith, count-append (has_id j) es (e ∷ []), count_none (has_id j) e miss, v.one_id j)
    ];
    each = All-append (IsEntry next (length metrics)) es (e ∷ []) v.each (good, tt);
    unused = v.unused;
  }
    where
      count_one : (q : Entry → Bool) (a : Entry) → count q (a ∷ []) ≤ 1
      count_one q a = unfold count in ground arith

      count_none : (q : Entry → Bool) (a : Entry) → q a ≡ false → count q (a ∷ []) ≡ 0
      count_none q a miss = unfold count in ground arith

-- A new entry takes the next id, and its secret was not there.
pub append-Good :
    {es : List Entry} {cap next : ℕ} {metrics : List Metric} (v : Good es cap next metrics)
    (e : Entry)
    → length es + 1 ≤ cap
    → find? (has_secret e.secret) es ≡ none
    → e.id ≡ next
    → IsEntry (next + 1) (length metrics) e
    → Good (es ++ (e ∷ [])) cap (next + 1) metrics
append-Good {es} {cap} {next} {metrics} v e room absent own good =
    insert-Good (next-Good v (next + 1) (omega arith)) e room absent
      (count-new_id next (length metrics) e.id es v.each (omega (arith, own))) good

pub metric_of-modify :
    (ms : List Metric) (i j : ℕ) (f : Metric → Metric)
    → i ≢ j
    → metric_of (modify ms i f) j ≡ metric_of ms j
unfolding metric_of
metric_of-modify ms i j f h = rw (get_elem?-modify_ne ms i j f h) refl

module _ {es : List Entry} {room next : ℕ} {metrics : List Metric}
    (v : Good es room next metrics) where
  -- A counter of an id that was given out may change.
  pub count-Good :
      (id : ℕ) (f : Metric → Metric) → id < next → Good es room next (modify metrics id f)
  count-Good id f old =
      metrics-Good v (modify metrics id f) (omega (arith, length-modify metrics id f))
        (λ i q. metric_of-modify metrics id i f (omega arith))

  pub count_if-Good :
      (id : ℕ) (f : Metric → Metric)
      → id < next
      → (b : Bool) → Good es room next (if b then modify metrics id f else metrics)
  count_if-Good id f old true = count-Good id f old
  count_if-Good id f old false = v
