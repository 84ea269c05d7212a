-- ===== src/Secret/Valid.antt =====
-- The invariant of the secret store.
use mtprotor.Base.{
  ℕ, zero, suc, ◌+◌, ◌≤◌, ◌<◌, ◌≡◌, ap, Bool, some, List, [], ◌∷◌, ◌++◌, arith, length, All,
  All-left, All-right, modify, length-modify, length-append, length-map, map, same_bytes, ◌==◌,
}
use mtprotor.Base.Search.{
  count, find_index, Found, find_index-Found, count-append, count-modify, count-map,
}
use mtprotor.Base.Remove.{
  swap_remove, swap_remove-Found, Removed, length-Removed, All-Removed, count-Removed,
}
use mtprotor.Secret.Add.{has_secret, has_id}
use mtprotor.Secret.Hex.{secret16_to_hex}
use mtprotor.Secret.Hex.Laws.{IsSecret}
use mtprotor.Secret.Persist.{metric_of}
use mtprotor.Secret.State.{Store, Entry, Metric, zero_metric}
use mtprotor.Secret.Text.Clean.{IsLabel, IsIp}

-- One entry, with ids below `next` and below the number of counters.
pub record IsEntry (next counters : ℕ) (e : Entry) : Type 0 where
  pub secret : IsSecret e.secret
  pub hex : e.hex ≡ secret16_to_hex e.secret
  pub label : IsLabel e.label
  pub last_ip : IsIp e.last_ip
  pub id_pos : 1 ≤ e.id
  pub id_old : e.id < next
  pub id_counted : e.id < counters

-- No secret and no id stands twice, the arrays hold what is in use, and the counters of ids that
-- were never given out are zero.
pub record Good (es : List Entry) (cap next : ℕ) (metrics : List Metric) : Type 0 where
  pub fits : length es ≤ cap
  pub next_pos : 1 ≤ next
  pub one_secret : (k : List ℕ) → count (has_secret k) es ≤ 1
  pub one_id : (i : ℕ) → count (has_id i) es ≤ 1
  pub each : All (IsEntry next (length metrics)) es
  pub unused : (i : ℕ) → next ≤ i → metric_of metrics i ≡ zero_metric

abbrev pub IsValid : Store → Type 0
IsValid s = Good s.entries s.cap s.next_id s.metrics

-- A change of an entry that keeps its identity and leaves its texts clean.
pub record Keeps (f : Entry → Entry) : Type 0 where
  pub secret : (e : Entry) → (f e).secret ≡ e.secret
  pub hex : (e : Entry) → (f e).hex ≡ e.hex
  pub id : (e : Entry) → (f e).id ≡ e.id
  pub label : (e : Entry) → IsLabel e.label → IsLabel (f e).label
  pub last_ip : (e : Entry) → IsIp e.last_ip → IsIp (f e).last_ip

pub secret_test :
    {f : Entry → Entry} (k : Keeps f) (s : List ℕ) (e : Entry) → has_secret s (f e) ≡ has_secret s e
secret_test k s e = ap (λ t. same_bytes t s) (k.secret e)

pub id_test : {f : Entry → Entry} (k : Keeps f) (i : ℕ) (e : Entry) → has_id i (f e) ≡ has_id i e
id_test k i e = ap (λ t. t == i) (k.id e)

module _ (next counters : ℕ) {f : Entry → Entry} (k : Keeps f) where
  pub Keeps-IsEntry : (e : Entry) → IsEntry next counters e → IsEntry next counters (f e)
  Keeps-IsEntry e v = record {
    secret = rw (k.secret e) v.secret;
    hex = rw (k.hex e, k.secret e) v.hex;
    label = k.label e v.label;
    last_ip = k.last_ip e v.last_ip;
    id_pos = rw (k.id e) v.id_pos;
    id_old = rw (k.id e) v.id_old;
    id_counted = rw (k.id e) v.id_counted;
  }

  All-modify :
      (es : List Entry) (i : ℕ)
      → All (IsEntry next counters) es
      → All (IsEntry next counters) (modify es i f)
  All-modify [] i h = tt
  All-modify (e ∷ es) zero h = (Keeps-IsEntry e h.0, h.1)
  All-modify (e ∷ es) (suc i) h = (h.0, All-modify es i h.1)

  All-map_entries :
      (es : List Entry) → All (IsEntry next counters) es → All (IsEntry next counters) (map f es)
  All-map_entries [] h = tt
  All-map_entries (e ∷ es) h = (Keeps-IsEntry e h.0, All-map_entries es h.1)

count-whole-ge :
    (q : Entry → Bool) (es before after : List Entry) (hit : Entry)
    → es ≡ before ++ (hit ∷ after)
    → count q before + count q after ≤ count q es
unfolding count
count-whole-ge q es before after hit e = rw e (ground (arith, count-append q before (hit ∷ after)))

module _ {es : List Entry} {cap next : ℕ} {metrics : List Metric}
    (v : Good es cap next metrics) where
  pub modify-Good : (i : ℕ) (f : Entry → Entry) → Keeps f → Good (modify es i f) cap next metrics
  modify-Good i f k = record {
    fits = omega (arith, length-modify es i f, v.fits);
    next_pos = v.next_pos;
    one_secret = λ s. rw (count-modify (has_secret s) es i f (secret_test k s)) (v.one_secret s);
    one_id = λ j. rw (count-modify (has_id j) es i f (id_test k j)) (v.one_id j);
    each = All-modify next (length metrics) k es i v.each;
    unused = v.unused;
  }

  pub map-Good : (f : Entry → Entry) → Keeps f → Good (map f es) cap next metrics
  map-Good f k = record {
    fits = omega (arith, length-map es f, v.fits);
    next_pos = v.next_pos;
    one_secret = λ s. rw (count-map (has_secret s) es f (secret_test k s)) (v.one_secret s);
    one_id = λ j. rw (count-map (has_id j) es f (id_test k j)) (v.one_id j);
    each = All-map_entries next (length metrics) k es v.each;
    unused = v.unused;
  }

  -- Removing the entry that a search found.
  pub remove-Good :
      (p : Entry → Bool) (i : ℕ)
      → find_index p es ≡ some i
      → Good (swap_remove es i) cap next metrics
  remove-Good p i h = record {
    fits = omega (arith, length-Removed before after (swap_remove es i) left, size, v.fits);
    next_pos = v.next_pos;
    one_secret = λ k. fewer (has_secret k) (v.one_secret k);
    one_id = λ j. fewer (has_id j) (v.one_id j);
    each =
        All-Removed (IsEntry next (length metrics)) before after (swap_remove es i) left
          (All-left (IsEntry next (length metrics)) before (hit ∷ after) split)
          (All-right (IsEntry next (length metrics)) before (hit ∷ after) split).1;
    unused = v.unused;
  }
    where
      found : Found p es i
      found = find_index-Found p es i h

      open found use {before, hit, after, whole}

      left : Removed before after (swap_remove es i)
      left = swap_remove-Found p es i found

      split : All (IsEntry next (length metrics)) (before ++ (hit ∷ after))
      split = rw whole at v.each

      size : length es ≡ length before + suc (length after)
      size = rw whole (length-append before (hit ∷ after))

      fewer : (q : Entry → Bool) → count q es ≤ 1 → count q (swap_remove es i) ≤ 1
      fewer q few = omega (
        arith,
        count-whole-ge q es before after hit whole,
        count-Removed q before after (swap_remove es i) left,
      )
