-- ===== src/Secret/Load/Replace.antt =====
-- The invariant of the secret store under what a line of the state file changes in an entry.
use mtprotor.Base.{
  ℕ, ◌+◌, ◌≤◌, ◌<◌, ◌≡◌, refl, ap, false, none, some, List, [], ◌∷◌, ◌++◌, arith, length, All,
  All-append, All-left, All-right, All-map, leb, ◌==◌, if◌then◌else◌, length-append, same_bytes,
  Bool-cases, inl, inr, subst,
}
use mtprotor.Base.Search.{count, count-append}
use mtprotor.Secret.Add.{has_secret, has_id}
use mtprotor.Secret.Grow.{IsEntry-mono, count_if-Good}
use mtprotor.Secret.Hex.Laws.{IsSecret}
use mtprotor.Secret.Load.{id_taken, reread, entry_from, restore_metric}
use mtprotor.Secret.Load.Columns.{Row}
use mtprotor.Secret.State.{Store, Entry, Metric}
use mtprotor.Secret.Text.{sanitize_ip}
use mtprotor.Secret.Text.Clean.{sanitize_label-IsLabel, sanitize_ip-IsIp}
use mtprotor.Secret.Valid.{IsEntry, Good, IsValid}

-- The search for an id, from the entry at index `i` on.
pub taken_none :
    (id i : ℕ) (es : List Entry) → id_taken id none i es ≡ false → count (has_id id) es ≡ 0
unfolding id_taken count
taken_none id i [] h = refl
taken_none id i (e ∷ es) h = ground (arith, taken_none id (i + 1) es)

taken_behind :
    (id j i : ℕ) (es : List Entry)
    → j < i
    → id_taken id (some j) i es ≡ false
    → count (has_id id) es ≡ 0
unfolding id_taken count
taken_behind id j i [] lt h = refl
taken_behind id j i (e ∷ es) lt h = ground (arith, taken_behind id j (i + 1) es)

pub taken_around :
    (id i j : ℕ) (before after : List Entry) (hit : Entry)
    → i + length before ≡ j
    → id_taken id (some j) i (before ++ (hit ∷ after)) ≡ false
    → (count (has_id id) before ≡ 0) × (count (has_id id) after ≡ 0)
unfolding id_taken count
taken_around id i j [] after hit e h =
    (refl, taken_behind id j (i + 1) after (omega (arith, e)) (ground (arith, e)))
taken_around id i j (a ∷ before) after hit e h =
    let (b, c) =
      taken_around id (i + 1) j before after hit (omega (arith, e)) (ground (arith, e)) in
    (ground (arith, e), c)

-- One entry is replaced by another one for the same secret, whose id no other entry has.
pub replace-Good :
    (before after : List Entry) (hit : Entry) {cap n n' : ℕ} {metrics : List Metric}
    → Good (before ++ (hit ∷ after)) cap n metrics
    → n ≤ n'
    → (e : Entry) → e.secret ≡ hit.secret
    → count (has_id e.id) before ≡ 0
    → count (has_id e.id) after ≡ 0
    → IsEntry n' (length metrics) e
    → Good (before ++ (e ∷ after)) cap n' metrics
replace-Good before after hit {cap} {n} {n'} {metrics} v le e same no_before no_after good =
    record {
      fits =
          omega
            (arith, v.fits, length-append before (hit ∷ after), length-append before (e ∷ after));
      next_pos = omega (arith, v.next_pos);
      one_secret = λ k.
          unfold count in
          ground (
            arith,
            count-append (has_secret k) before (hit ∷ after),
            count-append (has_secret k) before (e ∷ after),
            v.one_secret k,
            ap (λ s. same_bytes s k) same,
          );
      one_id = λ j. elim (Bool-cases (e.id == j)) [
        | inl own ↦
            let e' : e.id ≡ j = ground arith in
            let b : count (has_id j) before ≡ 0 =
              subst (λ i. count (has_id i) before ≡ 0) e' no_before in
            let c : count (has_id j) after ≡ 0 =
              subst (λ i. count (has_id i) after ≡ 0) e' no_after in
            unfold count in ground (arith, count-append (has_id j) before (e ∷ after))
        | inr other ↦
            unfold count in
            ground (
              arith,
              count-append (has_id j) before (hit ∷ after),
              count-append (has_id j) before (e ∷ after),
              v.one_id j,
            )
      ];
      each =
          All-append (IsEntry n' (length metrics)) before (e ∷ after)
            (wider before (All-left (IsEntry n (length metrics)) before (hit ∷ after) v.each))
            (
              good,
              wider after (All-right (IsEntry n (length metrics)) before (hit ∷ after) v.each).1,
            );
      unused = λ i q. v.unused i (omega arith);
    }
  where
    wider :
        (es : List Entry)
        → All (IsEntry n (length metrics)) es
        → All (IsEntry n' (length metrics)) es
    wider es h =
        All-map (IsEntry n (length metrics)) (IsEntry n' (length metrics))
          (IsEntry-mono n n' (length metrics) (length metrics) le (omega arith)) es h

pub reread-IsEntry :
    (n m id : ℕ) (row : Row) (e : Entry)
    → IsEntry n m e
    → 1 ≤ id
    → id < n
    → id < m
    → IsEntry n m (record (reread row e) { id = id })
unfolding reread
reread-IsEntry n m id row e v one old counted = record {
  secret = v.secret;
  hex = v.hex;
  label = sanitize_label-IsLabel (some row.label);
  last_ip = elim (Bool-cases (length row.last_ip == 0)) [
    | inl none_new ↦ rw none_new v.last_ip
    | inr new ↦ rw new (sanitize_ip-IsIp (some row.last_ip))
  ];
  id_pos = one;
  id_old = old;
  id_counted = counted;
}

pub entry_from-IsEntry :
    (n m id : ℕ) (row : Row) (secret : List ℕ)
    → IsSecret secret
    → 1 ≤ id
    → id < n
    → id < m
    → IsEntry n m (entry_from row secret id)
unfolding entry_from
entry_from-IsEntry n m id row secret v one old counted = record {
  secret = v;
  hex = refl;
  label = sanitize_label-IsLabel (some row.label);
  last_ip = elim (Bool-cases (length row.last_ip == 0)) [
    | inl none_new ↦ rw none_new (unfold sanitize_ip in sanitize_ip-IsIp none)
    | inr new ↦ rw new (sanitize_ip-IsIp (some row.last_ip))
  ];
  id_pos = one;
  id_old = old;
  id_counted = counted;
}

-- The id that is restored with its counters is below the next one.
pub restore-IsValid :
    (row : Row) (id : ℕ) (s : Store)
    → Good s.entries s.cap (if leb s.next_id id then id + 1 else s.next_id) s.metrics
    → IsValid (restore_metric row id s)
unfolding restore_metric
restore-IsValid row id s v = count_if-Good v id (λ m. row.metric) (ground arith) row.counted
