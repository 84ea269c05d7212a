-- ===== src/Secret/Load/Restore.antt =====
-- The line of an entry that is not there yet.
use mtprotor.Base.{
  ℕ, zero, suc, ◌+◌, ◌≤◌, ◌<◌, ◌≡◌, ◌≢◌, refl, ap, ◌∙◌, true, false, none, some, List, [], ◌∷◌,
  ◌++◌, ltb, ◌==◌, if◌then◌else◌, All, All-append, length, arith, Option-cases, inl, inr, modify,
  get_elem?, get_elem?-modify_self,
}
use mtprotor.Base.Int.{ℤ, pos, negsuc, pos_part, ltb_ℤ}
use mtprotor.Base.Search.{count, find_index, find_index-eq-none}
use mtprotor.Secret.Add.{has_secret, has_id, find_idx}
use mtprotor.Secret.Grow.{metric_of-modify}
use mtprotor.Secret.Hex.{secret16_from_hex}
use mtprotor.Secret.Hex.Laws.{from_hex-to_hex}
use mtprotor.Secret.Load.{next, id_taken, free_id, entry_from, restore_metric, apply_new, apply_row}
use mtprotor.Secret.Load.Columns.{Row}
use mtprotor.Secret.Load.Reading.{InRange, row_of}
use mtprotor.Secret.Persist.{metric_of}
use mtprotor.Secret.Reserve.{reserve, metrics_reserve, cap_overflows}
use mtprotor.Secret.Reserve.Laws.{
  reserve-Reserved, metrics_reserve-MetricsReserved, cap_overflows-small,
}
use mtprotor.Secret.State.{Store, Env, Entry, Metric}
use mtprotor.Secret.Text.{sanitize_ip}
use mtprotor.Secret.Text.Clean.{sanitize_label_fixed, sanitize_ip_fixed}
use mtprotor.Secret.Valid.{IsEntry}

-- The entry has the counters that it has in `s`.
abbrev pub SameMetric : List Metric → List Metric → Entry → Type 0
SameMetric old metrics e = metric_of metrics e.id ≡ metric_of old e.id

-- What has been read back of a store with the next id `n` and the counters `old`.
pub record Restored (n : ℕ) (old : List Metric) (es : List Entry) (t : Store) : Type 0 where
  pub entries : t.entries ≡ es
  pub next_id : t.next_id ≡ n
  pub metrics : All (SameMetric old t.metrics) es

no_clash : (id : ℕ) (es : List Entry) → count (has_id id) es ≡ 0 → All (λ e. id ≢ e.id) es
unfolding count
no_clash id [] h = tt
no_clash id (e ∷ es) h = (λ same. ground (arith, same), no_clash id es (ground arith))

not_taken : (id i : ℕ) (es : List Entry) → count (has_id id) es ≡ 0 → id_taken id none i es ≡ false
unfolding id_taken count
not_taken id i [] h = refl
not_taken id i (e ∷ es) h = ground (arith, not_taken id (i + 1) es)

asked_id :
    (id : ℕ) (es : List Entry) → 1 ≤ id → count (has_id id) es ≡ 0 → free_id none (pos id) es ≡ id
unfolding free_id
asked_id id es one h = ground (arith, not_taken id 0 es h)

get_elem?_in :
    {A : Type 0} (xs : List A) (i : ℕ) → i < length xs → (a : A) × (get_elem? xs i ≡ some a)
get_elem?_in [] i h = absurd (omega arith)
get_elem?_in (x ∷ xs) zero h = (x, refl)
get_elem?_in (x ∷ xs) (suc i) h = get_elem?_in xs i (omega arith)

metric_of-modify_self :
    (ms : List Metric) (i : ℕ) (m : Metric)
    → 1 ≤ i
    → i < length ms
    → metric_of (modify ms i (λ a. m)) i ≡ m
unfolding metric_of
metric_of-modify_self ms i m one h =
    let (a, is) = get_elem?_in ms i h in
    let there : ltb 0 i ≡ true = ground arith in
    rw (there, get_elem?-modify_self ms i (λ b. m) a is, metric_of) refl

-- The entry that is made from its own line.
entry_from_lem :
    (n counters : ℕ) (m : Metric) (e : Entry)
    → IsEntry n counters e
    → InRange m e
    → entry_from (row_of m e) e.secret e.id ≡ e
unfolding entry_from
entry_from_lem n counters m e v r =
    rw (sanitize_label_fixed e.label v.label, ← v.hex, seen e.last_seen_at r.not_before_0, ip) refl
  where
    seen : (z : ℤ) → pos (pos_part z) ≡ z → (if ltb_ℤ (pos 0) z then z else pos 0) ≡ z
    seen (pos zero) h = refl
    seen (pos (suc k)) h = ground arith
    seen (negsuc k) h = ground (arith, h)

    empty :
        (s : List ℕ)
        → sanitize_ip (some s) ≡ s
        → (if length s == 0 then [] else sanitize_ip (some s)) ≡ s
    empty [] h = refl
    empty (c ∷ s) h = ground (arith, h)

    ip : (if length e.last_ip == 0 then [] else sanitize_ip (some e.last_ip)) ≡ e.last_ip
    ip = empty e.last_ip (sanitize_ip_fixed e.last_ip v.last_ip)

-- A line for a new secret whose id is free, where the room is there.
apply_row-new :
    (env : Env) (row : Row) (secret : List ℕ) (t u : Store) (c id : ℕ)
    → secret16_from_hex (some row.hex) ≡ some secret
    → find_idx secret t ≡ none
    → reserve env (length t.entries + 1) t ≡ some (record t { cap = c })
    → free_id none row.parsed_id t.entries ≡ id
    → ltb 0 id ≡ true
    → cap_overflows id t.metrics ≡ false
    → metrics_reserve env id (record t { cap = c }) ≡ some u
    → apply_row env row t
      ≡ next (
          restore_metric row id
            (record u { entries = u.entries ++ (entry_from row secret id ∷ []) }))
unfolding apply_row apply_new
apply_row-new env row secret t u c id reads absent room asked positive fits counters =
    rw (apply_row, reads, absent, apply_new, room, asked, positive, fits, counters, asked, positive)
      refl

module _ (env : Env) (realloc_ok : env.realloc_ok ≡ true) (calloc_ok : env.calloc_ok ≡ true) where
  reserve-some : (want : ℕ) (s : Store) → (t : Store) × (reserve env want s ≡ some t)
  unfolding reserve
  reserve-some want s = elim (Option-cases (reserve env want s)) [
    | inl refused ↦ absurd (ground (arith, realloc_ok))
    | inr given ↦ given
  ]

  metrics_reserve-some : (id : ℕ) (s : Store) → (t : Store) × (metrics_reserve env id s ≡ some t)
  unfolding metrics_reserve
  metrics_reserve-some id s = elim (Option-cases (metrics_reserve env id s)) [
    | inl refused ↦ absurd (ground (arith, calloc_ok))
    | inr given ↦ given
  ]

  module _ (n : ℕ) (old : List Metric) (counters : ℕ) (es : List Entry) (e : Entry)
      (v : IsEntry n counters e) (r : InRange (metric_of old e.id) e)
      (new_secret : count (has_secret e.secret) es ≡ 0) (new_id : count (has_id e.id) es ≡ 0) where
    abbrev row : Row
    row = row_of (metric_of old e.id) e

    -- The counters were made room for, and the entry is added.
    added-Restored :
        (t u : Store) (c : ℕ)
        → Restored n old es t
        → u ≡ record t { cap = c; metrics = u.metrics }
        → e.id < length u.metrics
        → ((i : ℕ) → metric_of u.metrics i ≡ metric_of t.metrics i)
        → Restored n old (es ++ (e ∷ [])) (
            restore_metric row e.id
              (record u { entries = u.entries ++ (entry_from row e.secret e.id ∷ []) }))
    unfolding restore_metric
    added-Restored t u c before same room kept = record {
      entries =
          rw
            (
              ap (λ s. s.entries) same,
              before.entries,
              entry_from_lem n counters (metric_of old e.id) e v r,
            )
            refl;
      next_id =
          let next_is : u.next_id ≡ n = ap (λ s. s.next_id) same ∙ before.next_id in
          let below = v.id_old in ground (arith, next_is);
      metrics =
          All-append (SameMetric old changed) es (e ∷ [])
            (others es before.metrics (no_clash e.id es new_id))
            (metric_of-modify_self u.metrics e.id (metric_of old e.id) v.id_pos room, tt);
    }
      where
        changed : List Metric
        changed = modify u.metrics e.id (λ m. metric_of old e.id)

        others :
            (bs : List Entry)
            → All (SameMetric old t.metrics) bs
            → All (λ a. e.id ≢ a.id) bs
            → All (SameMetric old changed) bs
        others [] h k = tt
        others (a ∷ bs) (h, hs) (k, ks) = (
          metric_of-modify u.metrics e.id a.id (λ m. metric_of old e.id) k ∙ kept a.id ∙ h,
          others bs hs ks,
        )

    pub apply_row-Restored :
        (t : Store)
        → Restored n old es t
        → (u : Store) × (apply_row env row t ≡ next u) × Restored n old (es ++ (e ∷ [])) u
    apply_row-Restored t before =
        let reads : secret16_from_hex (some e.hex) ≡ some e.secret =
          ap (λ h. secret16_from_hex (some h)) v.hex ∙ from_hex-to_hex e.secret v.secret in
        let absent : find_idx e.secret t ≡ none =
          ap (find_index (has_secret e.secret)) before.entries
          ∙ find_index-eq-none (has_secret e.secret) es new_secret in
        let asked : free_id none (pos e.id) t.entries ≡ e.id =
          ap (free_id none (pos e.id)) before.entries ∙ asked_id e.id es v.id_pos new_id in
        let positive : ltb 0 e.id ≡ true = let p = v.id_pos in ground arith in
        let (a, e1) = reserve-some (length t.entries + 1) t in
        let g1 = reserve-Reserved env (length t.entries + 1) t e1 in
        let e2 : reserve env (length t.entries + 1) t ≡ some (record t { cap = a.cap }) =
          e1 ∙ ap some g1.same in
        let (u, e3) = metrics_reserve-some e.id (record t { cap = a.cap }) in
        let g = metrics_reserve-MetricsReserved env e.id (record t { cap = a.cap }) e3 in
        (
          restore_metric row e.id
              (record u { entries = u.entries ++ (entry_from row e.secret e.id ∷ []) }),
          apply_row-new env row e.secret t u a.cap e.id reads absent e2 asked positive
              (cap_overflows-small e.id t.metrics r.id) e3,
          added-Restored t u a.cap before g.same g.room (λ i. g.kept i),
        )
