-- ===== src/Secret/Load/Lines.antt =====
-- The invariant of the secret store under a line of the state file that names a secret.
use mtprotor.Base.{
  ◌<◌, ◌^◌, suc, ℕ, ◌+◌, ◌≤◌, ◌≡◌, refl, ap, sym, ◌∙◌, Bool, true, false, Option, not, ◌&&◌, none,
  some, List, [], ◌∷◌, ◌++◌, arith, length, All-right, ltb, leb, ◌==◌, if◌then◌else◌, modify,
  modify-append, Bool-cases, Option-cases, inl, inr, subst,
}
use mtprotor.Base.Int.{pos, pos_part, ltb_ℤ}
use mtprotor.Base.Search.{
  count, Found, find_index-Found, find_index-none, count-append, get_elem?-Found,
}
use mtprotor.Secret.Add.{has_secret, has_id, find_idx}
use mtprotor.Secret.Grow.{
  IsEntry-mono, count-new_id, cap-Good, metrics-Good, next-Good, insert-Good,
}
use mtprotor.Secret.Hex.{secret16_from_hex}
use mtprotor.Secret.Hex.Laws.{IsSecret, from_hex_sound}
use mtprotor.Secret.Load.{
  Step, next, stop, overflow, id_taken, free_id, reread, entry_from, restore_metric, apply_existing,
  apply_new, apply_row,
}
use mtprotor.Secret.Load.Columns.{Row}
use mtprotor.Secret.Reserve.{reserve, metrics_reserve}
use mtprotor.Secret.Reserve.Laws.{
  reserve-Reserved, metrics_reserve-MetricsReserved, cap_overflows-small,
}
use mtprotor.Secret.State.{Store, Env, Entry}
use mtprotor.Secret.Valid.{IsEntry, Good, IsValid}
use mtprotor.Secret.Load.Replace.{
  taken_none, taken_around, replace-Good, reread-IsEntry, entry_from-IsEntry, restore-IsValid,
}

-- A valid store whose next id is `m` at most.
abbrev pub ValidTo : ℕ → Store → Type 0
ValidTo m s = IsValid s × (s.next_id ≤ m)

-- The step comes back, with such a store.
abbrev pub StepValid : ℕ → Step → Type 0
StepValid m (next s) = ValidTo m s
StepValid m (stop s) = ValidTo m s
StepValid m overflow = ⊥

calloc-some :
    (env : Env) (id : ℕ) (s : Store)
    → env.calloc_ok ≡ true
    → (u : Store) × (metrics_reserve env id s ≡ some u)
unfolding metrics_reserve
calloc-some env id s ok = elim (Option-cases (metrics_reserve env id s)) [
  | inl refused ↦ absurd (ground arith)
  | inr found ↦ found
]

module _ (env : Env) (calloc_ok : env.calloc_ok ≡ true) (row : Row) (m : ℕ) (small : m < 2 ^ 30)
    (asks : pos_part row.parsed_id ≤ m) where
  -- The entry at `idx` gets the number `id`, which no other entry has.
  existing-Valid :
      (s : Store) (idx id : ℕ) (p : Entry → Bool) (found : Found p s.entries idx)
      → IsValid s
      → 1 ≤ id
      → count (has_id id) found.before ≡ 0
      → count (has_id id) found.after ≡ 0
      → (u : Store)
      → metrics_reserve env id
          (record s { entries = modify s.entries idx (λ a. record (reread row a) { id = id }) })
        ≡ some u
      → IsValid (restore_metric row id u)
  existing-Valid s idx id p found v one no_before no_after u e =
      let changed = record s {
        entries = modify s.entries idx (λ a. record (reread row a) { id = id });
      } in
      let g = metrics_reserve-MetricsReserved env id changed e in
      let entries : modify s.entries idx (λ a. record (reread row a) { id = id })
          ≡ found.before ++ (fresh ∷ found.after) =
        rw (found.whole, ← found.index)
          (modify-append found.before found.after found.hit
            (λ a. record (reread row a) { id = id })) in
      let grown = metrics-Good v u.metrics g.grown (λ i q. g.kept i) in
      let split : Good (found.before ++ (found.hit ∷ found.after)) s.cap s.next_id u.metrics =
        rw found.whole at grown in
      let good_hit =
        (All-right (IsEntry s.next_id (length u.metrics)) found.before (found.hit ∷ found.after)
          split.each).0 in
      let wide_hit =
        IsEntry-mono s.next_id above (length u.metrics) (length u.metrics) (ground arith)
          (omega arith) found.hit good_hit in
      let whole =
        replace-Good found.before found.after found.hit split (ground arith) fresh
          (unfold reread in refl) no_before no_after
          (reread-IsEntry above (length u.metrics) id row found.hit wide_hit one (ground arith)
            g.room) in
      subst (λ t. IsValid (restore_metric row id t)) (sym g.same)
        (restore-IsValid row id (record changed { metrics = u.metrics })
          (subst (λ es. Good es s.cap above u.metrics) (sym entries) whole))
    where
      fresh : Entry
      fresh = record (reread row found.hit) { id = id }

      above : ℕ
      above = if leb s.next_id id then id + 1 else s.next_id

  -- An entry that keeps its number is the only one with it.
  own_id :
      (s : Store) (idx : ℕ) (p : Entry → Bool) (found : Found p s.entries idx)
      → IsValid s
      → (count (has_id found.hit.id) found.before ≡ 0)
        × (count (has_id found.hit.id) found.after ≡ 0)
  unfolding count
  own_id s idx p found v =
      let one : count (has_id found.hit.id) (found.before ++ (found.hit ∷ found.after)) ≤ 1 =
        rw found.whole at (v.one_id found.hit.id) in
      let parts = count-append (has_id found.hit.id) found.before (found.hit ∷ found.after) in
      (ground (arith, one, parts), ground (arith, one, parts))

  free_id-other :
      (s : Store) (idx : ℕ) (p : Entry → Bool) (found : Found p s.entries idx)
      → ltb 0 (free_id (some idx) row.parsed_id s.entries) ≡ true
      → (count (has_id (free_id (some idx) row.parsed_id s.entries)) found.before ≡ 0)
        × (count (has_id (free_id (some idx) row.parsed_id s.entries)) found.after ≡ 0)
  unfolding free_id
  free_id-other s idx p found asked =
      elim (Bool-cases (
        ltb_ℤ (pos 0) row.parsed_id
        && not (id_taken (pos_part row.parsed_id) (some idx) 0 s.entries))) [
          | inr refused ↦ absurd (ground arith)
          | inl free ↦
              let unused : id_taken (pos_part row.parsed_id) (some idx) 0 s.entries ≡ false =
                ground arith in
              let not_taken : id_taken (pos_part row.parsed_id) (some idx) 0
                    (found.before ++ (found.hit ∷ found.after))
                  ≡ false =
                rw found.whole at unused in
              rw free (
                taken_around (pos_part row.parsed_id) 0 idx found.before found.after found.hit
                  (omega (arith, found.index)) not_taken)
        ]

  abbrev changed : Store → ℕ → ℕ → Store
  changed s idx id = record s {
    entries = modify s.entries idx (λ a. record (reread row a) { id = id });
  }

  free_id_le : (idx : Option ℕ) (es : List Entry) → free_id idx row.parsed_id es ≤ m
  unfolding free_id
  free_id_le idx es = ground arith

  restore_metric_next :
      (id : ℕ) (u : Store) → id ≤ m → u.next_id ≤ suc m → (restore_metric row id u).next_id ≤ suc m
  unfolding restore_metric
  restore_metric_next id u h k = ground arith

  apply_existing-Valid :
      (secret : List ℕ) (s : Store) (idx : ℕ)
      → find_idx secret s ≡ some idx
      → ValidTo m s
      → StepValid (suc m) (apply_existing env row idx s)
  unfolding apply_existing
  apply_existing-Valid secret s idx here (v, below) =
      let found = find_index-Found (has_secret secret) s.entries idx here in
      let get = get_elem?-Found (has_secret secret) s.entries idx found in
      let good =
        (All-right (IsEntry s.next_id (length s.metrics)) found.before (found.hit ∷ found.after)
          (rw found.whole at v.each)).0 in
      let own : (found.hit.id == 0) ≡ false = let p = good.id_pos in ground arith in
      elim (Bool-cases (ltb 0 (free_id (some idx) row.parsed_id s.entries))) [
        | inl asked ↦
            let id = free_id (some idx) row.parsed_id s.entries in
            let (u, e) = calloc-some env id (changed s idx id) calloc_ok in
            let (b, c) = free_id-other s idx (has_secret secret) found asked in
            let low = free_id_le (some idx) s.entries in
            let g = metrics_reserve-MetricsReserved env id (changed s idx id) e in
            rw
              (get, asked, cap_overflows-small id s.metrics (omega arith), e, asked, apply_existing)
              (
                existing-Valid s idx id (has_secret secret) found v (ground arith) b c u e,
                restore_metric_next id u low (ground (arith, ap (λ t. t.next_id) g.same)),
              )
        | inr not_asked ↦
            let id = found.hit.id in
            let (u, e) = calloc-some env id (changed s idx id) calloc_ok in
            let (b, c) = own_id s idx (has_secret secret) found v in
            let old = good.id_old in
            let g = metrics_reserve-MetricsReserved env id (changed s idx id) e in
            rw
              (
                get,
                not_asked,
                own,
                cap_overflows-small id s.metrics (omega arith),
                e,
                not_asked,
                own,
                apply_existing,
              )
              (
                existing-Valid s idx id (has_secret secret) found v good.id_pos b c u e,
                restore_metric_next id u (omega arith) (ground (arith, ap (λ t. t.next_id) g.same)),
              )
      ]

  free_id-new :
      (es : List Entry)
      → ltb 0 (free_id none row.parsed_id es) ≡ true
      → count (has_id (free_id none row.parsed_id es)) es ≡ 0
  unfolding free_id
  free_id-new es asked =
      elim (Bool-cases
        (ltb_ℤ (pos 0) row.parsed_id && not (id_taken (pos_part row.parsed_id) none 0 es))) [
          | inr refused ↦ absurd (ground arith)
          | inl free ↦ rw free (taken_none (pos_part row.parsed_id) 0 es (ground arith))
        ]

  -- A secret that is new gets the number `id`, below `n`, which no entry has.
  new-Valid :
      (secret : List ℕ) (s : Store) (cap n id : ℕ)
      → IsSecret secret
      → find_idx secret s ≡ none
      → IsValid s
      → length s.entries + 1 ≤ cap
      → s.cap ≤ cap
      → s.next_id ≤ n
      → 1 ≤ id
      → count (has_id id) s.entries ≡ 0
      → (u : Store) → metrics_reserve env id (record s { cap = cap; next_id = n }) ≡ some u
      → IsValid (
          restore_metric row id
            (record u { entries = u.entries ++ (entry_from row secret id ∷ []) }))
  new-Valid secret s cap n id ok absent v room grown le one other u e =
      let numbered = record s { cap = cap; next_id = n } in
      let g = metrics_reserve-MetricsReserved env id numbered e in
      let above : ℕ = if leb n id then id + 1 else n in
      let wide =
        next-Good (metrics-Good (cap-Good v cap grown) u.metrics g.grown (λ i q. g.kept i)) above
          (ground arith) in
      let whole =
        insert-Good wide (entry_from row secret id) room
          (unfold entry_from in find_index-none (has_secret secret) s.entries absent)
          (unfold entry_from in other)
          (entry_from-IsEntry above (length u.metrics) id row secret ok one (ground arith)
            g.room) in
      subst
        (λ t. IsValid (
          restore_metric row id
            (record t { entries = t.entries ++ (entry_from row secret id ∷ []) })))
        (sym g.same)
        (restore-IsValid row id
          (record numbered {
            metrics = u.metrics;
            entries = s.entries ++ (entry_from row secret id ∷ []);
          })
          whole)

  apply_new-Valid :
      (secret : List ℕ) (s : Store)
      → IsSecret secret
      → find_idx secret s ≡ none
      → ValidTo m s
      → StepValid (suc m) (apply_new env row secret s)
  unfolding apply_new
  apply_new-Valid secret s ok absent (v, below) =
      elim (Option-cases (reserve env (length s.entries + 1) s)) [
        | inl refused ↦ rw (refused, apply_new) (v, omega arith)
        | inr (t, e1) ↦
            let g = reserve-Reserved env (length s.entries + 1) s e1 in
            let e2 : reserve env (length s.entries + 1) s ≡ some (record s { cap = t.cap }) =
              e1 ∙ ap some g.same in
            elim (Bool-cases (ltb 0 (free_id none row.parsed_id s.entries))) [
              | inl asked ↦
                  let id = free_id none row.parsed_id s.entries in
                  let (u, e) =
                    calloc-some env id (record s { cap = t.cap; next_id = s.next_id }) calloc_ok in
                  let low = free_id_le none s.entries in
                  let k =
                    metrics_reserve-MetricsReserved env id
                      (record s { cap = t.cap; next_id = s.next_id }) e in
                  rw
                    (e2, asked, cap_overflows-small id s.metrics (omega arith), e, asked, apply_new)
                    (
                      new-Valid secret s t.cap s.next_id id ok absent v g.room g.grown (omega arith)
                          (ground arith) (free_id-new s.entries asked) u e,
                      restore_metric_next id
                          (record u { entries = u.entries ++ (entry_from row secret id ∷ []) }) low
                          (ground (arith, ap (λ t. t.next_id) k.same)),
                    )
              | inr not_asked ↦
                  let (u, e) =
                    calloc-some env s.next_id (record s { cap = t.cap; next_id = s.next_id + 1 })
                      calloc_ok in
                  let k =
                    metrics_reserve-MetricsReserved env s.next_id
                      (record s { cap = t.cap; next_id = s.next_id + 1 }) e in
                  rw
                    (
                      e2,
                      not_asked,
                      cap_overflows-small s.next_id s.metrics (omega arith),
                      e,
                      not_asked,
                      apply_new,
                    )
                    (
                      new-Valid secret s t.cap (s.next_id + 1) s.next_id ok absent v g.room g.grown
                          (omega arith) v.next_pos
                          (count-new_id s.next_id (length s.metrics) s.next_id s.entries v.each
                            (omega arith))
                          u e,
                      restore_metric_next s.next_id
                          (record u {
                            entries = u.entries ++ (entry_from row secret s.next_id ∷ []);
                          })
                          below (ground (arith, ap (λ t. t.next_id) k.same)),
                    )
            ]
      ]

  pub apply_row-Valid : (s : Store) → ValidTo m s → StepValid (suc m) (apply_row env row s)
  unfolding apply_row
  apply_row-Valid s (v, below) = elim (Option-cases (secret16_from_hex (some row.hex))) [
    | inl bad ↦ rw (bad, apply_row) (v, omega arith)
    | inr (secret, reads) ↦ elim (Option-cases (find_idx secret s)) [
      | inl absent ↦
          rw (reads, absent, apply_row)
            (apply_new-Valid secret s (from_hex_sound row.hex reads).0 absent (v, below))
      | inr (idx, here) ↦
          rw (reads, here, apply_row) (apply_existing-Valid secret s idx here (v, below))
    ]
  ]
