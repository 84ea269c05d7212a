-- ===== src/Secret/Outcome.antt =====
-- What ext_add_locked can do, case by case.
use mtprotor.Base.{
  ℕ, ◌+◌, ◌≤◌, ◌<◌, ◌≡◌, refl, ap, ◌∙◌, Bool, false, Option, none, some, List, [], ◌∷◌, ◌++◌, arith,
  length, if◌then◌else◌, Option-cases, inl, inr, modify, get_elem?, ◌&&◌,
}
use mtprotor.Base.Int.{ℤ}
use mtprotor.Secret.Add.{finish, refreshed, assign_id, add_existing, fresh_entry, add_new}
use mtprotor.Secret.Persist.{metric_of}
use mtprotor.Secret.Reserve.{reserve, metrics_reserve}
use mtprotor.Secret.Reserve.Laws.{reserve-Reserved, metrics_reserve-MetricsReserved}
use mtprotor.Secret.State.{Store, Env, Entry, Metric, Rc, failed}

-- Adding a secret that is not there: out of memory, with at most a larger array, or stored.
pub data Added (env : Env) (s : Store) (store : Store → Rc × Store) (e : Entry) (r : Rc × Store)
    : Type 0 where
  refused :
      (cap : ℕ)
      → (env.realloc_ok && env.calloc_ok) ≡ false
      → s.cap ≤ cap
      → r ≡ (failed, record s { cap = cap })
      → Added env s store e r
  stored :
      (cap : ℕ) (metrics : List Metric)
      → length s.entries + 1 ≤ cap
      → s.cap ≤ cap
      → s.next_id < length metrics
      → length s.metrics ≤ length metrics
      → ((i : ℕ) → metric_of metrics i ≡ metric_of s.metrics i)
      → r
        ≡ store (record s {
          entries = s.entries ++ (e ∷ []);
          cap = cap;
          next_id = s.next_id + 1;
          metrics = metrics;
        })
      → Added env s store e r

module _ (env : Env) (secret : List ℕ) (label : Option (List ℕ)) (t : ℤ) (b p : Bool)
    (s : Store) where
  abbrev wide : ℕ → Store
  wide cap = record s { cap = cap }

  abbrev full : ℕ → List Metric → Store
  full cap metrics = record s { cap = cap; metrics = metrics }

  abbrev Outcome : Type 0
  Outcome =
      Added env s (finish env p) (fresh_entry env secret label t b s.next_id)
        (add_new env secret label t b p s)

  reserve_refused :
      reserve env (length s.entries + 1) s ≡ none → (env.realloc_ok && env.calloc_ok) ≡ false
  unfolding reserve
  reserve_refused e = ground arith

  metrics_refused :
      (id : ℕ) (u : Store)
      → metrics_reserve env id u ≡ none
      → (env.realloc_ok && env.calloc_ok) ≡ false
  unfolding metrics_reserve
  metrics_refused id u e = ground arith

  with_room :
      (cap : ℕ)
      → reserve env (length s.entries + 1) s ≡ some (wide cap)
      → length s.entries + 1 ≤ cap
      → s.cap ≤ cap
      → Outcome
  unfolding add_new
  with_room cap e1 fits grown = elim (Option-cases (metrics_reserve env s.next_id (wide cap))) [
    | inl e2 ↦
        refused cap (metrics_refused s.next_id (wide cap) e2) grown (rw (e1, e2, add_new) refl)
    | inr (u, e2) ↦
        let g = metrics_reserve-MetricsReserved env s.next_id (wide cap) e2 in
        let e3 : metrics_reserve env s.next_id (wide cap) ≡ some (full cap u.metrics) =
          e2 ∙ ap some g.same in
        stored cap u.metrics fits grown g.room g.grown g.kept (rw (e1, e3, add_new) refl)
  ]

  pub add_new-Added : Outcome
  unfolding add_new
  add_new-Added = elim (Option-cases (reserve env (length s.entries + 1) s)) [
    | inl e1 ↦ refused s.cap (reserve_refused e1) (omega arith) (rw (e1, add_new) refl)
    | inr (s1, e1) ↦
        let g = reserve-Reserved env (length s.entries + 1) s e1 in
        with_room s1.cap (e1 ∙ ap some g.same) g.room g.grown
  ]

-- Adding a secret whose entry has an id: an error if that is asked for, and rewritten otherwise.
pub add_existing_lem :
    (env : Env) (idx : ℕ) (label : Option (List ℕ)) (t : ℤ) (b f p : Bool) (s : Store) (e : Entry)
    → get_elem? s.entries idx ≡ some e
    → 1 ≤ e.id
    → add_existing env idx label t b f p s ≡ (
        if f
        then (failed, s)
        else finish env p (record s { entries = modify s.entries idx (refreshed env label t b) }))
unfolding add_existing assign_id
add_existing_lem env idx label t b f p s e here has_id =
    let e1 : assign_id env idx s ≡ some s = ground arith in rw (e1, add_existing) refl
