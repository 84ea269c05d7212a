-- ===== src/Secret/Steps.antt =====
-- The administration commands keep the invariant of the secret store.
use mtprotor.Base.{
  ℕ, ◌+◌, ◌≡◌, refl, sym, Bool, true, false, Option, none, some, List, [], ◌∷◌, ◌++◌, length,
  if◌then◌else◌, Option-cases, inl, inr, subst, modify, All-right,
}
use mtprotor.Base.Int.{ℤ}
use mtprotor.Base.Search.{find_index-none, find_index-Found, Found, get_elem?-Found}
use mtprotor.Secret.Add.{
  has_secret, find_idx, finish, refreshed, add_existing, fresh_entry, add_new, add_locked,
}
use mtprotor.Secret.Grow.{cap-Good, metrics-Good, append-Good}
use mtprotor.Secret.Hex.Laws.{IsSecret}
use mtprotor.Secret.Outcome.{Added, refused, stored, add_new-Added, add_existing_lem}
use mtprotor.Secret.Preserve.{persist-IsValid, refreshed-Keeps, fresh_entry-IsEntry}
use mtprotor.Secret.State.{Store, Env, Entry, Rc, failed}
use mtprotor.Secret.Valid.{IsEntry, IsValid, modify-Good}

pub finish-IsValid : (env : Env) (b : Bool) (s : Store) → IsValid s → IsValid (finish env b s).1
finish-IsValid env true s v = persist-IsValid env s v
finish-IsValid env false s v = v

-- The entry that a search finds satisfies what all entries do.
pub hit-IsEntry :
    (s : Store) (p : Entry → Bool) (i : ℕ) (v : IsValid s) (f : Found p s.entries i)
    → IsEntry s.next_id (length s.metrics) f.hit
hit-IsEntry s p i v f =
    (All-right (IsEntry s.next_id (length s.metrics)) f.before (f.hit ∷ f.after)
      (rw f.whole at v.each)).0

module _ (env : Env) (label : Option (List ℕ)) (t : ℤ) (b : Bool) where
  add_existing-IsValid :
      (secret : List ℕ) (idx : ℕ) (f p : Bool) (s : Store)
      → find_idx secret s ≡ some idx
      → IsValid s
      → IsValid (add_existing env idx label t b f p s).1
  add_existing-IsValid secret idx f p s here v =
      let found = find_index-Found (has_secret secret) s.entries idx here in
      let good = hit-IsEntry s (has_secret secret) idx v found in
      let whole =
        add_existing_lem env idx label t b f p s found.hit
          (get_elem?-Found (has_secret secret) s.entries idx found) good.id_pos in
      subst (λ r. IsValid r.1) (sym whole) (branch f)
    where
      changed : Store
      changed = record s { entries = modify s.entries idx (refreshed env label t b) }

      branch : (f : Bool) → IsValid (if f then (failed, s) else finish env p changed).1
      branch true = v
      branch false =
          finish-IsValid env p changed
            (modify-Good v idx (refreshed env label t b) (refreshed-Keeps env label t b))

  add_new-IsValid :
      (secret : List ℕ) (p : Bool) (s : Store)
      → IsSecret secret
      → find_idx secret s ≡ none
      → IsValid s
      → IsValid (add_new env secret label t b p s).1
  add_new-IsValid secret p s ok absent v = outcome (add_new-Added env secret label t b p s)
    where
      e : Entry
      e = fresh_entry env secret label t b s.next_id

      outcome : {r : Rc × Store} → Added env s (finish env p) e r → IsValid r.1
      outcome (refused size short grown same) =
          subst (λ r. IsValid r.1) (sym same) (cap-Good v size grown)
      outcome (stored size metrics fits grown counted more kept same) =
          subst (λ r. IsValid r.1) (sym same)
            (finish-IsValid env p
              (record s {
                entries = s.entries ++ (e ∷ []);
                cap = size;
                next_id = s.next_id + 1;
                metrics = metrics;
              })
              (append-Good (metrics-Good (cap-Good v size grown) metrics more (λ i q. kept i)) e
                fits (unfold fresh_entry in find_index-none (has_secret secret) s.entries absent)
                (unfold fresh_entry in refl)
                (fresh_entry-IsEntry env secret label t b s.next_id (length metrics) ok v.next_pos
                  counted)))

  -- ext_add_locked keeps the invariant, whatever fails.
  pub add_locked-IsValid :
      (secret : List ℕ) (f p : Bool) (s : Store)
      → IsSecret secret
      → IsValid s
      → IsValid (add_locked env secret label t b f p s).1
  unfolding add_locked
  add_locked-IsValid secret f p s ok v = elim (Option-cases (find_idx secret s)) [
    | inl absent ↦ rw (absent, add_locked) (add_new-IsValid secret p s ok absent v)
    | inr (idx, here) ↦ rw (here, add_locked) (add_existing-IsValid secret idx f p s here v)
  ]
