-- ===== src/Secret/Insert.antt =====
-- What ADD does to the entry of every secret, and what it returns.
use mtprotor.Base.{
  ℕ, ◌+◌, ◌≡◌, ◌≢◌, refl, ap, ◌∙◌, Bool, true, false, Option, none, some, List, [], ◌∷◌, ◌++◌,
  arith, if◌then◌else◌, Bool-cases, Option-cases, inl, inr, ◌⊎◌, subst, same_bytes, same_bytes_eq,
  ◌&&◌,
}
use mtprotor.Base.Int.{ℤ}
use mtprotor.Base.Search.{
  find?, find_index-none, find_index-Found, find?-Found, get_elem?-Found, find?-append,
}
use mtprotor.Secret.Add.{has_secret, find_idx, finish, add_new, add_locked, fresh_entry}
use mtprotor.Secret.Command.{cmd_add}
use mtprotor.Secret.Hex.{secret16_from_hex}
use mtprotor.Secret.Lookup.{entry_of}
use mtprotor.Secret.Outcome.{Added, refused, stored, add_new-Added, add_existing_lem}
use mtprotor.Secret.Persist.{persist, metric_of}
use mtprotor.Secret.Preserve.{persist_frame}
use mtprotor.Secret.State.{Store, Env, Entry, Rc, failed, zero_metric}
use mtprotor.Secret.Steps.{hit-IsEntry}
use mtprotor.Secret.Valid.{IsValid}

-- Adding a secret that is there already is refused, and nothing changes.
pub cmd_add_again :
    (env : Env) (hex label : Option (List ℕ)) (t : ℤ) (b : Bool) (k : List ℕ) (s : Store)
    → secret16_from_hex hex ≡ some k
    → entry_of k s ≢ none
    → IsValid s
    → cmd_add env hex label t b s ≡ (failed, s)
unfolding cmd_add add_locked
cmd_add_again env hex label t b k s reads there v = elim (Option-cases (find_idx k s)) [
  | inl absent ↦ absurd (there (find_index-none (has_secret k) s.entries absent))
  | inr (i, here) ↦
      let found = find_index-Found (has_secret k) s.entries i here in
      rw (reads, here, cmd_add, add_locked)
        (add_existing_lem env i label t b true true s found.hit
          (get_elem?-Found (has_secret k) s.entries i found)
          (hit-IsEntry s (has_secret k) i v found).id_pos)
]

-- The state after a new secret was stored.
pub record Stored (env : Env) (k : List ℕ) (label : Option (List ℕ)) (t : ℤ) (b : Bool)
    (s u : Store) : Type 0 where
  pub entries : u.entries ≡ s.entries ++ (fresh_entry env k label t b s.next_id ∷ [])
  pub next_id : u.next_id ≡ s.next_id + 1
  pub counters : (i : ℕ) → metric_of u.metrics i ≡ metric_of s.metrics i
  pub state_file : u.state_file ≡ s.state_file

-- Adding a secret that is not there: memory ran out, or the entry is stored and the result is that
-- of writing the state file.
pub add_new_cases :
    (env : Env) (k : List ℕ) (label : Option (List ℕ)) (t : ℤ) (b : Bool) (s : Store)
    → (((env.realloc_ok && env.calloc_ok) ≡ false)
        × ((add_new env k label t b true s).0 ≡ failed)
        × ((add_new env k label t b true s).1.entries ≡ s.entries))
      ⊎ ((u : Store) × Stored env k label t b s u
          × (add_new env k label t b true s ≡ persist env u))
add_new_cases env k label t b s = outcome (add_new-Added env k label t b true s)
  where
    outcome :
        {r : Rc × Store}
        → Added env s (finish env true) (fresh_entry env k label t b s.next_id) r
        → (((env.realloc_ok && env.calloc_ok) ≡ false) × (r.0 ≡ failed) × (r.1.entries ≡ s.entries))
          ⊎ ((u : Store) × Stored env k label t b s u × (r ≡ persist env u))
    outcome (refused size short grown same) =
        inl (short, ap (λ r. r.0) same, ap (λ r. r.1.entries) same)
    outcome (stored size metrics fits grown counted more kept same) = inr (
      record s {
        entries = s.entries ++ (fresh_entry env k label t b s.next_id ∷ []);
        cap = size;
        next_id = s.next_id + 1;
        metrics = metrics;
      },
      record { entries = refl; next_id = refl; counters = kept; state_file = refl },
      same,
    )

find?-fresh :
    (env : Env) (k j : List ℕ) (label : Option (List ℕ)) (t : ℤ) (b : Bool) (n : ℕ)
    (es : List Entry)
    → find? (has_secret k) es ≡ none
    → find? (has_secret j) (es ++ (fresh_entry env k label t b n ∷ []))
      ≡ (if same_bytes k j then some (fresh_entry env k label t b n) else find? (has_secret j) es)
unfolding find? fresh_entry
find?-fresh env k j label t b n es absent = elim (Bool-cases (same_bytes k j)) [
  | inl same ↦
      let nothing : find? (has_secret j) es ≡ none =
        subst (λ q. find? (has_secret q) es ≡ none) (same_bytes_eq k j same) absent in
      rw (same, find?-append (has_secret j) es (fresh_entry env k label t b n ∷ []), nothing)
        (ground arith)
  | inr other ↦ ground (arith, find?-append (has_secret j) es (fresh_entry env k label t b n ∷ []))
]

module _ (env : Env) (hex label : Option (List ℕ)) (t : ℤ) (b : Bool) (k : List ℕ) (s : Store)
    (reads : secret16_from_hex hex ≡ some k) (new : entry_of k s ≡ none) where
  no_index : find_idx k s ≡ none
  no_index = elim (Option-cases (find_idx k s)) [
    | inl absent ↦ absent
    | inr (i, here) ↦
        let found = find_index-Found (has_secret k) s.entries i here in
        let there : entry_of k s ≡ some found.hit = find?-Found (has_secret k) s.entries i found in
        cc
  ]

  adds : cmd_add env hex label t b s ≡ add_new env k label t b true s
  unfolding cmd_add add_locked
  adds = rw (reads, no_index, cmd_add, add_locked) refl

  pub cmd_add_lem :
      env.realloc_ok ≡ true
      → env.calloc_ok ≡ true
      → IsValid s
      → (u : Store) × ((cmd_add env hex label t b s).0 ≡ (persist env u).0)
        × ((j : List ℕ)
            → entry_of j (cmd_add env hex label t b s).1 ≡ (
                if same_bytes k j
                then some (fresh_entry env k label t b s.next_id)
                else entry_of j s))
        × (metric_of (cmd_add env hex label t b s).1.metrics s.next_id ≡ zero_metric)
        × ((cmd_add env hex label t b s).1.next_id ≡ s.next_id + 1)
        × (u.state_file ≡ s.state_file)
  cmd_add_lem r c v = rw adds (elim (add_new_cases env k label t b s) [
    | inl (short, _, _) ↦ absurd (ground arith)
    | inr (u, st, same) ↦
        let frame = persist_frame env u in
        (
          u,
          ap (λ x. x.0) same,
          λ j.
              ap (λ x. entry_of j x.1) same
              ∙ ap (entry_of j) frame
              ∙ ap (find? (has_secret j)) st.entries
              ∙ find?-fresh env k j label t b s.next_id s.entries new,
          ap (λ x. metric_of x.1.metrics s.next_id) same
              ∙ ap (λ x. metric_of x.metrics s.next_id) frame
              ∙ st.counters s.next_id
              ∙ v.unused s.next_id (omega arith),
          ap (λ x. x.1.next_id) same ∙ ap (λ x. x.next_id) frame ∙ st.next_id,
          st.state_file,
        )
  ])
