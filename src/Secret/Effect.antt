-- ===== src/Secret/Effect.antt =====
-- What each administration command does to the entry of every secret, and which result it returns.
use mtprotor.Base.{
  ℕ, zero, suc, [], ◌≡◌, ◌≢◌, refl, ap, sym, ◌∙◌, ◌↔◌, Bool, Option, none, some, List, arith,
  if◌then◌else◌, Bool-cases, Option-cases, inl, inr, subst, modify, same_bytes, same_bytes_eq,
}
use mathlib.Core.Option
use mtprotor.Base.Int.{ℤ, pos, negsuc}
use mtprotor.Base.Search.{find?, find_index-none, find_index-Found, find?-Found}
use mtprotor.Base.Remove.{swap_remove}
use mtprotor.Secret.Add.{has_secret, find_idx}
use mtprotor.Secret.Command.{at_secret, cmd_remove, switched, cmd_set_enabled, updated, cmd_update}
use mtprotor.Secret.Hex.{secret16_from_hex}
use mtprotor.Secret.Lookup.{entry_of, find?-modify, find?-remove}
use mtprotor.Secret.Persist.{persist}
use mtprotor.Secret.Preserve.{persist_frame, switched-Keeps, updated-Keeps}
use mtprotor.Secret.State.{Store, Env, Entry, not_found}
use mtprotor.Secret.Text.{clean, sanitize_label}
use mtprotor.Secret.Valid.{IsValid}

persist-entry_of :
    (env : Env) (j : List ℕ) (s : Store) → entry_of j (persist env s).1 ≡ entry_of j s
persist-entry_of env j s = ap (entry_of j) (persist_frame env s)

persist-ne-not_found : (env : Env) (s : Store) → (persist env s).0 ≢ not_found
unfolding persist
persist-ne-not_found env s = ground arith

at_secret-entry_of :
    (env : Env) (hex : Option (List ℕ)) (k j : List ℕ) (s : Store)
    (change : ℕ → List Entry → List Entry) (g : Option Entry → Option Entry)
    → secret16_from_hex hex ≡ some k
    → g none ≡ none
    → ((i : ℕ)
        → find_idx k s ≡ some i
        → find? (has_secret j) (change i s.entries)
          ≡ (if same_bytes k j then g (entry_of j s) else entry_of j s))
    → entry_of j (at_secret env hex change s).1
      ≡ (if same_bytes k j then g (entry_of j s) else entry_of j s)
unfolding at_secret
at_secret-entry_of env hex k j s change g e strict effect = elim (Option-cases (find_idx k s)) [
  | inl absent ↦
      rw (e, absent, at_secret)
        (elim (Bool-cases (same_bytes k j)) [
          | inl same ↦
              let nothing : entry_of j s ≡ none =
                subst (λ t. entry_of t s ≡ none) (same_bytes_eq k j same)
                  (find_index-none (has_secret k) s.entries absent) in
              rw (same, nothing) (sym strict)
          | inr other ↦ rw other refl
        ])
  | inr (i, here) ↦
      rw (e, here, at_secret)
        (persist-entry_of env j (record s { entries = change i s.entries }) ∙ effect i here)
]

-- A secret is reported as not found exactly when the store has no entry for it.
at_secret-not_found :
    (env : Env) (hex : Option (List ℕ)) (k : List ℕ) (s : Store)
    (change : ℕ → List Entry → List Entry)
    → secret16_from_hex hex ≡ some k
    → ((at_secret env hex change s).0 ≡ not_found) ↔ (entry_of k s ≡ none)
unfolding at_secret
at_secret-not_found env hex k s change e = elim (Option-cases (find_idx k s)) [
  | inl absent ↦
      rw (e, absent, at_secret) (λ h. find_index-none (has_secret k) s.entries absent, λ h. refl)
  | inr (i, here) ↦
      let found = find_index-Found (has_secret k) s.entries i here in
      let there = find?-Found (has_secret k) s.entries i found in
      rw (e, here, at_secret)
        (
          λ h. absurd (persist-ne-not_found env (record s { entries = change i s.entries }) h),
          λ h. absurd (some_is_not_none (sym there ∙ h)),
        )
]
  where
    some_is_not_none : {a : Entry} → some a ≡ none → ⊥
    some_is_not_none h = cc

-- An entry that was enabled or disabled at a time.
abbrev pub after_switch : ℤ → Bool → Entry → Entry
after_switch now b e = record e { enabled = b; updated_at = now }

-- The fields that a request may have, where it has them and where it has not. A label may be NULL.
abbrev pub label_after : Option (Option (List ℕ)) → List ℕ → List ℕ
label_after none old = old
label_after (some none) old = []
label_after (some (some text)) old = sanitize_label (some text)

abbrev pub expires_after : Option ℤ → ℤ → ℤ
expires_after none old = old
expires_after (some (pos n)) old = pos n
expires_after (some (negsuc n)) old = pos 0

abbrev pub enabled_after : Option Bool → Bool → Bool
enabled_after none old = old
enabled_after (some b) old = b

-- An entry that was patched at a time.
abbrev pub after_patch : ℤ → Option (Option (List ℕ)) → Option ℤ → Option Bool → Entry → Entry
after_patch now label t b e = record {
  secret = e.secret;
  hex = e.hex;
  label = label_after label e.label;
  last_ip = e.last_ip;
  id = e.id;
  enabled = enabled_after b e.enabled;
  created_at = e.created_at;
  updated_at = now;
  expires_at = expires_after t e.expires_at;
  last_seen_at = e.last_seen_at;
}

updated_lem :
    (env : Env) (label : Option (Option (List ℕ))) (t : Option ℤ) (b : Option Bool) (e : Entry)
    → updated env label t b e ≡ after_patch env.now label t b e
unfolding updated clean
updated_lem env label t b e = rw (label_lem label, expires_lem t, enabled_lem b) refl
  where
    label_lem :
        (label : Option (Option (List ℕ)))
        → (updated env label t b e).label ≡ label_after label e.label
    label_lem none = refl
    label_lem (some none) = unfold sanitize_label in refl
    label_lem (some (some text)) = refl

    expires_lem :
        (t : Option ℤ) → (updated env label t b e).expires_at ≡ expires_after t e.expires_at
    expires_lem none = refl
    expires_lem (some (pos zero)) = refl
    expires_lem (some (pos (suc n))) = ground arith
    expires_lem (some (negsuc n)) = ground arith

    enabled_lem : (b : Option Bool) → (updated env label t b e).enabled ≡ enabled_after b e.enabled
    enabled_lem none = refl
    enabled_lem (some b) = refl

map-updated :
    (env : Env) (label : Option (Option (List ℕ))) (t : Option ℤ) (b : Option Bool)
    (o : Option Entry)
    → Option.map (updated env label t b) o ≡ Option.map (after_patch env.now label t b) o
map-updated env label t b none = refl
map-updated env label t b (some e) = ap some (updated_lem env label t b e)

module _ (env : Env) (hex : Option (List ℕ)) (k : List ℕ) (s : Store)
    (reads : secret16_from_hex hex ≡ some k) where
  -- REMOVE takes away the entry of its secret and of no other, also where the state file cannot be
  -- written; it answers "not found" exactly when there was no entry.
  pub cmd_remove_lem :
      IsValid s
      → ((j : List ℕ)
          → entry_of j (cmd_remove env hex s).1 ≡ (if same_bytes k j then none else entry_of j s))
        × (((cmd_remove env hex s).0 ≡ not_found) ↔ (entry_of k s ≡ none))
  unfolding cmd_remove
  cmd_remove_lem v = (
    λ j.
        at_secret-entry_of env hex k j s (λ i es. swap_remove es i) (λ o. none) reads refl
          (find?-remove v k j),
    at_secret-not_found env hex k s (λ i es. swap_remove es i) reads,
  )

  -- ENABLE and DISABLE set the flag of their secret's entry to what is asked and the time of its update
  -- to the clock, and change nothing else of it and no other entry; they answer "not found" exactly
  -- when there is no entry.
  pub cmd_set_enabled_lem :
      (b : Bool)
      → ((j : List ℕ)
          → entry_of j (cmd_set_enabled env hex b s).1 ≡ (
              if same_bytes k j
              then Option.map (after_switch env.now b) (entry_of j s)
              else entry_of j s))
        × (((cmd_set_enabled env hex b s).0 ≡ not_found) ↔ (entry_of k s ≡ none))
  unfolding cmd_set_enabled switched
  cmd_set_enabled_lem b = (
    λ j.
        at_secret-entry_of env hex k j s (λ i es. modify es i (switched env b))
          (Option.map (switched env b)) reads refl
          (λ i here. find?-modify k j (switched env b) (switched-Keeps env b) s.entries i here),
    at_secret-not_found env hex k s (λ i es. modify es i (switched env b)) reads,
  )

  -- PATCH stores the label, cleaned up, the end, 0 where it is negative, and the flag of the request in
  -- its secret's entry, keeps those of these that the request does not have, sets the time of the
  -- update to the clock, and changes nothing else of the entry and no other entry; it answers
  -- "not found" exactly when there is no entry.
  pub cmd_update_lem :
      (label : Option (Option (List ℕ))) (t : Option ℤ) (b : Option Bool)
      → ((j : List ℕ)
          → entry_of j (cmd_update env hex label t b s).1 ≡ (
              if same_bytes k j
              then Option.map (after_patch env.now label t b) (entry_of j s)
              else entry_of j s))
        × (((cmd_update env hex label t b s).0 ≡ not_found) ↔ (entry_of k s ≡ none))
  unfolding cmd_update
  cmd_update_lem label t b = (
    λ j.
        at_secret-entry_of env hex k j s (λ i es. modify es i (updated env label t b))
          (Option.map (updated env label t b)) reads refl
          (λ i here.
            find?-modify k j (updated env label t b) (updated-Keeps env label t b) s.entries i here)
        ∙ ap (λ o. if same_bytes k j then o else entry_of j s)
            (map-updated env label t b (entry_of j s)),
    at_secret-not_found env hex k s (λ i es. modify es i (updated env label t b)) reads,
  )
