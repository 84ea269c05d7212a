-- ===== src/Secret/Lookup.antt =====
-- The secret store seen as a map from secrets to entries: what each command does to every key.
use mtprotor.Base.{
  ℕ, suc, ◌+◌, ◌≡◌, ap, sym, ◌∙◌, Bool, true, false, Option, none, some, List, [], ◌∷◌, arith,
  if◌then◌else◌, Bool-cases, Option-cases, inl, inr, subst, modify, same_bytes, same_bytes_eq,
}
use mathlib.Core.Option
use mtprotor.Base.Search.{
  count, find?, find_index, find_index-Found, Found, count-append, find?-eq-none,
}
use mtprotor.Base.Remove.{swap_remove, swap_remove-Found, Removed, find?-Removed, count-Removed}
use mtprotor.Secret.Add.{has_secret}
use mtprotor.Secret.State.{Store, Entry, Metric}
use mtprotor.Secret.Valid.{Good, Keeps, secret_test}

-- The entry of a secret.
abbrev pub entry_of : List ℕ → Store → Option Entry
entry_of k s = find? (has_secret k) s.entries

-- At most one secret is the one that is asked for.
pub test_at : (k j : List ℕ) (e : Entry) → has_secret k e ≡ true → has_secret j e ≡ same_bytes k j
test_at k j e h = ap (λ t. same_bytes t j) (same_bytes_eq e.secret k h)

pub test_miss :
    (k j : List ℕ) (e : Entry)
    → has_secret k e ≡ false
    → has_secret j e ≡ true
    → same_bytes k j ≡ false
test_miss k j e miss hit = elim (Bool-cases (same_bytes k j)) [
  | inl same ↦
      let hit' : has_secret k e ≡ true =
        subst (λ t. has_secret t e ≡ true) (sym (same_bytes_eq k j same)) hit in
      cc
  | inr other ↦ other
]

pub count-hit :
    (q : Entry → Bool) (e : Entry) (es : List Entry)
    → q e ≡ true
    → count q (e ∷ es) ≡ suc (count q es)
unfolding count
count-hit q e es h = rw h

pub find?-modify :
    (k j : List ℕ) (f : Entry → Entry) (keep : Keeps f) (es : List Entry) (i : ℕ)
    → find_index (has_secret k) es ≡ some i
    → find? (has_secret j) (modify es i f)
      ≡ (if same_bytes k j then Option.map f (find? (has_secret j) es) else find? (has_secret j) es)
unfolding find? find_index
find?-modify k j f keep [] i h = cc
find?-modify k j f keep (e ∷ es) i h = elim (Bool-cases (has_secret k e)) [
  | inl hit ↦
      let z : 0 ≡ i = ground arith in
      rw (← z, secret_test keep j e) (ground (arith, test_at k j e hit))
  | inr miss ↦ elim (Option-cases (find_index (has_secret k) es)) [
    | inl no_more ↦ cc
    | inr (n, here) ↦
        let z : suc n ≡ i = ground arith in
        rw (← z) (ground (arith, find?-modify k j f keep es n here, test_miss k j e))
  ]
]

module _ {es : List Entry} {room next : ℕ} {metrics : List Metric}
    (v : Good es room next metrics) where
  pub find?-remove :
      (k j : List ℕ) (i : ℕ)
      → find_index (has_secret k) es ≡ some i
      → find? (has_secret j) (swap_remove es i)
        ≡ (if same_bytes k j then none else find? (has_secret j) es)
  find?-remove k j i h = elim (Bool-cases (same_bytes k j)) [
    | inl same ↦
        let hits : has_secret j found.hit ≡ true = test_at k j found.hit found.passes ∙ same in
        rw same (
          find?-eq-none (has_secret j) (swap_remove es i) (
            omega (
              arith,
              count-Removed (has_secret j) found.before found.after (swap_remove es i) left,
              count-whole hits,
              v.one_secret j,
            )))
    | inr other ↦
        let misses : has_secret j found.hit ≡ false = test_at k j found.hit found.passes ∙ other in
        rw other (
          find?-Removed (has_secret j) found.before found.after (swap_remove es i) found.hit left
            misses (rw (← found.whole) (v.one_secret j))
          ∙ ap (find? (has_secret j)) (sym found.whole))
  ]
    where
      found : Found (has_secret k) es i
      found = find_index-Found (has_secret k) es i h

      left : Removed found.before found.after (swap_remove es i)
      left = swap_remove-Found (has_secret k) es i found

      count-whole :
          has_secret j found.hit ≡ true
          → count (has_secret j) es
            ≡ count (has_secret j) found.before + suc (count (has_secret j) found.after)
      count-whole hits =
          ap (count (has_secret j)) found.whole
          ∙ count-append (has_secret j) found.before (found.hit ∷ found.after)
          ∙ ap (λ n. count (has_secret j) found.before + n)
              (count-hit (has_secret j) found.hit found.after hits)
