-- ===== src/Base/Remove.antt =====
-- Removal from an array in use by moving the last element into the hole, and what searches find
-- afterwards.
use mtprotor.Base.Lists.{length, get_elem?, get_elem?_append, set, take, set-append}
use mtprotor.Base.Lists.{All, All-append, All-left, All-right}
use mtprotor.Base.Lists.{take-append, length-append}
use Prim.Native.Nat.{ℕ, ◌+◌, ◌-◌, ◌≤◌}
use mathlib.Core.Path.{◌≡◌, refl, ap}
use mathlib.Core.Logic.{◌⊎◌, inl, inr}
use mathlib.Core.Bool.{Bool, false}
use mathlib.Core.List.{List, [], ◌∷◌, ◌++◌, append_assoc, append-nil}
use mathlib.Core.Option.{none, some}
use native.Mathlib.Omega.{arith}
use mtprotor.Base.Search.{find?, count, Found, find?-append, count-append, find?-eq-none}

-- `xs[i] = xs[n - 1]; n--;` for an array of `n` elements in use.
unfoldable pub swap_remove {ℓ} : {A : Type ℓ} → List A → ℕ → List A
swap_remove xs i = elim (get_elem? xs (length xs - 1)) [
  | none ↦ xs
  | some last ↦ take (length xs - 1) (set xs i last)
]

-- Removal by moving the last element into the hole.
module _ {ℓ} {A : Type ℓ} where
  -- A list that is not empty has a last element.
  snoc-cases :
      (xs : List A) → (xs ≡ []) ⊎ ((init : List A) × (last : A) × (xs ≡ init ++ (last ∷ [])))
  snoc-cases [] = inl refl
  snoc-cases (x ∷ xs) = elim (snoc-cases xs) [
    | inl e ↦ inr ([], x, ap (λ zs. x ∷ zs) e)
    | inr (init, last, e) ↦ inr (x ∷ init, last, ap (λ zs. x ∷ zs) e)
  ]

  swap_remove-snoc :
      (xs : List A) (last : A) (i : ℕ)
      → swap_remove (xs ++ (last ∷ [])) i ≡ take (length xs) (set (xs ++ (last ∷ [])) i last)
  unfolding swap_remove
  swap_remove-snoc xs last i =
      let n : length (xs ++ (last ∷ [])) - 1 ≡ length xs =
        omega (arith, length-append xs (last ∷ [])) in
      rw (n, get_elem?_append xs (last ∷ []), swap_remove)
        (ap (λ k. take k (set (xs ++ (last ∷ [])) i last)) n)

  swap_remove-last :
      (before : List A) (x : A) → swap_remove (before ++ (x ∷ [])) (length before) ≡ before
  swap_remove-last before x =
      rw (swap_remove-snoc before x (length before), set-append before [] x x)
        (take-append before (x ∷ []))

  swap_remove-middle :
      (before after : List A) (x last : A)
      → swap_remove (before ++ (x ∷ (after ++ (last ∷ [])))) (length before)
        ≡ before ++ (last ∷ after)
  swap_remove-middle before after x last =
      let n : length (before ++ (x ∷ after)) ≡ length (before ++ (last ∷ after)) =
        omega (arith, length-append before (x ∷ after), length-append before (last ∷ after)) in
      rw
        (
          ← append_assoc before (x ∷ after) (last ∷ []),
          swap_remove-snoc (before ++ (x ∷ after)) last (length before),
          append_assoc before (x ∷ after) (last ∷ []),
          set-append before (after ++ (last ∷ [])) x last,
          n,
          ← append_assoc before (last ∷ after) (last ∷ []),
        )
        (take-append (before ++ (last ∷ after)) (last ∷ []))

  -- What is left after the removal of `x` from between `before` and `after`.
  pub record Removed (before after : List A) (out : List A) : Type ℓ where
    pub rest : List A
    pub shape : out ≡ before ++ rest
    pub moved :
        ((after ≡ []) × (rest ≡ []))
        ⊎ ((mid : List A) × (last : A) × (after ≡ mid ++ (last ∷ [])) × (rest ≡ last ∷ mid))

  pub swap_remove-Removed :
      (before after : List A) (x : A)
      → Removed before after (swap_remove (before ++ (x ∷ after)) (length before))
  swap_remove-Removed before after x = elim (snoc-cases after) [
    | inl e ↦ record {
      rest = [];
      shape = rw (e, swap_remove-last before x, append-nil before) refl;
      moved = inl (e, refl);
    }
    | inr (mid, last, e) ↦ record {
      rest = last ∷ mid;
      shape = rw (e, swap_remove-middle before mid x last) refl;
      moved = inr (mid, last, e, refl);
    }
  ]

  pub All-Removed {κ} :
      (P : A → Type κ) (before after out : List A)
      → Removed before after out
      → All P before
      → All P after
      → All P out
  All-Removed P before after out r h k = rw r.shape (
      All-append P before r.rest h (elim r.moved [
        | inl (e, z) ↦ rw z tt
        | inr (mid, last, e, z) ↦
            let k' : All P (mid ++ (last ∷ [])) = rw e at k in
            rw z ((All-right P mid (last ∷ []) k').0, All-left P mid (last ∷ []) k')
      ]))

  pub length-Removed :
      (before after out : List A)
      → Removed before after out
      → length out ≡ length before + length after
  length-Removed before after out r = elim r.moved [
    | inl (e, z) ↦ rw (r.shape, z, e) (omega (arith, length-append before []))
    | inr (mid, last, e, z) ↦
        rw (r.shape, z, e)
          (omega (arith, length-append before (last ∷ mid), length-append mid (last ∷ [])))
  ]

  -- The removal at the index that a search found.
  pub swap_remove-Found :
      (p : A → Bool) (xs : List A) (i : ℕ) (f : Found p xs i)
      → Removed f.before f.after (swap_remove xs i)
  swap_remove-Found p xs i f = rw (f.whole, ← f.index) (swap_remove-Removed f.before f.after f.hit)

module _ {ℓ} {A : Type ℓ} (q : A → Bool) where
  find?-rotate :
      (mid : List A) (last : A)
      → count q (mid ++ (last ∷ [])) ≤ 1
      → find? q (last ∷ mid) ≡ find? q (mid ++ (last ∷ []))
  unfolding find? count
  find?-rotate mid last once =
      ground
        (arith, count-append q mid (last ∷ []), find?-append q mid (last ∷ []), find?-eq-none q mid)

  pub count-Removed :
      (before after out : List A)
      → Removed before after out
      → count q out ≡ count q before + count q after
  unfolding count
  count-Removed before after out r = elim r.moved [
    | inl (e, z) ↦ rw (r.shape, z, e) (ground (arith, count-append q before []))
    | inr (mid, last, e, z) ↦
        rw (r.shape, z, e)
          (ground (arith, count-append q before (last ∷ mid), count-append q mid (last ∷ [])))
  ]

  -- Unless it finds the removed element, a test that at most one element passes finds what it did.
  pub find?-Removed :
      (before after out : List A) (x : A)
      → Removed before after out
      → q x ≡ false
      → count q (before ++ (x ∷ after)) ≤ 1
      → find? q out ≡ find? q (before ++ (x ∷ after))
  unfolding find? count
  find?-Removed before after out x r no_x once =
      rw r.shape
        (ground (arith, find?-append q before r.rest, find?-append q before (x ∷ after), same))
    where
      few : count q after ≤ 1
      few = ground (arith, count-append q before (x ∷ after))

      same : find? q r.rest ≡ find? q after
      same = elim r.moved [
        | inl (e, z) ↦ rw (e, z) refl
        | inr (mid, last, e, z) ↦
            let few' : count q (mid ++ (last ∷ [])) ≤ 1 = rw e at few in
            rw (e, z) (find?-rotate mid last few')
      ]
