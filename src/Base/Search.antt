-- ===== src/Base/Search.antt =====
-- Linear search in an array by a test: the element found, its index, and how often the test holds.
use mtprotor.Base.Tests.{if◌then◌else◌, Bool-cases, Option-cases}
use mtprotor.Base.Lists.{length, get_elem?, get_elem?_append, modify}
use Prim.Native.Nat.{ℕ, zero, suc, ◌+◌, ◌≤◌}
use mathlib.Core.Path.{◌≡◌, refl, ap, subst}
use mathlib.Core.Logic.{inl, inr}
use mathlib.Core.Bool.{Bool, true, false}
use mathlib.Core.List.{List, [], ◌∷◌, ◌++◌, map}
use mathlib.Core.Option
use mathlib.Core.Option.{Option, none, some}
use native.Mathlib.Omega.{arith}

module _ {ℓ} {A : Type ℓ} (p : A → Bool) where
  -- `for (i = 0; i < n; i++) if (p (xs[i])) return i; return -1;`
  unfoldable pub find_index : List A → Option ℕ
  find_index [] = none
  find_index (x ∷ xs) = if p x then some 0 else Option.map suc (find_index xs)

  unfoldable pub find? : List A → Option A
  find? [] = none
  find? (x ∷ xs) = if p x then some x else find? xs

  unfoldable pub count : List A → ℕ
  count [] = 0
  count (x ∷ xs) = if p x then suc (count xs) else count xs

  pub find?-append :
      (xs ys : List A) → find? (xs ++ ys) ≡ elim (find? xs) [ none ↦ find? ys | some a ↦ some a ]
  unfolding find?
  find?-append [] ys = refl
  find?-append (x ∷ xs) ys = ground (arith, find?-append xs ys)

  pub count-append : (xs ys : List A) → count (xs ++ ys) ≡ count xs + count ys
  unfolding count
  count-append [] ys = omega arith
  count-append (x ∷ xs) ys = ground (arith, count-append xs ys)

  pub count-le : (xs : List A) → count xs ≤ length xs
  unfolding count
  count-le [] = omega arith
  count-le (x ∷ xs) = ground (arith, count-le xs)

  pub find?-eq-none : (xs : List A) → count xs ≡ 0 → find? xs ≡ none
  unfolding find? count
  find?-eq-none [] h = refl
  find?-eq-none (x ∷ xs) h = ground (arith, find?-eq-none xs)

  pub count-eq-zero : (xs : List A) → find? xs ≡ none → count xs ≡ 0
  unfolding find? count
  count-eq-zero [] h = refl
  count-eq-zero (x ∷ xs) h = ground (arith, count-eq-zero xs)

  pub find_index-none : (xs : List A) → find_index xs ≡ none → find? xs ≡ none
  unfolding find? find_index
  find_index-none [] h = refl
  find_index-none (x ∷ xs) h = ground (arith, find_index-none xs)

  pub find_index-eq-none : (xs : List A) → count xs ≡ 0 → find_index xs ≡ none
  unfolding find_index count
  find_index-eq-none [] h = refl
  find_index-eq-none (x ∷ xs) h = ground (arith, find_index-eq-none xs)

  -- Where the search stops: at the first element that passes the test.
  pub record Found (xs : List A) (i : ℕ) : Type ℓ where
    pub before : List A
    pub hit : A
    pub after : List A
    pub whole : xs ≡ before ++ (hit ∷ after)
    pub index : length before ≡ i
    pub passes : p hit ≡ true
    pub first : find? before ≡ none

  Found-cons : (x : A) (xs : List A) (i : ℕ) → p x ≡ false → Found xs i → Found (x ∷ xs) (suc i)
  unfolding find?
  Found-cons x xs i no_match f = record {
    before = x ∷ f.before;
    hit = f.hit;
    after = f.after;
    whole = ap (λ zs. x ∷ zs) f.whole;
    index = ap suc f.index;
    passes = f.passes;
    first = rw no_match f.first;
  }

  pub find_index-Found : (xs : List A) (i : ℕ) → find_index xs ≡ some i → Found xs i
  unfolding find_index find?
  find_index-Found [] i h = cc
  find_index-Found (x ∷ xs) i h = elim (Bool-cases (p x)) [
    | inl e ↦
        let z : 0 ≡ i = ground arith in
        record {
          before = [];
          hit = x;
          after = xs;
          whole = refl;
          index = z;
          passes = e;
          first = refl;
        }
    | inr e ↦ elim (Option-cases (find_index xs)) [
      | inl none_left ↦ cc
      | inr (j, at_j) ↦
          let next : suc j ≡ i = ground arith in
          subst (Found (x ∷ xs)) next (Found-cons x xs j e (find_index-Found xs j at_j))
    ]
  ]

  -- The element at the index found is the first that passes.
  pub find?-Found : (xs : List A) (i : ℕ) (f : Found xs i) → find? xs ≡ some f.hit
  unfolding find?
  find?-Found xs i f = rw (f.whole, find?-append f.before (f.hit ∷ f.after), f.first, f.passes) refl

  pub get_elem?-Found : (xs : List A) (i : ℕ) (f : Found xs i) → get_elem? xs i ≡ some f.hit
  get_elem?-Found xs i f = rw (f.whole, ← f.index) (get_elem?_append f.before (f.hit ∷ f.after))

-- Rewriting elements.
module _ {ℓ} {A : Type ℓ} (q : A → Bool) where
  pub count-modify :
      (xs : List A) (i : ℕ) (f : A → A)
      → ((a : A) → q (f a) ≡ q a)
      → count q (modify xs i f) ≡ count q xs
  unfolding count
  count-modify [] i f keep = refl
  count-modify (x ∷ xs) zero f keep = rw (keep x)
  count-modify (x ∷ xs) (suc i) f keep = rw (count-modify xs i f keep)

  pub count-map :
      (xs : List A) (f : A → A) → ((a : A) → q (f a) ≡ q a) → count q (map f xs) ≡ count q xs
  unfolding count
  count-map [] f keep = refl
  count-map (x ∷ xs) f keep = rw (keep x, count-map xs f keep) refl

  -- A test that fails on the rewritten element, before and after, finds what it found.
  pub find?-modify_other :
      (before after : List A) (x : A) (f : A → A)
      → q x ≡ false
      → q (f x) ≡ false
      → find? q (before ++ (f x ∷ after)) ≡ find? q (before ++ (x ∷ after))
  unfolding find?
  find?-modify_other [] after x f no_x no_fx = rw (no_x, no_fx)
  find?-modify_other (y ∷ before) after x f no_x no_fx =
      rw (find?-modify_other before after x f no_x no_fx)
