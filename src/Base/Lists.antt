-- ===== src/Base/Lists.antt =====
-- C arrays as lists measured and indexed by native numbers.
use Prim.Native.Nat.{ℕ, zero, suc, ◌+◌, ◌-◌, ◌<◌, min}
use mathlib.Core.Path.{◌≡◌, refl, ap}
use mathlib.Core.Logic.{◌≢◌}
use mathlib.Core.List.{List, [], ◌∷◌, ◌++◌, map}
use mathlib.Core.Option.{Option, none, some}
use native.Mathlib.Omega.{arith}

module _ {ℓ} {A : Type ℓ} where
  abbrev pub length : List A → ℕ
  length [] = 0
  length (x ∷ xs) = suc (length xs)

  abbrev pub get_elem? : List A → ℕ → Option A
  get_elem? [] i = none
  get_elem? (x ∷ xs) zero = some x
  get_elem? (x ∷ xs) (suc i) = get_elem? xs i

  -- A write out of bounds changes nothing.
  abbrev pub set : List A → ℕ → A → List A
  set [] i v = []
  set (x ∷ xs) zero v = v ∷ xs
  set (x ∷ xs) (suc i) v = x ∷ set xs i v

  -- A write through `&xs[i]`.
  abbrev pub modify : List A → ℕ → (A → A) → List A
  modify [] i f = []
  modify (x ∷ xs) zero f = f x ∷ xs
  modify (x ∷ xs) (suc i) f = x ∷ modify xs i f

  abbrev pub take : ℕ → List A → List A
  take zero xs = []
  take (suc n) [] = []
  take (suc n) (x ∷ xs) = x ∷ take n xs

  abbrev pub drop : ℕ → List A → List A
  drop zero xs = xs
  drop (suc n) [] = []
  drop (suc n) (x ∷ xs) = drop n xs

  abbrev pub replicate : ℕ → A → List A
  replicate zero a = []
  replicate (suc n) a = a ∷ replicate n a

  -- A predicate of every element.
  abbrev pub All {κ} : (A → Type κ) → List A → Type κ
  All P [] = Unit
  All P (x ∷ xs) = P x × All P xs

module _ {ℓ} {A : Type ℓ} where
  pub length-append : (xs ys : List A) → length (xs ++ ys) ≡ length xs + length ys
  length-append [] ys = omega arith
  length-append (x ∷ xs) ys = omega (arith, length-append xs ys)

  pub length-modify : (xs : List A) (i : ℕ) (f : A → A) → length (modify xs i f) ≡ length xs
  length-modify [] i f = refl
  length-modify (x ∷ xs) zero f = refl
  length-modify (x ∷ xs) (suc i) f = ap suc (length-modify xs i f)

  pub length-replicate : (n : ℕ) (a : A) → length (replicate n a) ≡ n
  length-replicate zero a = refl
  length-replicate (suc n) a = ap suc (length-replicate n a)

  pub length-take : (n : ℕ) (xs : List A) → length (take n xs) ≡ min n (length xs)
  length-take zero xs = omega arith
  length-take (suc n) [] = omega arith
  length-take (suc n) (x ∷ xs) = omega (arith, length-take n xs)

  pub length-drop : (n : ℕ) (xs : List A) → length (drop n xs) ≡ length xs - n
  length-drop zero xs = omega arith
  length-drop (suc n) [] = omega arith
  length-drop (suc n) (x ∷ xs) = omega (arith, length-drop n xs)

  pub take-append : (xs ys : List A) → take (length xs) (xs ++ ys) ≡ xs
  take-append [] ys = refl
  take-append (x ∷ xs) ys = ap (λ zs. x ∷ zs) (take-append xs ys)

  pub drop-append : (xs ys : List A) → drop (length xs) (xs ++ ys) ≡ ys
  drop-append [] ys = refl
  drop-append (x ∷ xs) ys = drop-append xs ys

  pub get_elem?_append : (xs ys : List A) → get_elem? (xs ++ ys) (length xs) ≡ get_elem? ys 0
  get_elem?_append [] ys = refl
  get_elem?_append (x ∷ xs) ys = get_elem?_append xs ys

  -- A read in range succeeds.
  pub get_elem?-some : (xs : List A) (i : ℕ) → i < length xs → (a : A) × (get_elem? xs i ≡ some a)
  get_elem?-some [] i h = absurd (omega arith)
  get_elem?-some (x ∷ xs) zero h = (x, refl)
  get_elem?-some (x ∷ xs) (suc i) h = get_elem?-some xs i (omega arith)

  pub modify-append :
      (xs ys : List A) (x : A) (f : A → A)
      → modify (xs ++ (x ∷ ys)) (length xs) f ≡ xs ++ (f x ∷ ys)
  modify-append [] ys x f = refl
  modify-append (y ∷ xs) ys x f = ap (λ zs. y ∷ zs) (modify-append xs ys x f)

  pub set-append : (xs ys : List A) (x v : A) → set (xs ++ (x ∷ ys)) (length xs) v ≡ xs ++ (v ∷ ys)
  set-append [] ys x v = refl
  set-append (y ∷ xs) ys x v = ap (λ zs. y ∷ zs) (set-append xs ys x v)

  pub All-append {κ} : (P : A → Type κ) (xs ys : List A) → All P xs → All P ys → All P (xs ++ ys)
  All-append P [] ys h k = k
  All-append P (x ∷ xs) ys h k = (h.0, All-append P xs ys h.1 k)

  pub All-left {κ} : (P : A → Type κ) (xs ys : List A) → All P (xs ++ ys) → All P xs
  All-left P [] ys h = tt
  All-left P (x ∷ xs) ys h = (h.0, All-left P xs ys h.1)

  pub All-right {κ} : (P : A → Type κ) (xs ys : List A) → All P (xs ++ ys) → All P ys
  All-right P [] ys h = h
  All-right P (x ∷ xs) ys h = All-right P xs ys h.1

  pub All-map {κ ι} :
      (P : A → Type κ) (Q : A → Type ι)
      → ((a : A) → P a → Q a)
      → (xs : List A) → All P xs
      → All Q xs
  All-map P Q f [] h = tt
  All-map P Q f (x ∷ xs) h = (f x h.0, All-map P Q f xs h.1)

  pub length-map {κ} : {B : Type κ} (xs : List A) (f : A → B) → length (map f xs) ≡ length xs
  length-map [] f = refl
  length-map (x ∷ xs) f = ap suc (length-map xs f)

  pub get_elem?-modify_ne :
      (xs : List A) (i j : ℕ) (f : A → A) → i ≢ j → get_elem? (modify xs i f) j ≡ get_elem? xs j
  get_elem?-modify_ne [] i j f ne = refl
  get_elem?-modify_ne (x ∷ xs) zero zero f ne = absurd (ne refl)
  get_elem?-modify_ne (x ∷ xs) zero (suc j) f ne = refl
  get_elem?-modify_ne (x ∷ xs) (suc i) zero f ne = refl
  get_elem?-modify_ne (x ∷ xs) (suc i) (suc j) f ne =
      get_elem?-modify_ne xs i j f (λ e. ne (ap suc e))

  pub get_elem?-modify_self :
      (xs : List A) (i : ℕ) (f : A → A) (a : A)
      → get_elem? xs i ≡ some a
      → get_elem? (modify xs i f) i ≡ some (f a)
  get_elem?-modify_self [] i f a e = cc
  get_elem?-modify_self (x ∷ xs) zero f a e = ground arith
  get_elem?-modify_self (x ∷ xs) (suc i) f a e = get_elem?-modify_self xs i f a e
