-- ===== src/Base/Fields/Laws.antt =====
-- Lines and columns that were joined are cut apart again.
use mtprotor.Base.{ℕ, ◌≡◌, refl, Bool, true, false, List, [], ◌∷◌, ◌++◌, ◌==◌, All}
use mtprotor.Base.Fields.{lines, split_on, before_first}

abbrev pub Fails : (ℕ → Bool) → ℕ → Type 0
Fails p c = p c ≡ false

abbrev pub is_newline : ℕ → Bool
is_newline c = c == 10

-- The first line of a file.
pub lines-first :
    (line rest : List ℕ)
    → All (Fails is_newline) line
    → lines (line ++ (10 ∷ rest)) ≡ (line ++ (10 ∷ [])) ∷ lines rest
unfolding lines
lines-first [] rest h = refl
lines-first (c ∷ line) rest (other, h) = rw (other, lines-first line rest h) refl

-- The first piece of a text.
pub split_on-first :
    (p : ℕ → Bool) (piece : List ℕ) (sep : ℕ) (rest : List ℕ)
    → All (Fails p) piece
    → p sep ≡ true
    → split_on p (piece ++ (sep ∷ rest)) ≡ piece ∷ split_on p rest
unfolding split_on
split_on-first p [] sep rest h s = rw s refl
split_on-first p (c ∷ piece) sep rest (other, h) s =
    rw (other, split_on-first p piece sep rest h s) refl

pub split_on-last :
    (p : ℕ → Bool) (piece : List ℕ) → All (Fails p) piece → split_on p piece ≡ piece ∷ []
unfolding split_on
split_on-last p [] h = refl
split_on-last p (c ∷ piece) (other, h) = rw (other, split_on-last p piece h) refl

-- A text that has no such character is whole, and one that goes on with it is cut there.
pub before_first-none : (p : ℕ → Bool) (s : List ℕ) → All (Fails p) s → before_first p s ≡ s
unfolding before_first
before_first-none p [] h = refl
before_first-none p (c ∷ s) (other, h) = rw (other, before_first-none p s h) refl

pub before_first-cut :
    (p : ℕ → Bool) (s : List ℕ) (c : ℕ) (rest : List ℕ)
    → All (Fails p) s
    → p c ≡ true
    → before_first p (s ++ (c ∷ rest)) ≡ s
unfolding before_first
before_first-cut p [] c rest h hit = rw hit refl
before_first-cut p (d ∷ s) c rest (other, h) hit =
    rw (other, before_first-cut p s c rest h hit) refl
