-- ===== src/Base/Fields.antt =====
-- Texts cut in pieces: the lines that getline reads, the pieces between separators, and strtok_r.
pub mod Laws
use mtprotor.Base.{
  ℕ, zero, suc, Bool, true, false, List, [], ◌∷◌, ◌++◌, ◌==◌, if◌then◌else◌, get_elem?, none, some,
}

abbrev pub push_first : ℕ → List (List ℕ) → List (List ℕ)
push_first c [] = (c ∷ []) ∷ []
push_first c (l ∷ ls) = (c ∷ l) ∷ ls

-- The lines of a file, each with its newline.
unfoldable pub lines : List ℕ → List (List ℕ)
lines [] = []
lines (c ∷ s) = let rest = lines s in if c == 10 then (c ∷ []) ∷ rest else push_first c rest

-- The pieces of a text between separators, the empty ones included.
unfoldable pub split_on : (ℕ → Bool) → List ℕ → List (List ℕ)
split_on p [] = [] ∷ []
split_on p (c ∷ s) = let rest = split_on p s in if p c then [] ∷ rest else push_first c rest

abbrev pub drop_empty : List (List ℕ) → List (List ℕ)
drop_empty [] = []
drop_empty ([] ∷ ls) = drop_empty ls
drop_empty ((c ∷ l) ∷ ls) = (c ∷ l) ∷ drop_empty ls

-- The tokens that strtok_r yields one after the other.
unfoldable pub tokens : (ℕ → Bool) → List ℕ → List (List ℕ)
tokens p s = drop_empty (split_on p s)

-- The text before the first character that passes the test.
unfoldable pub before_first : (ℕ → Bool) → List ℕ → List ℕ
before_first p [] = []
before_first p (c ∷ s) = if p c then [] else c ∷ before_first p s

-- A C string in a buffer: the text before its NUL.
abbrev pub is_nul : ℕ → Bool
is_nul c = c == 0

-- Element `i` of an array of strings.
abbrev pub field : List (List ℕ) → ℕ → List ℕ
field cols i = elim (get_elem? cols i) [ none ↦ [] | some c ↦ c ]
