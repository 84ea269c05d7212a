-- ===== src/Admin/Line.antt =====
-- Reading a request: strtok_r, the pairs `key=value` and ext_find_kv in ext_admin_handle_line of
-- net/net-tcp-rpc-ext-server.c.
use mtprotor.Base.{
  ℕ, zero, suc, Bool, ◌||◌, Option, none, some, List, [], ◌∷◌, ◌==◌, if◌then◌else◌, same_bytes,
}
use mtprotor.Base.Fields.{tokens, before_first}

abbrev pub is_blank : ℕ → Bool
is_blank c = c == 32 || c == 9 || c == 13

abbrev pub is_newline : ℕ → Bool
is_newline c = c == 10

abbrev pub is_equals : ℕ → Bool
is_equals c = c == b'='

-- The text behind the first `=`, if there is one.
unfoldable pub after_equals : List ℕ → Option (List ℕ)
after_equals [] = none
after_equals (c ∷ s) = if is_equals c then some s else after_equals s

pub record Pair : Type 0 where
  pub key : List ℕ
  pub value : List ℕ

-- A token that has an `=` behind its first character, and something behind that.
unfoldable pub pair_of : List ℕ → Option Pair
pair_of token = elim (after_equals token) [
  | none ↦ none
  | some [] ↦ none
  | some (c ∷ s) ↦ elim (before_first is_equals token) [
    | [] ↦ none
    | k ∷ ks ↦ some (record { key = k ∷ ks; value = c ∷ s })
  ]
]

-- The loop over the tokens behind the command, with room for so many pairs.
unfoldable pub pairs_of : ℕ → List (List ℕ) → List Pair
pairs_of zero rest = []
pairs_of (suc room) [] = []
pairs_of (suc room) (token ∷ rest) = elim (pair_of token) [
  | none ↦ pairs_of (suc room) rest
  | some p ↦ p ∷ pairs_of room rest
]

unfoldable pub find_kv : List Pair → List ℕ → Option (List ℕ)
find_kv [] key = none
find_kv (p ∷ ps) key = if same_bytes p.key key then some p.value else find_kv ps key

pub record Request : Type 0 where
  pub command : List ℕ
  pub pairs : List Pair

-- `none` where the line has no token.
unfoldable pub request_of : List ℕ → Option Request
request_of line = elim (tokens is_blank (before_first is_newline line)) [
  | [] ↦ none
  | command ∷ rest ↦ some (record { command = command; pairs = pairs_of 64 rest })
]
