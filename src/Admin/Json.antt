-- ===== src/Admin/Json.antt =====
-- The fields of a JSON body: ext_http_json_find_key and ext_http_json_get_string, _int64 and _bool of
-- net/net-tcp-rpc-ext-server.c.
pub mod Roundtrip
use mtprotor.Base.{
  ℕ, zero, suc, ◌+◌, ◌-◌, ◌^◌, Bool, true, false, not, ◌&&◌, ◌||◌, Option, none, some, List, [],
  ◌∷◌, ◌++◌, ltb, leb, ◌==◌, if◌then◌else◌, length, drop,
}
use mtprotor.Base.Ctype.{isdigit, has_prefix, has_prefix_nocase}
use mtprotor.Base.Int.{ℤ, pos, negsuc}
use mtprotor.Base.Scan.{skip_spaces, digits_value, negate}
use mtprotor.Base.Text.{codes}

-- strstr: the text from the first place where the pattern stands.
unfoldable pub strstr : List ℕ → List ℕ → Option (List ℕ)
strstr [] pattern = if has_prefix [] pattern then some [] else none
strstr (c ∷ s) pattern =
    let rest = strstr s pattern in if has_prefix (c ∷ s) pattern then some (c ∷ s) else rest

unfoldable pub json_find_key : List ℕ → List ℕ → Option (List ℕ)
json_find_key body key =
    if leb 128 (length key + 2)
    then none
    else elim (strstr body (codes "\"" ++ (key ++ codes "\""))) [
      | none ↦ none
      | some p ↦ elim (skip_spaces (drop (length key + 2) p)) [
        | [] ↦ none
        | c ∷ s ↦ if c == b':' then some (skip_spaces s) else none
      ]
    ]

-- The copying loop with room for so many characters: what it writes, and where it stops.
unfoldable pub string_loop : ℕ → List ℕ → List ℕ × List ℕ
string_loop zero p = ([], p)
string_loop (suc room) [] = ([], [])
string_loop (suc room) (c ∷ []) = if c == b'"' then ([], c ∷ []) else (c ∷ [], [])
string_loop (suc room) (c ∷ d ∷ p) = elim (c == b'"') [
  | true ↦ ([], c ∷ d ∷ p)
  | false ↦ elim (c == 92) [
    | true ↦ let r = string_loop room p in (d ∷ r.0, r.1)
    | false ↦ let r = string_loop room (d ∷ p) in (c ∷ r.0, r.1)
  ]
]

-- Whether a string was read, and the characters that were written to the buffer. The NUL is written
-- behind them where a string was read, and not otherwise.
pub record Got : Type 0 where
  pub ok : Bool
  pub written : List ℕ

abbrev pub starts_with : ℕ → List ℕ → Bool
starts_with d [] = false
starts_with d (c ∷ s) = c == d

unfoldable pub json_get_string : List ℕ → List ℕ → ℕ → Got
json_get_string body key out_size = elim (json_find_key body key) [
  | none ↦ record { ok = false; written = [] }
  | some [] ↦ record { ok = false; written = [] }
  | some (c ∷ p) ↦
      if not (c == b'"') || out_size == 0
      then record { ok = false; written = [] }
      else let r = string_loop (out_size - 1) p in
        record { ok = starts_with b'"' r.1; written = r.0 }
]

-- `strtoll (p, &end, 10)`; `none` where errno is set or no digit is read.
unfoldable pub strtoll_signed : Bool → List ℕ → Option ℤ
strtoll_signed minus [] = none
strtoll_signed minus (c ∷ s) =
    if not (isdigit c)
    then none
    else if minus
    then (if leb (digits_value 0 (c ∷ s)) (2 ^ 63)
        then some (negate (digits_value 0 (c ∷ s)))
        else none)
    else if ltb (digits_value 0 (c ∷ s)) (2 ^ 63)
    then some (pos (digits_value 0 (c ∷ s)))
    else none

unfoldable pub strtoll : List ℕ → Option ℤ
strtoll s = elim (skip_spaces s) [
  | [] ↦ none
  | c ∷ t ↦
      if c == b'-'
      then strtoll_signed true t
      else if c == b'+'
      then strtoll_signed false t
      else strtoll_signed false (c ∷ t)
]

-- The outer `none` is the result 0, the inner one a key that is not there.
unfoldable pub json_get_int64 : List ℕ → List ℕ → Option (Option ℤ)
json_get_int64 body key = elim (json_find_key body key) [
  | none ↦ some none
  | some p ↦ elim (strtoll p) [ none ↦ none | some v ↦ some (some v) ]
]

unfoldable pub json_get_bool : List ℕ → List ℕ → Option (Option Bool)
json_get_bool body key = elim (json_find_key body key) [
  | none ↦ some none
  | some p ↦
      if has_prefix_nocase p (codes "true")
      then some (some true)
      else if has_prefix_nocase p (codes "false")
      then some (some false)
      else if starts_with b'1' p
      then some (some true)
      else if starts_with b'0' p
      then some (some false)
      else none
]
