-- ===== src/Admin/Json/Roundtrip.antt =====
-- String fields of a JSON body, as they are written and read.
use mtprotor.Admin.Json.{strstr, json_find_key, string_loop, json_get_string}
use mtprotor.Base.{
  ℕ, zero, suc, ◌+◌, ◌-◌, ◌≤◌, ◌<◌, ◌≡◌, refl, ap, ◌∙◌, Bool, true, false, ◌||◌, some, List, [],
  ◌∷◌, ◌++◌, leb, ◌==◌, if◌then◌else◌, arith, length, drop, length-append, drop-append, Bool-cases,
  inl, inr,
}
use mtprotor.Base.Ctype.{has_prefix}
use mtprotor.Base.Scan.{skip_spaces}
use mtprotor.Base.Text.{codes}

abbrev is_special : ℕ → Bool
is_special c = c == b'"' || c == 92

-- A text with a backslash in front of each quote and each backslash.
unfoldable pub escape : List ℕ → List ℕ
escape [] = []
escape (c ∷ s) = if is_special c then 92 ∷ c ∷ escape s else c ∷ escape s

-- The text `"key"`.
abbrev quoted : List ℕ → List ℕ
quoted key = codes "\"" ++ (key ++ codes "\"")

unfoldable pub field_body : List ℕ → List ℕ → List ℕ → List ℕ
field_body key value rest =
    codes "{" ++ (quoted key ++ (codes ":\"" ++ (escape value ++ (b'"' ∷ rest))))

is_cons : (s : List ℕ) (q : ℕ) (rest : List ℕ) → (d : ℕ) × (p : List ℕ) × (s ++ (q ∷ rest) ≡ d ∷ p)
is_cons [] q rest = (q, rest, refl)
is_cons (c ∷ s) q rest = (c, s ++ (q ∷ rest), refl)

-- One step of the loop at a character that is neither a quote nor a backslash.
string_loop-plain :
    (room c d : ℕ) (p : List ℕ)
    → is_special c ≡ false
    → string_loop (suc room) (c ∷ d ∷ p)
      ≡ (c ∷ (string_loop room (d ∷ p)).0, (string_loop room (d ∷ p)).1)
unfolding string_loop
string_loop-plain room c d p h =
    let no_quote : (c == b'"') ≡ false = ground (arith, h) in
    let no_backslash : (c == 92) ≡ false = ground (arith, h) in
    rw (string_loop, no_quote, no_backslash) refl

string_loop-escape :
    (room : ℕ) (value rest : List ℕ)
    → length value ≤ room
    → string_loop room (escape value ++ (b'"' ∷ rest)) ≡ (value, b'"' ∷ rest)
unfolding string_loop escape
string_loop-escape zero [] rest h = refl
string_loop-escape zero (c ∷ value) rest h = absurd (omega arith)
string_loop-escape (suc room) [] [] h = refl
string_loop-escape (suc room) [] (d ∷ rest) h = refl
string_loop-escape (suc room) (c ∷ value) rest h =
    let later = string_loop-escape room value rest (omega arith) in
    elim (Bool-cases (is_special c)) [
      | inl special ↦ rw (special, later) refl
      | inr plain ↦
          let (d, p, e) = is_cons (escape value) b'"' rest in
          rw (plain, e, string_loop-plain room c d p plain, ← e, later) refl
    ]

has_prefix-append : (s rest : List ℕ) → has_prefix (s ++ rest) s ≡ true
unfolding has_prefix
has_prefix-append [] rest = refl
has_prefix-append (c ∷ s) rest =
    let same : (c == c) ≡ true = ground arith in rw same (has_prefix-append s rest)

strstr-here :
    (c : ℕ) (s pattern : List ℕ)
    → has_prefix (c ∷ s) pattern ≡ true
    → strstr (c ∷ s) pattern ≡ some (c ∷ s)
unfolding strstr
strstr-here c s pattern h = rw h refl

strstr-behind :
    (c : ℕ) (s pattern : List ℕ)
    → has_prefix (c ∷ s) pattern ≡ false
    → strstr (c ∷ s) pattern ≡ strstr s pattern
unfolding strstr
strstr-behind c s pattern h = rw h refl

no_prefix : (s key : List ℕ) → has_prefix (b'{' ∷ s) (quoted key) ≡ false
unfolding has_prefix
no_prefix s key = refl

json_find_key-field :
    (key value rest : List ℕ)
    → length key + 2 < 128
    → json_find_key (field_body key value rest) key ≡ some (b'"' ∷ (escape value ++ (b'"' ∷ rest)))
unfolding json_find_key field_body skip_spaces
json_find_key-field key value rest h =
    let text = codes ":\"" ++ (escape value ++ (b'"' ∷ rest)) in
    let short : leb 128 (length key + 2) ≡ false = ground arith in
    let found : strstr (b'{' ∷ (quoted key ++ text)) (quoted key) ≡ some (quoted key ++ text) =
      strstr-behind b'{' (quoted key ++ text) (quoted key) (no_prefix (quoted key ++ text) key)
      ∙ strstr-here b'"' ((key ++ codes "\"") ++ text) (quoted key)
          (has_prefix-append (quoted key) text) in
    let size : length key + 2 ≡ length (quoted key) =
      omega (arith, length-append key (codes "\"")) in
    let behind : drop (length key + 2) (quoted key ++ text) ≡ text =
      ap (λ n. drop n (quoted key ++ text)) size ∙ drop-append (quoted key) text in
    rw (json_find_key, short, found, behind) refl

-- A string, written with backslashes in front of its quotes and backslashes as the first field of a
-- body, is read back whole under its key, where the key has at most 125 characters and the buffer
-- is longer than the string.
pub json_get_string-field :
    (key value rest : List ℕ) (out_size : ℕ)
    → length key + 2 < 128
    → length value < out_size
    → json_get_string (field_body key value rest) key out_size
      ≡ record { ok = true; written = value }
unfolding json_get_string
json_get_string-field key value rest out_size h fits =
    let some_room : (out_size == 0) ≡ false = ground arith in
    rw
      (
        json_get_string,
        json_find_key-field key value rest h,
        some_room,
        string_loop-escape (out_size - 1) value rest (omega arith),
      )
      refl
