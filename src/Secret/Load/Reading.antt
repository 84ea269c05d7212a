-- ===== src/Secret/Load/Reading.antt =====
-- The line of an entry, as it is written and read.
use mtprotor.Base.{
  ℕ, suc, ◌^◌, ◌/◌, ◌%◌, ◌<◌, ◌≡◌, refl, ap, ◌∙◌, Bool, true, false, ◌||◌, List, [], ◌∷◌, ltb, leb,
  ◌==◌, All, length, drop, arith, Bool-cases, inl, inr,
}
use mtprotor.Base.Ctype.{has_prefix}
use mtprotor.Base.Decimal.{print_nat, print_int}
use mtprotor.Base.Fields.{before_first, is_nul}
use mtprotor.Base.Int.{ℤ, pos, negsuc, pos_part}
use mtprotor.Base.Scan.{atoi, atoll, signed_value, skip_spaces, digits_value}
use mtprotor.Base.Scan.Laws.{
  IsDigit, IsLong, print_nat-IsDigit, print_nat-nonempty, atoll-print_int, atoi-print_nat,
}
use mtprotor.Secret.Hex.{xd, secret16_to_hex}
use mtprotor.Secret.Hex.Laws.{IsSecret}
use mtprotor.Secret.Load.{apply_row, read_line, v1, v2_tab, v3_tab}
use mtprotor.Secret.Load.Columns.{
  Row, split_tsv_line, all_isdigit, is_int_str, is_nonzero, pattern64, parse_row,
}
use mtprotor.Secret.Load.Printed.{
  before_nul-tsv_line, split_tsv_line-tsv_line, entry_columns-IsPlain,
}
use mtprotor.Secret.Persist.{tsv_line, print_bool, entry_columns}
use mtprotor.Secret.State.{Store, Env, Entry, Metric, signed64, word64}
use mtprotor.Secret.Text.Clean.{IsIp, sanitize_ip_fixed}
use mtprotor.Secret.Valid.{IsEntry}

-- The id is one for which an int can hold the number of counters, a power of two; the numbers of an entry and of its counters are in the ranges of their C types, and the time of the
-- last use is not negative.
pub record InRange (m : Metric) (e : Entry) : Type 0 where
  pub id : e.id < 2 ^ 30
  pub expires_at : IsLong e.expires_at
  pub created_at : IsLong e.created_at
  pub updated_at : IsLong e.updated_at
  pub last_seen_at : IsLong e.last_seen_at
  pub not_before_0 : pos (pos_part e.last_seen_at) ≡ e.last_seen_at
  pub bytes_in : m.bytes_in < word64
  pub bytes_out : m.bytes_out < word64
  pub connections : m.connections < word64

-- What a line of an entry says.
abbrev pub row_of : Metric → Entry → Row
row_of m e = record {
  hex = e.hex;
  enabled = e.enabled;
  expires_at = e.expires_at;
  created_at = e.created_at;
  updated_at = e.updated_at;
  parsed_id = pos e.id;
  metric = m;
  last_seen_at = e.last_seen_at;
  last_ip = e.last_ip;
  label = e.label;
  counted = true;
}

all_isdigit-digits : (s : List ℕ) → All IsDigit s → all_isdigit s ≡ true
unfolding all_isdigit
all_isdigit-digits [] h = refl
all_isdigit-digits (c ∷ s) (d, h) = rw (d, all_isdigit) (all_isdigit-digits s h)

is_int_str-digits : (c : ℕ) (s : List ℕ) → All IsDigit (c ∷ s) → is_int_str (c ∷ s) ≡ true
unfolding is_int_str
is_int_str-digits c [] (d, h) = d
is_int_str-digits c (e ∷ s) (d, h) =
    let unsigned : (c == b'-' || c == b'+') ≡ false = ground arith in
    rw unsigned (all_isdigit-digits (c ∷ e ∷ s) (d, h))

is_int_str-print_nat : (n : ℕ) → is_int_str (print_nat n) ≡ true
is_int_str-print_nat n =
    let (c, s, e) = print_nat-nonempty n in
    let digits : All IsDigit (c ∷ s) = rw e at (print_nat-IsDigit n) in
    ap is_int_str e ∙ is_int_str-digits c s digits

is_int_str-print_int : (z : ℤ) → is_int_str (print_int z) ≡ true
unfolding print_int is_int_str
is_int_str-print_int (pos n) = is_int_str-print_nat n
is_int_str-print_int (negsuc n) =
    let (c, s, e) = print_nat-nonempty (suc n) in
    let digits : All IsDigit (c ∷ s) = rw e at (print_nat-IsDigit (suc n)) in
    rw e (all_isdigit-digits (c ∷ s) digits)

signed64-IsLong : (w : ℕ) → w < word64 → IsLong (signed64 w)
signed64-IsLong w h = elim (Bool-cases (ltb w (2 ^ 63))) [
  | inl low ↦ rw low (ground arith)
  | inr high ↦ rw high (ground arith)
]

pattern64-signed64 : (w : ℕ) → w < word64 → pattern64 (signed64 w) ≡ w
pattern64-signed64 w h = elim (Bool-cases (ltb w (2 ^ 63))) [
  | inl low ↦ rw low refl
  | inr high ↦ rw high (ground arith)
]

-- A counter printed by %lld.
counter_back : (w : ℕ) → w < word64 → pattern64 (atoll (print_int (signed64 w))) ≡ w
counter_back w h =
    ap pattern64 (atoll-print_int (signed64 w) (signed64-IsLong w h)) ∙ pattern64-signed64 w h

print_bool_back : (b : Bool) → is_nonzero (atoi (print_bool b)) ≡ b
unfolding atoi atoll signed_value skip_spaces digits_value
print_bool_back true = refl
print_bool_back false = refl

pub parse_row-entry_columns :
    (m : Metric) (e : Entry)
    → InRange m e
    → IsIp e.last_ip
    → parse_row (entry_columns m e) ≡ row_of m e
unfolding parse_row entry_columns
parse_row-entry_columns m e v ip =
    rw
      (
        is_int_str-print_nat e.id,
        is_int_str-print_int (signed64 m.bytes_in),
        is_int_str-print_int (signed64 m.bytes_out),
        is_int_str-print_int (signed64 m.connections),
        is_int_str-print_int e.last_seen_at,
        print_bool_back e.enabled,
        atoll-print_int e.expires_at v.expires_at,
        atoll-print_int e.created_at v.created_at,
        atoll-print_int e.updated_at v.updated_at,
        atoll-print_int e.last_seen_at v.last_seen_at,
        atoi-print_nat e.id (omega (arith, v.id)),
        counter_back m.bytes_in v.bytes_in,
        counter_back m.bytes_out v.bytes_out,
        counter_back m.connections v.connections,
        sanitize_ip_fixed e.last_ip ip,
      )
      refl

-- Such a line begins with a hexadecimal digit, so that it is none of the other kinds of lines.
starts_row :
    (c : ℕ) (s : List ℕ) (n : ℕ)
    → n < 16
    → c ≡ xd n
    → (has_prefix (c ∷ s) (b'#' ∷ []) ≡ false)
      × (has_prefix (c ∷ s) v3_tab ≡ false)
      × (has_prefix (c ∷ s) v2_tab ≡ false)
      × (has_prefix (c ∷ s) v1 ≡ false)
unfolding has_prefix
starts_row c s n h e =
    let no_hash : (c == b'#') ≡ false = ground (arith, e) in
    let no_v : (c == b'v') ≡ false = ground (arith, e) in
    (rw no_hash refl, rw no_v refl, rw no_v refl, rw no_v refl)

row_begins :
    (m : Metric) (e : Entry) (b : ℕ) (bs : List ℕ)
    → e.hex ≡ secret16_to_hex (b ∷ bs)
    → tsv_line (entry_columns m e)
      ≡ xd (b / 16) ∷ xd (b % 16) ∷ drop 2 (tsv_line (entry_columns m e))
unfolding tsv_line entry_columns secret16_to_hex
row_begins m e b bs h = rw h refl

read_line-row :
    (env : Env) (raw : List ℕ) (cols : List (List ℕ)) (s : Store)
    → before_first is_nul raw ≡ raw
    → leb (length raw) 1 ≡ false
    → (has_prefix raw (b'#' ∷ []) ≡ false)
      × (has_prefix raw v3_tab ≡ false)
      × (has_prefix raw v2_tab ≡ false)
      × (has_prefix raw v1 ≡ false)
    → split_tsv_line raw ≡ cols
    → ltb (length cols) 5 ≡ false
    → read_line env raw s ≡ apply_row env (parse_row cols) s
unfolding read_line
read_line-row env raw cols s whole long (no_hash, no_v3, no_v2, no_v1) cut many =
    rw (whole, long, no_hash, no_v3, no_v2, no_v1, cut, many) refl

byte_first : (s : List ℕ) → IsSecret s → (b : ℕ) × (bs : List ℕ) × (s ≡ b ∷ bs) × (b < 256)
byte_first [] (n, h) = absurd (omega (arith, n))
byte_first (b ∷ bs) (n, (small, h)) = (b, bs, refl, small)

pub read_line-entry :
    (env : Env) (m : Metric) (e : Entry) (s : Store) (next counters : ℕ)
    → IsEntry next counters e
    → InRange m e
    → read_line env (tsv_line (entry_columns m e)) s ≡ apply_row env (row_of m e) s
unfolding entry_columns
read_line-entry env m e s next counters v r =
    let (b, bs, is, small) = byte_first e.secret v.secret in
    let begins = row_begins m e b bs (v.hex ∙ ap secret16_to_hex is) in
    let plain = entry_columns-IsPlain next counters m e v in
    let kinds =
      starts_row (xd (b / 16)) (xd (b % 16) ∷ drop 2 (tsv_line (entry_columns m e))) (b / 16)
        (omega arith) refl in
    read_line-row env (tsv_line (entry_columns m e)) (entry_columns m e) s
      (before_nul-tsv_line e.hex _ plain) (ap (λ t. leb (length t) 1) begins ∙ ground arith)
      (rw (← begins) at kinds) (split_tsv_line-tsv_line e.hex _ plain) refl
    ∙ ap (λ row. apply_row env row s) (parse_row-entry_columns m e r v.last_ip)
