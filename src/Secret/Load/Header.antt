-- ===== src/Secret/Load/Header.antt =====
-- The line with the next id, as it is written and read.
use mtprotor.Base.{
  ℕ, ◌^◌, ◌≤◌, ◌<◌, ◌≡◌, refl, ap, ◌∙◌, true, false, ◌||◌, List, [], ◌∷◌, ◌++◌, leb, ◌==◌, All,
  length, drop, arith,
}
use mtprotor.Base.Ctype.{has_prefix}
use mtprotor.Base.Decimal.{print_nat, print_int}
use mtprotor.Base.Fields.{lines, tokens, drop_empty, before_first, is_nul}
use mtprotor.Base.Int.{ℤ, pos, negsuc}
use mtprotor.Base.Scan.Laws.{print_nat-nonempty, atoi-print_nat}
use mtprotor.Secret.Load.{next, v3_tab, read_header, read_line, read_lines}
use mtprotor.Secret.Load.Columns.{is_line_end}
use mtprotor.Secret.Load.Printed.{
  lines-tsv_line, before_nul-tsv_line, header_columns-IsPlain, tokens-tsv_line,
  entry_columns-IsPlain,
}
use mtprotor.Secret.Persist.{tsv_line, header_columns, entry_columns}
use mtprotor.Secret.State.{Store, Env, Entry, Metric, signed64}
use mtprotor.Secret.Valid.{IsEntry}

pub read_lines-next :
    (env : Env) (raw : List ℕ) (rest : List (List ℕ)) (t u : Store)
    → read_line env raw t ≡ next u
    → read_lines env (raw ∷ rest) t ≡ read_lines env rest u
unfolding read_lines
read_lines-next env raw rest t u h = rw (read_lines, h) refl

pub entry_line :
    (n counters : ℕ) (m : Metric) (e : Entry) (rest : List ℕ)
    → IsEntry n counters e
    → lines (tsv_line (entry_columns m e) ++ rest) ≡ tsv_line (entry_columns m e) ∷ lines rest
unfolding entry_columns
entry_line n counters m e rest v =
    lines-tsv_line e.hex _ (entry_columns-IsPlain n counters m e v) rest

print_int-full : (z : ℤ) → drop_empty (print_int z ∷ []) ≡ print_int z ∷ []
unfolding print_int
print_int-full (pos n) = let (c, s, e) = print_nat-nonempty n in rw e refl
print_int-full (negsuc n) = refl

print_nat-full : (n : ℕ) → drop_empty (print_nat n ∷ []) ≡ print_nat n ∷ []
print_nat-full n = let (c, s, e) = print_nat-nonempty n in rw e refl

pub header_line :
    (s : Store) (rest : List ℕ)
    → lines (tsv_line (header_columns s) ++ rest) ≡ tsv_line (header_columns s) ∷ lines rest
unfolding header_columns
header_line s rest = lines-tsv_line _ _ (header_columns-IsPlain s) rest

-- The line with the next id.
read_header-header :
    (s t : Store)
    → 1 ≤ s.next_id
    → s.next_id < 2 ^ 31
    → t.next_id ≡ 1
    → read_header (tsv_line (header_columns s)) t ≡ record t { next_id = s.next_id }
unfolding read_header header_columns
read_header-header s t one small start =
    let full : All (λ col. drop_empty (col ∷ []) ≡ col ∷ []) (header_columns s) = (
      refl,
      (
        print_int-full (signed64 s.total_in),
        (
          print_int-full (signed64 s.total_out),
          (print_int-full (signed64 s.total_connections), (print_nat-full s.next_id, tt)),
        ),
      ),
    ) in
    let cut : tokens (λ d. d == 9 || is_line_end d) (tsv_line (header_columns s))
        ≡ header_columns s =
      tokens-tsv_line _ _ (header_columns-IsPlain s) full in
    rw (read_header, cut, atoi-print_nat s.next_id small) (ground (arith, start, one))

read_line-v3 :
    (env : Env) (raw : List ℕ) (t : Store)
    → before_first is_nul raw ≡ raw
    → leb (length raw) 1 ≡ false
    → has_prefix raw (b'#' ∷ []) ≡ false
    → has_prefix raw v3_tab ≡ true
    → read_line env raw t ≡ next (read_header raw t)
unfolding read_line
read_line-v3 env raw t whole long no_hash v3 = rw (whole, long, no_hash, v3) refl

header_begins :
    (s : Store)
    → tsv_line (header_columns s) ≡ b'v' ∷ b'3' ∷ 9 ∷ drop 3 (tsv_line (header_columns s))
unfolding header_columns tsv_line
header_begins s = refl

v3_kind :
    (rest : List ℕ)
    → (has_prefix (b'v' ∷ b'3' ∷ 9 ∷ rest) (b'#' ∷ []) ≡ false)
      × (has_prefix (b'v' ∷ b'3' ∷ 9 ∷ rest) v3_tab ≡ true)
unfolding has_prefix
v3_kind rest = (refl, refl)

pub read_line-header :
    (env : Env) (s t : Store)
    → 1 ≤ s.next_id
    → s.next_id < 2 ^ 31
    → t.next_id ≡ 1
    → read_line env (tsv_line (header_columns s)) t ≡ next (record t { next_id = s.next_id })
unfolding header_columns
read_line-header env s t one small start =
    let raw = tsv_line (header_columns s) in
    let begins = header_begins s in
    let kind = v3_kind (drop 3 raw) in
    read_line-v3 env raw t (before_nul-tsv_line _ _ (header_columns-IsPlain s))
      (ap (λ l. leb (length l) 1) begins ∙ ground arith)
      (ap (λ l. has_prefix l (b'#' ∷ [])) begins ∙ kind.0)
      (ap (λ l. has_prefix l v3_tab) begins ∙ kind.1)
    ∙ ap next (read_header-header s t one small start)
