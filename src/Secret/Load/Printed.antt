-- ===== src/Secret/Load/Printed.antt =====
-- The columns of a line of the state file.
use mtprotor.Base.{
  ℕ, suc, ◌/◌, ◌%◌, ◌<◌, ◌≡◌, refl, sym, ap, ◌∙◌, Bool, true, false, ◌||◌, List, [], ◌∷◌, ◌++◌,
  ◌==◌, All, All-append, All-map, append_assoc, take, arith,
}
use mtprotor.Base.Decimal.{print_nat, print_int}
use mtprotor.Base.Fields.{lines, split_on, tokens, drop_empty, before_first, is_nul}
use mtprotor.Base.Fields.Laws.{
  Fails, is_newline, lines-first, split_on-first, split_on-last, before_first-none,
  before_first-cut,
}
use mtprotor.Base.Int.{ℤ, pos, negsuc}
use mtprotor.Base.Scan.Laws.{IsDigit, print_nat-IsDigit}
use mtprotor.Secret.Hex.{xd, secret16_to_hex}
use mtprotor.Secret.Hex.Laws.{IsByte}
use mtprotor.Secret.Load.Columns.{is_tab, is_line_end, split_tsv_line}
use mtprotor.Secret.Persist.{tsv_line, print_bool, entry_columns, header_columns}
use mtprotor.Secret.State.{Store, Entry, Metric, signed64}
use mtprotor.Secret.Text.{label_char, ip_char}
use mtprotor.Secret.Text.Clean.{Kept}
use mtprotor.Secret.Valid.{IsEntry}

-- Neither a NUL nor a tab nor an end of line.
abbrev special : ℕ → Bool
special c = is_nul c || is_tab c || is_line_end c

abbrev pub IsPlain : List ℕ → Type 0
IsPlain s = All (Fails special) s

-- Columns joined by tabs.
unfoldable joined : List ℕ → List (List ℕ) → List ℕ
joined c [] = c
joined c (d ∷ cs) = c ++ (9 ∷ joined d cs)

tsv_line-joined : (c : List ℕ) (cs : List (List ℕ)) → tsv_line (c ∷ cs) ≡ joined c cs ++ (10 ∷ [])
unfolding tsv_line joined
tsv_line-joined c [] = refl
tsv_line-joined c (d ∷ cs) =
    ap (λ t. c ++ (9 ∷ t)) (tsv_line-joined d cs) ∙ sym (append_assoc c (9 ∷ joined d cs) (10 ∷ []))

-- A test that no plain character and no tab passes.
module _ (p : ℕ → Bool) (other : (c : ℕ) → special c ≡ false → p c ≡ false) where
  plain-Fails : (s : List ℕ) → IsPlain s → All (Fails p) s
  plain-Fails s v = All-map (Fails special) (Fails p) (λ c h. other c h) s v

  joined-Fails :
      (c : List ℕ) (cs : List (List ℕ))
      → p 9 ≡ false
      → All IsPlain (c ∷ cs)
      → All (Fails p) (joined c cs)
  unfolding joined
  joined-Fails c [] tab_fails (v, vs) = plain-Fails c v
  joined-Fails c (d ∷ cs) tab_fails (v, vs) =
      All-append (Fails p) c (9 ∷ joined d cs) (plain-Fails c v)
        (tab_fails, joined-Fails d cs tab_fails vs)

split_on-joined :
    (c : List ℕ) (cs : List (List ℕ))
    → All IsPlain (c ∷ cs)
    → split_on is_tab (joined c cs) ≡ c ∷ cs
unfolding joined
split_on-joined c [] (v, vs) = split_on-last is_tab c (plain-Fails is_tab (λ c h. ground arith) c v)
split_on-joined c (d ∷ cs) (v, vs) =
    split_on-first is_tab c 9 (joined d cs) (plain-Fails is_tab (λ c h. ground arith) c v) refl
    ∙ ap (λ t. c ∷ t) (split_on-joined d cs vs)

abbrev is_separator : ℕ → Bool
is_separator d = d == 9 || is_line_end d

split_on-tsv_line :
    (c : List ℕ) (cs : List (List ℕ))
    → All IsPlain (c ∷ cs)
    → split_on is_separator (tsv_line (c ∷ cs)) ≡ (c ∷ cs) ++ ([] ∷ [])
unfolding tsv_line split_on
split_on-tsv_line c [] (v, vs) =
    split_on-first is_separator c 10 [] (plain-Fails is_separator (λ d h. ground arith) c v) refl
split_on-tsv_line c (d ∷ cs) (v, vs) =
    split_on-first is_separator c 9 (tsv_line (d ∷ cs))
      (plain-Fails is_separator (λ d h. ground arith) c v) refl
    ∙ ap (λ t. c ∷ t) (split_on-tsv_line d cs vs)

drop_empty-full :
    (cs : List (List ℕ))
    → All (λ col. drop_empty (col ∷ []) ≡ col ∷ []) cs
    → drop_empty (cs ++ ([] ∷ [])) ≡ cs
drop_empty-full [] h = refl
drop_empty-full ([] ∷ cs) (h, hs) = absurd (ground (arith, h))
drop_empty-full ((d ∷ c) ∷ cs) (h, hs) = ap (λ t. (d ∷ c) ∷ t) (drop_empty-full cs hs)

module _ (c : List ℕ) (cs : List (List ℕ)) (v : All IsPlain (c ∷ cs)) where
  -- The line stands alone in the file that begins with it.
  pub lines-tsv_line :
      (rest : List ℕ) → lines (tsv_line (c ∷ cs) ++ rest) ≡ tsv_line (c ∷ cs) ∷ lines rest
  lines-tsv_line rest =
      rw (tsv_line-joined c cs, append_assoc (joined c cs) (10 ∷ []) rest)
        (lines-first (joined c cs) rest (joined-Fails is_newline (λ c h. ground arith) c cs refl v))

  pub before_nul-tsv_line : before_first is_nul (tsv_line (c ∷ cs)) ≡ tsv_line (c ∷ cs)
  before_nul-tsv_line = rw (tsv_line-joined c cs) (
      before_first-none is_nul (joined c cs ++ (10 ∷ [])) (
        All-append (Fails is_nul) (joined c cs) (10 ∷ [])
          (joined-Fails is_nul (λ c h. ground arith) c cs refl v) (refl, tt)))

  pub split_tsv_line-tsv_line : split_tsv_line (tsv_line (c ∷ cs)) ≡ take 16 (c ∷ cs)
  unfolding split_tsv_line
  split_tsv_line-tsv_line =
      rw
        (
          tsv_line-joined c cs,
          before_first-cut is_line_end (joined c cs) 10 []
              (joined-Fails is_line_end (λ c h. ground arith) c cs refl v) refl,
          split_on-joined c cs v,
        )
        refl

  -- strtok_r on the line yields its columns, where none is empty.
  pub tokens-tsv_line :
      All (λ col. drop_empty (col ∷ []) ≡ col ∷ []) (c ∷ cs)
      → tokens (λ d. d == 9 || is_line_end d) (tsv_line (c ∷ cs)) ≡ c ∷ cs
  unfolding tokens
  tokens-tsv_line full = ap drop_empty (split_on-tsv_line c cs v) ∙ drop_empty-full (c ∷ cs) full

-- What is printed is plain.
print_nat-IsPlain : (n : ℕ) → IsPlain (print_nat n)
print_nat-IsPlain n =
    All-map IsDigit (Fails special) (λ c h. ground arith) (print_nat n) (print_nat-IsDigit n)

print_int-IsPlain : (z : ℤ) → IsPlain (print_int z)
unfolding print_int
print_int-IsPlain (pos n) = print_nat-IsPlain n
print_int-IsPlain (negsuc n) = (refl, print_nat-IsPlain (suc n))

print_bool-IsPlain : (b : Bool) → IsPlain (print_bool b)
print_bool-IsPlain true = (refl, tt)
print_bool-IsPlain false = (refl, tt)

xd-plain : (n : ℕ) → n < 16 → special (xd n) ≡ false
xd-plain n h = ground arith

to_hex-IsPlain : (s : List ℕ) → All IsByte s → IsPlain (secret16_to_hex s)
unfolding secret16_to_hex
to_hex-IsPlain [] h = tt
to_hex-IsPlain (b ∷ bs) (small, h) =
    (xd-plain (b / 16) (omega arith), (xd-plain (b % 16) (omega arith), to_hex-IsPlain bs h))

label_char-plain : (c : ℕ) → Kept label_char c → special c ≡ false
label_char-plain c h = ground arith

ip_char-plain : (c : ℕ) → Kept ip_char c → special c ≡ false
ip_char-plain c h = ground arith

pub entry_columns-IsPlain :
    (next counters : ℕ) (m : Metric) (e : Entry)
    → IsEntry next counters e
    → All IsPlain (entry_columns m e)
unfolding entry_columns
entry_columns-IsPlain next counters m e v = (
  rw v.hex (to_hex-IsPlain e.secret v.secret.1),
  (
    print_bool-IsPlain e.enabled,
    (
      print_int-IsPlain e.expires_at,
      (
        print_int-IsPlain e.created_at,
        (
          print_int-IsPlain e.updated_at,
          (
            print_nat-IsPlain e.id,
            (
              print_int-IsPlain (signed64 m.bytes_in),
              (
                print_int-IsPlain (signed64 m.bytes_out),
                (
                  print_int-IsPlain (signed64 m.connections),
                  (
                    print_int-IsPlain e.last_seen_at,
                    (
                      All-map (Kept ip_char) (Fails special) (λ c h. ip_char-plain c h) e.last_ip
                          v.last_ip.clean_text,
                      (
                        All-map (Kept label_char) (Fails special) (λ c h. label_char-plain c h)
                            e.label v.label.clean_text,
                        tt,
                      ),
                    ),
                  ),
                ),
              ),
            ),
          ),
        ),
      ),
    ),
  ),
)

pub header_columns-IsPlain : (s : Store) → All IsPlain (header_columns s)
unfolding header_columns
header_columns-IsPlain s = (
  (refl, (refl, tt)),
  (
    print_int-IsPlain (signed64 s.total_in),
    (
      print_int-IsPlain (signed64 s.total_out),
      (print_int-IsPlain (signed64 s.total_connections), (print_nat-IsPlain s.next_id, tt)),
    ),
  ),
)
