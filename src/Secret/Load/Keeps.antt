-- ===== src/Secret/Load/Keeps.antt =====
-- The invariant of the secret store under the reading of a state file.
use mtprotor.Base.{
  ℕ, suc, ◌+◌, ◌<◌, ◌^◌, refl, if◌then◌else◌, Option, none, some, All, ◌≤◌, ◌≡◌, Bool, true, false,
  ◌||◌, List, [], ◌∷◌, arith, length, ltb, leb, ◌==◌, get_elem?, Bool-cases, Option-cases, inl, inr,
}
use mtprotor.Base.Int.{ℤ, pos, negsuc, pos_part, ltb_ℤ}
use mtprotor.Secret.Grow.{next-Good}
use mtprotor.Secret.Load.{
  Step, next, stop, overflow, read_header, read_line, read_lines, total_up, load_secrets_state,
}
use mtprotor.Secret.State.{Store, Env, Rc, done, failed}
use mtprotor.Secret.Valid.{IsValid}
use mtprotor.Secret.Load.Lines.{ValidTo, StepValid, apply_row-Valid}
use mtprotor.Secret.Load.{v3_tab, v2_tab, v1}
use mtprotor.Secret.Load.Columns.{split_tsv_line, parse_row, is_line_end}
use mtprotor.Base.Fields.{lines, tokens, before_first, is_nul}
use mtprotor.Base.Ctype.{has_prefix}
use mtprotor.Base.Scan.{atoi}

-- The number in the place of the next id, in the line that says which id is next.
abbrev header_id : List ℕ → ℕ
header_id line = elim (get_elem? (tokens (λ c. c == 9 || is_line_end c) line) 4) [
  | none ↦ 0
  | some digits ↦ pos_part (atoi digits)
]

-- The number that a line has in the place of an id, and 0 where it names none.
unfoldable pub line_id : List ℕ → ℕ
line_id raw =
    let line = before_first is_nul raw in
    if leb (length raw) 1 || has_prefix line (b'#' ∷ [])
    then 0
    else if has_prefix line v3_tab || has_prefix line v2_tab
    then header_id line
    else if has_prefix line v1
    then 0
    else if ltb (length (split_tsv_line line)) 5
    then 0
    else pos_part (parse_row (split_tsv_line line)).parsed_id

-- The lines of the state file.
unfoldable pub disk_lines : Store → List (List ℕ)
disk_lines s = elim s.disk [ none ↦ [] | some text ↦ lines text ]

-- The next id and the numbers that the file names are `n` at most, and with a new id for every line
-- the ids are below 2^30, so that an int holds the number of counters.
pub record FewIds (n : ℕ) (s : Store) : Type 0 where
  pub next_id : s.next_id ≤ n
  pub each : All (λ raw. line_id raw ≤ n) (disk_lines s)
  pub room : n + length (disk_lines s) ≤ 2 ^ 30

read_header-IsValid :
    (line : List ℕ) (m : ℕ) (s : Store)
    → header_id line ≤ m
    → ValidTo m s
    → ValidTo m (read_header line s)
unfolding read_header
read_header-IsValid line m s few (v, below) =
    elim (Option-cases (get_elem? (tokens (λ c. c == 9 || is_line_end c) line) 4)) [
      | inl short ↦ rw (short, read_header) (v, below)
      | inr (digits, here) ↦
          let low : pos_part (atoi digits) ≤ m = rw (header_id, here) at few in
          elim (Bool-cases (ltb_ℤ (pos s.next_id) (atoi digits))) [
            | inl more ↦
                rw (here, more, read_header)
                  (next-Good v (pos_part (atoi digits)) (above s.next_id (atoi digits) more), low)
            | inr less ↦ rw (here, less, read_header) (v, below)
          ]
    ]
  where
    above : (n : ℕ) (z : ℤ) → ltb_ℤ (pos n) z ≡ true → n ≤ pos_part z
    above n (pos k) h = ground arith
    above n (negsuc k) h = absurd (ground arith)

total_up-IsValid : (s : Store) → IsValid s → IsValid (total_up s)
unfolding total_up
total_up-IsValid s v =
    let fine : ltb s.next_id 1 ≡ false = let p = v.next_pos in ground arith in rw fine v

module _ (env : Env) (calloc_ok : env.calloc_ok ≡ true) where
  read_line-Valid :
      (raw : List ℕ) (m : ℕ) (s : Store)
      → m < 2 ^ 30
      → line_id raw ≤ m
      → ValidTo m s
      → StepValid (suc m) (read_line env raw s)
  unfolding read_line line_id
  read_line-Valid raw m s small few (v, below) =
      elim (Bool-cases (leb (length raw) 1 || has_prefix line (b'#' ∷ []))) [
        | inl empty ↦ rw empty (v, omega arith)
        | inr full ↦ elim (Bool-cases (has_prefix line v3_tab || has_prefix line v2_tab)) [
          | inl header ↦
              let low : header_id line ≤ m = rw (full, header) at few in
              let (w, le) = read_header-IsValid line m s low (v, below) in
              rw (full, header) (w, omega arith)
          | inr no_header ↦ elim (Bool-cases (has_prefix line v1)) [
            | inl old ↦ rw (full, no_header, old) (v, omega arith)
            | inr row ↦ elim (Bool-cases (ltb (length (split_tsv_line line)) 5)) [
              | inl short ↦ rw (full, no_header, row, short) (v, omega arith)
              | inr many ↦
                  let low : pos_part (parse_row (split_tsv_line line)).parsed_id ≤ m =
                    rw (full, no_header, row, many) at few in
                  rw (full, no_header, row, many)
                    (apply_row-Valid env calloc_ok (parse_row (split_tsv_line line)) m small low s
                      (v, below))
            ]
          ]
        ]
      ]
    where
      line : List ℕ
      line = before_first is_nul raw

  -- The reading comes back with a valid store.
  abbrev ReadValid : Option Store → Type 0
  ReadValid o = (u : Store) × (o ≡ some u) × IsValid u

  -- What a step left, and the lines behind it.
  go_on :
      (m : ℕ) (rest : List (List ℕ)) (step : Step)
      → ((t : Store) → ValidTo m t → ReadValid (read_lines env rest t))
      → StepValid m step
      → ReadValid (elim step [ stop t ↦ some t | next t ↦ read_lines env rest t | overflow ↦ none ])
  go_on m rest (next t) h v = h t v
  go_on m rest (stop t) h (v, below) = (t, refl, v)
  go_on m rest overflow h v = absurd v

  All-line_id_mono :
      (n m : ℕ) (raws : List (List ℕ))
      → n ≤ m
      → All (λ raw. line_id raw ≤ n) raws
      → All (λ raw. line_id raw ≤ m) raws
  All-line_id_mono n m [] le h = tt
  All-line_id_mono n m (raw ∷ raws) le (h, hs) = (omega arith, All-line_id_mono n m raws le hs)

  read_lines-IsValid :
      (raws : List (List ℕ)) (m : ℕ) (s : Store)
      → m + length raws ≤ 2 ^ 30
      → All (λ raw. line_id raw ≤ m) raws
      → ValidTo m s
      → ReadValid (read_lines env raws s)
  unfolding read_lines
  read_lines-IsValid [] m s room few (v, below) = (s, refl, v)
  read_lines-IsValid (raw ∷ rest) m s room (few, more) v =
      go_on (suc m) rest (read_line env raw s)
        (λ t.
          read_lines-IsValid rest (suc m) t (omega arith)
            (All-line_id_mono m (suc m) rest (omega arith) more))
        (read_line-Valid raw m s (omega arith) few v)

  -- Loading any state file into a valid store comes back and leaves a valid store, where the
  -- allocations of counters succeed and the next id, the ids that the file names and the new ids, one
  -- for each line, are below 2^30.
  pub load_secrets_state-IsValid :
      (fopen_ok : Bool) (n : ℕ) (s : Store)
      → FewIds n s
      → IsValid s
      → (rc : Rc) × (t : Store) × (load_secrets_state env fopen_ok s ≡ some (rc, t)) × IsValid t
  unfolding load_secrets_state disk_lines
  load_secrets_state-IsValid fopen_ok n s few v = elim (Bool-cases (length s.state_file == 0)) [
    | inl unset ↦ rw unset (done, s, refl, v)
    | inr named ↦ elim (Option-cases s.disk) [
      | inl no_file ↦ rw (named, no_file) (done, s, refl, v)
      | inr (text, file) ↦ elim (Bool-cases fopen_ok) [
        | inl opened ↦
            let room : n + length (lines text) ≤ 2 ^ 30 = rw file at few.room in
            let each : All (λ raw. line_id raw ≤ n) (lines text) = rw file at few.each in
            let (u, reads, w) = read_lines-IsValid (lines text) n s room each (v, few.next_id) in
            rw (named, file, opened, reads) (done, total_up u, refl, total_up-IsValid u w)
        | inr refused ↦ rw (named, file, refused) (failed, s, refl, v)
      ]
    ]
  ]
