-- ===== src/Secret/Load.antt =====
-- Reading the state file: ext_split_tsv_line, ext_is_int_str and tcp_rpcs_load_secrets_state of
-- net/net-tcp-rpc-ext-server.c.
pub mod Columns
pub mod Replace
pub mod Lines
pub mod Keeps
pub mod Reading
pub mod Restore
pub mod Printed
pub mod Header
pub mod Roundtrip
use mtprotor.Base.{
  ℕ, zero, suc, ◌+◌, ◌-◌, Bool, true, false, not, ◌&&◌, ◌||◌, Option, none, some, List, [], ◌∷◌,
  ◌++◌, ltb, leb, ◌==◌, if◌then◌else◌, length, get_elem?, modify, take,
}
use mtprotor.Base.Ctype.{isdigit, has_prefix}
use mtprotor.Base.Fields.{lines, split_on, tokens, before_first, is_nul, field}
use mtprotor.Base.Int.{ℤ, pos, negsuc, pos_part, ltb_ℤ}
use mtprotor.Base.Scan.{atoi, atoll}
use mtprotor.Secret.Add.{has_id, find_idx}
use mtprotor.Secret.Hex.{secret16_to_hex, secret16_from_hex}
use mtprotor.Secret.Persist.{metric_of}
use mtprotor.Secret.Reserve.{reserve, metrics_reserve, cap_overflows}
use mtprotor.Secret.State.{Store, Env, Entry, Metric, Rc, done, failed, add64, word64}
use mtprotor.Secret.Text.{sanitize_label, sanitize_ip}
use mtprotor.Secret.Load.Columns.{
  is_tab, is_line_end, split_tsv_line, all_isdigit, is_int_str, pattern64, Row, is_nonzero,
  parse_row,
}

-- Whether an entry other than the one at `idx` has the id; `i` is the index of the first of `es`.
unfoldable pub id_taken : ℕ → Option ℕ → ℕ → List Entry → Bool
id_taken id idx i [] = false
id_taken id idx i (e ∷ es) =
    let rest = id_taken id idx (i + 1) es in
    if not (elim idx [ none ↦ false | some j ↦ i == j ]) && e.id == id then true else rest

-- The id that a line asks for, and 0 where it asks for none or for one that is taken.
unfoldable pub free_id : Option ℕ → ℤ → List Entry → ℕ
free_id idx parsed es =
    if ltb_ℤ (pos 0) parsed && not (id_taken (pos_part parsed) idx 0 es) then pos_part parsed else 0

-- The stores into an entry that is there already, but for its id.
unfoldable pub reread : Row → Entry → Entry
reread row e = record e {
  enabled = row.enabled;
  expires_at = row.expires_at;
  created_at = row.created_at;
  updated_at = row.updated_at;
  label = sanitize_label (some row.label);
  last_seen_at = if ltb_ℤ (pos 0) row.last_seen_at then row.last_seen_at else e.last_seen_at;
  last_ip = if length row.last_ip == 0 then e.last_ip else sanitize_ip (some row.last_ip);
}

-- The entry for a secret that is new.
unfoldable pub entry_from : Row → List ℕ → ℕ → Entry
entry_from row secret id = record {
  secret = secret;
  hex = secret16_to_hex secret;
  label = sanitize_label (some row.label);
  last_ip = if length row.last_ip == 0 then [] else sanitize_ip (some row.last_ip);
  id = id;
  enabled = row.enabled;
  created_at = row.created_at;
  updated_at = row.updated_at;
  expires_at = row.expires_at;
  last_seen_at = if ltb_ℤ (pos 0) row.last_seen_at then row.last_seen_at else pos 0;
}

-- The counters of an entry with room for them, and the next id above its id.
unfoldable pub restore_metric : Row → ℕ → Store → Store
restore_metric row id s = record s {
  metrics = if row.counted then modify s.metrics id (λ m. row.metric) else s.metrics;
  next_id = if leb s.next_id id then id + 1 else s.next_id;
}

-- What a line does: the loop goes on with the store, or ends with it, or the call does not come back,
-- since the doubling of the number of counters, an int, overflows.
pub data Step : Type 0 where
  next : Store → Step
  stop : Store → Step
  overflow : Step

-- ids are positive wherever they are set, so that `E->id > 0` holds behind these assignments. An int
-- that holds the next id is 2^31 - 1 at most, and where that is given out the number of counters
-- overflows as well.
unfoldable pub apply_existing : Env → Row → ℕ → Store → Step
apply_existing env row idx s = elim (get_elem? s.entries idx) [
  | none ↦ next s
  | some e ↦
      let asked = free_id (some idx) row.parsed_id s.entries in
      let id = if ltb 0 asked then asked else if e.id == 0 then s.next_id else e.id in
      let changed = record s {
        entries = modify s.entries idx (λ a. record (reread row a) { id = id });
        next_id = if ltb 0 asked then s.next_id else if e.id == 0 then s.next_id + 1 else s.next_id;
      } in
      if cap_overflows id s.metrics then overflow else elim (metrics_reserve env id changed) [
        | none ↦ next changed
        | some u ↦ next (restore_metric row id u)
      ]
]

unfoldable pub apply_new : Env → Row → List ℕ → Store → Step
apply_new env row secret s = elim (reserve env (length s.entries + 1) s) [
  | none ↦ stop s
  | some t ↦
      let asked = free_id none row.parsed_id s.entries in
      let id = if ltb 0 asked then asked else t.next_id in
      let numbered = record t { next_id = if ltb 0 asked then t.next_id else t.next_id + 1 } in
      if cap_overflows id t.metrics then overflow else elim (metrics_reserve env id numbered) [
        | none ↦ stop numbered
        | some u ↦ next (
            restore_metric row id
              (record u { entries = u.entries ++ (entry_from row secret id ∷ []) }))
      ]
]

-- A line with columns.
unfoldable pub apply_row : Env → Row → Store → Step
apply_row env row s = elim (secret16_from_hex (some row.hex)) [
  | none ↦ next s
  | some secret ↦ elim (find_idx secret s) [
    | some idx ↦ apply_existing env row idx s
    | none ↦ apply_new env row secret s
  ]
]

abbrev pub v3_tab : List ℕ
v3_tab = b'v' ∷ b'3' ∷ 9 ∷ []

abbrev pub v2_tab : List ℕ
v2_tab = b'v' ∷ b'2' ∷ 9 ∷ []

abbrev pub v1 : List ℕ
v1 = b'v' ∷ b'1' ∷ []

-- The line that says which id is next.
unfoldable pub read_header : List ℕ → Store → Store
read_header line s = elim (get_elem? (tokens (λ c. c == 9 || is_line_end c) line) 4) [
  | none ↦ s
  | some next_id_s ↦
      if ltb_ℤ (pos s.next_id) (atoi next_id_s)
      then record s { next_id = pos_part (atoi next_id_s) }
      else s
]

-- `raw` is a line with its newline; the functions on strings see what is before its first NUL.
unfoldable pub read_line : Env → List ℕ → Store → Step
read_line env raw s =
    let line = before_first is_nul raw in
    let cols = split_tsv_line line in
    if leb (length raw) 1 || has_prefix line (b'#' ∷ [])
    then next s
    else if has_prefix line v3_tab || has_prefix line v2_tab
    then next (read_header line s)
    else if has_prefix line v1
    then next s
    else if ltb (length cols) 5
    then next s
    else apply_row env (parse_row cols) s

-- `none` where the call does not come back.
unfoldable pub read_lines : Env → List (List ℕ) → Store → Option Store
read_lines env [] s = some s
read_lines env (raw ∷ rest) s = elim (read_line env raw s) [
  | stop t ↦ some t
  | next t ↦ read_lines env rest t
  | overflow ↦ none
]

-- The sums over the entries whose ids have counters.
unfoldable pub sum_metrics : List Metric → List Entry → Metric → Metric
sum_metrics metrics [] sum = sum
sum_metrics metrics (e ∷ es) sum = sum_metrics metrics es (
    if e.id == 0 || leb (length metrics) e.id then sum else record {
      bytes_in = add64 sum.bytes_in (metric_of metrics e.id).bytes_in;
      bytes_out = add64 sum.bytes_out (metric_of metrics e.id).bytes_out;
      connections = add64 sum.connections (metric_of metrics e.id).connections;
    })

unfoldable pub total_up : Store → Store
total_up s =
    let sum =
      sum_metrics s.metrics s.entries (record { bytes_in = 0; bytes_out = 0; connections = 0 }) in
    record s {
      total_in = sum.bytes_in;
      total_out = sum.bytes_out;
      total_connections = sum.connections;
      next_id = if ltb s.next_id 1 then 1 else s.next_id;
    }

-- The result and the store where the lines are done with.
abbrev pub loaded : Option Store → Option (Rc × Store)
loaded none = none
loaded (some t) = some (done, total_up t)

-- `fopen_ok` says whether a file that exists can be opened; `none` is a call that does not come back.
unfoldable pub load_secrets_state : Env → Bool → Store → Option (Rc × Store)
load_secrets_state env fopen_ok s =
    if length s.state_file == 0 then some (done, s) else elim s.disk [
      | none ↦ some (done, s)
      | some text ↦ if fopen_ok then loaded (read_lines env (lines text) s) else some (failed, s)
    ]
