-- ===== src/Secret/Persist.antt =====
-- The state file: ext_persist_locked, tcp_rpcs_set_secrets_state_file and tcp_rpcs_flush_secrets_state of
-- net/net-tcp-rpc-ext-server.c. The text is written to a
-- temporary file that is then renamed; no write error is looked at there.
use mtprotor.Base.{
  ℕ, ◌+◌, Bool, true, false, none, some, List, [], ◌∷◌, ◌++◌, ltb, leb, ◌==◌, if◌then◌else◌, length,
  get_elem?, not, ◌||◌, take, Option, ◌-◌,
}
use mtprotor.Base.Decimal.{print_nat, print_int}
use mtprotor.Base.Text.{codes}
use mtprotor.Secret.State.{Store, Env, Entry, Metric, zero_metric, signed64, Rc, done, failed}

-- ext_secret_metrics[id] where the id is in range, and zeros otherwise.
unfoldable pub metric_of : List Metric → ℕ → Metric
metric_of metrics id =
    if ltb 0 id
    then elim (get_elem? metrics id) [ some m ↦ m | none ↦ zero_metric ]
    else zero_metric

abbrev pub tab : List ℕ
tab = 9 ∷ []

abbrev pub print_bool : Bool → List ℕ
print_bool true = codes "1"
print_bool false = codes "0"

-- Columns joined by tabs, and a newline.
unfoldable pub tsv_line : List (List ℕ) → List ℕ
tsv_line [] = 10 ∷ []
tsv_line (c ∷ []) = c ++ (10 ∷ [])
tsv_line (c ∷ d ∷ cs) = c ++ (9 ∷ tsv_line (d ∷ cs))

unfoldable pub header_columns : Store → List (List ℕ)
header_columns s =
    codes "v3"
    ∷ print_int (signed64 s.total_in)
    ∷ print_int (signed64 s.total_out)
    ∷ print_int (signed64 s.total_connections)
    ∷ print_nat s.next_id
    ∷ []

unfoldable pub entry_columns : Metric → Entry → List (List ℕ)
entry_columns m e =
    e.hex
    ∷ print_bool e.enabled
    ∷ print_int e.expires_at
    ∷ print_int e.created_at
    ∷ print_int e.updated_at
    ∷ print_nat e.id
    ∷ print_int (signed64 m.bytes_in)
    ∷ print_int (signed64 m.bytes_out)
    ∷ print_int (signed64 m.connections)
    ∷ print_int e.last_seen_at
    ∷ e.last_ip
    ∷ e.label
    ∷ []

unfoldable pub render_entries : Store → List Entry → List ℕ
render_entries s [] = []
render_entries s (e ∷ es) =
    tsv_line (entry_columns (metric_of s.metrics e.id) e) ++ render_entries s es

unfoldable pub render : Store → List ℕ
render s = tsv_line (header_columns s) ++ render_entries s s.entries

-- PATH_MAX, and the length of ".tmpXXXXXX".
abbrev pub path_max : ℕ
path_max = 4096

unfoldable pub persist : Env → Store → Rc × Store
persist env s =
    if length s.state_file == 0
    then (done, s)
    else if not env.mkdirs_ok
        || leb path_max (length s.state_file + 10)
        || not env.mkstemp_ok
        || not env.fdopen_ok
        || not env.rename_ok
    then (failed, s)
    else (done, record s { disk = some (env.written (render s)) })

-- tcp_rpcs_set_secrets_state_file, for a path that may be NULL; `found` is what the file system holds
-- at the new path.
unfoldable pub set_secrets_state_file : Option (List ℕ) → Option (List ℕ) → Store → Store
set_secrets_state_file none found s = record s { state_file = []; disk = found }
set_secrets_state_file (some path) found s = record s {
  state_file = take (path_max - 1) path;
  disk = found;
}

-- tcp_rpcs_flush_secrets_state
unfoldable pub flush_secrets_state : Env → Store → Rc × Store
flush_secrets_state env s = persist env s
