-- ===== src/Admin/Stats.antt =====
-- The statistics as JSON: struct ext_strbuf with ext_sb_grow and ext_sb_appendf, and
-- ext_http_append_stats_json of net/net-tcp-rpc-ext-server.c.
use mtprotor.Admin.Answer.{column, counter}
use mtprotor.Base.{
  ℕ, ◌+◌, Bool, true, false, Option, none, some, List, [], ◌∷◌, ◌++◌, leb, ◌==◌, if◌then◌else◌,
  length,
}
use mtprotor.Base.Decimal.{print_nat, print_int}
use mtprotor.Base.Text.{codes}
use mtprotor.Secret.Active.{is_active, total_secret_count, active_secret_count}
use mtprotor.Secret.Persist.{metric_of}
use mtprotor.Secret.Reserve.{double_below}
use mtprotor.Secret.State.{Store, Env, Entry, Metric, add64}

-- The text in the buffer, whose NUL has room behind it.
pub record StrBuf : Type 0 where
  pub text : List ℕ
  pub cap : ℕ

abbrev pub empty_buf : StrBuf
empty_buf = record { text = []; cap = 0 }

-- `if (ext_sb_appendf (...) < 0) return -1;`
infixl 20 ◌>>=◌
abbrev ◌>>=◌ : Option StrBuf → (StrBuf → Option StrBuf) → Option StrBuf
none >>= k = none
some b >>= k = k b

unfoldable pub sb_grow : Env → ℕ → StrBuf → Option StrBuf
sb_grow env extra b =
    if leb (length b.text + extra + 1) b.cap
    then some b
    else if env.realloc_ok
    then some (record b {
      cap =
          double_below (length b.text + extra + 1) (if b.cap == 0 then 512 else b.cap)
            (length b.text + extra + 1);
    })
    else none

unfoldable pub sb_append : Env → List ℕ → StrBuf → Option StrBuf
sb_append env s b = elim (sb_grow env (length s) b) [
  | none ↦ none
  | some c ↦ some (record c { text = c.text ++ s })
]

abbrev pub print_word : Bool → List ℕ
print_word true = codes "true"
print_word false = codes "false"

unfoldable pub totals_text : Env → Store → List ℕ
totals_text env s = column (codes "{\"ok\":true,\"now\":") (print_int env.now) (
    column (codes ",\"totals\":{\"bytes_in\":") (counter s.total_in) (
      column (codes ",\"bytes_out\":") (counter s.total_out) (
        column (codes ",\"bytes_total\":") (counter (add64 s.total_in s.total_out)) (
          column (codes ",\"connections\":") (counter s.total_connections) (
            column (codes "},\"secrets\":{\"total\":") (print_nat (total_secret_count s)) (
              column (codes ",\"active\":") (print_nat (active_secret_count s env.now))
                (codes ",\"items\":[")))))))

unfoldable pub item_text : Env → Metric → Entry → List ℕ
item_text env m e = column (codes "{\"secret\":\"") e.hex (
    column (codes "\",\"label\":\"") e.label (
      column (codes "\",\"id\":") (print_nat e.id) (
        column (codes ",\"enabled\":") (print_word e.enabled) (
          column (codes ",\"active\":") (print_word (is_active e env.now)) (
            column (codes ",\"bytes_in\":") (counter m.bytes_in) (
              column (codes ",\"bytes_out\":") (counter m.bytes_out) (
                column (codes ",\"bytes_total\":") (counter (add64 m.bytes_in m.bytes_out)) (
                  column (codes ",\"connections\":") (counter m.connections) (
                    column (codes ",\"last_seen\":") (print_int e.last_seen_at)
                      (column (codes ",\"last_ip\":\"") e.last_ip (codes "\"}")))))))))))

-- The loop, whose first entry has no comma in front of it.
unfoldable pub append_items : Env → List Metric → Bool → List Entry → StrBuf → Option StrBuf
append_items env metrics first [] b = some b
append_items env metrics first (e ∷ es) b = do
  c ← if first then some b else sb_append env (codes ",") b
  d ← sb_append env (item_text env (metric_of metrics e.id) e) c
  append_items env metrics false es d

unfoldable pub append_stats_json : Env → Store → StrBuf → Option StrBuf
append_stats_json env s b = do
  c ← sb_append env (totals_text env s) b
  d ← append_items env s.metrics true s.entries c
  sb_append env (codes "]}}") d

unfoldable pub status_json : Env → Store → List ℕ
status_json env s = column (codes "{\"ok\":true,\"total\":") (print_nat (total_secret_count s)) (
    column (codes ",\"active\":") (print_nat (active_secret_count s env.now)) (
      column (codes ",\"now\":") (print_int env.now) (
        column (codes ",\"bytes_in\":") (counter s.total_in) (
          column (codes ",\"bytes_out\":") (counter s.total_out) (
            column (codes ",\"bytes_total\":") (counter (add64 s.total_in s.total_out))
              (column (codes ",\"connections\":") (counter s.total_connections) (codes "}")))))))

-- ext_http_append_list_json
unfoldable pub list_item_text : Env → Metric → Entry → List ℕ
list_item_text env m e = column (codes "{\"secret\":\"") e.hex (
    column (codes "\",\"enabled\":") (print_word e.enabled) (
      column (codes ",\"active\":") (print_word (is_active e env.now)) (
        column (codes ",\"expires\":") (print_int e.expires_at) (
          column (codes ",\"created\":") (print_int e.created_at) (
            column (codes ",\"updated\":") (print_int e.updated_at) (
              column (codes ",\"id\":") (print_nat e.id) (
                column (codes ",\"bytes_in\":") (counter m.bytes_in) (
                  column (codes ",\"bytes_out\":") (counter m.bytes_out) (
                    column (codes ",\"bytes_total\":") (counter (add64 m.bytes_in m.bytes_out)) (
                      column (codes ",\"connections\":") (counter m.connections) (
                        column (codes ",\"last_seen\":") (print_int e.last_seen_at) (
                          column (codes ",\"last_ip\":\"") e.last_ip
                            (column (codes "\",\"label\":\"") e.label (codes "\"}"))))))))))))))

unfoldable pub append_list_items : Env → List Metric → Bool → List Entry → StrBuf → Option StrBuf
append_list_items env metrics first [] b = some b
append_list_items env metrics first (e ∷ es) b = do
  c ← if first then some b else sb_append env (codes ",") b
  d ← sb_append env (list_item_text env (metric_of metrics e.id) e) c
  append_list_items env metrics false es d

unfoldable pub append_list_json : Env → Store → StrBuf → Option StrBuf
append_list_json env s b = do
  c ← sb_append env (codes "{\"ok\":true,\"secrets\":[") b
  d ← append_list_items env s.metrics true s.entries c
  sb_append env (codes "]}") d
