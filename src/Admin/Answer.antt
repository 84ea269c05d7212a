-- ===== src/Admin/Answer.antt =====
-- What is answered: ext_admin_send_err and the answers to STATUS and LIST in ext_admin_handle_line of
-- net/net-tcp-rpc-ext-server.c.
use mtprotor.Base.{ℕ, Option, none, some, List, [], ◌∷◌, ◌++◌, ltb, if◌then◌else◌, length}
use mtprotor.Base.Decimal.{print_nat, print_int}
use mtprotor.Base.Int.{ℤ}
use mtprotor.Base.Text.{codes}
use mtprotor.Secret.Active.{total_secret_count, active_secret_count}
use mtprotor.Secret.Persist.{metric_of, print_bool}
use mtprotor.Secret.State.{Store, Env, Entry, Metric, signed64, add64}

-- snprintf into a buffer of `room` bytes, and ext_write_all of the number of bytes that it returns;
-- `none` where these are not the text, or lie behind the buffer.
unfoldable pub sent : ℕ → List ℕ → Option (List ℕ)
sent room text = if ltb (length text) room then some text else none

-- One write after another.
abbrev pub and_then : Option (List ℕ) → Option (List ℕ) → Option (List ℕ)
and_then none b = none
and_then (some a) none = none
and_then (some a) (some b) = some (a ++ b)

unfoldable pub send_err : List ℕ → Option (List ℕ)
send_err msg = sent 256 (codes "ERR " ++ (msg ++ (10 ∷ [])))

-- `name=value` behind what is there, for the format strings.
abbrev pub column : List ℕ → List ℕ → List ℕ → List ℕ
column name value rest = name ++ (value ++ rest)

abbrev pub counter : ℕ → List ℕ
counter w = print_int (signed64 w)

unfoldable pub status_line : Env → Store → List ℕ
status_line env s = column (codes "OK total=") (print_nat (total_secret_count s)) (
    column (codes " active=") (print_nat (active_secret_count s env.now)) (
      column (codes " now=") (print_int env.now) (
        column (codes " bytes_in=") (counter s.total_in) (
          column (codes " bytes_out=") (counter s.total_out) (
            column (codes " bytes_total=") (counter (add64 s.total_in s.total_out))
              (column (codes " connections=") (counter s.total_connections) (10 ∷ [])))))))

unfoldable pub list_head : Env → Store → List ℕ
list_head env s = column (codes "OK total=") (print_nat (total_secret_count s)) (
    column (codes " active=") (print_nat (active_secret_count s env.now)) (
      column (codes " bytes_in=") (counter s.total_in) (
        column (codes " bytes_out=") (counter s.total_out) (
          column (codes " bytes_total=") (counter (add64 s.total_in s.total_out))
            (column (codes " connections=") (counter s.total_connections) (10 ∷ []))))))

unfoldable pub list_line : Metric → Entry → List ℕ
list_line m e = column (codes "secret=") e.hex (
    column (codes " id=") (print_nat e.id) (
      column (codes " enabled=") (print_bool e.enabled) (
        column (codes " expires=") (print_int e.expires_at) (
          column (codes " created=") (print_int e.created_at) (
            column (codes " updated=") (print_int e.updated_at) (
              column (codes " bytes_in=") (counter m.bytes_in) (
                column (codes " bytes_out=") (counter m.bytes_out) (
                  column (codes " bytes_total=") (counter (add64 m.bytes_in m.bytes_out)) (
                    column (codes " connections=") (counter m.connections) (
                      column (codes " last_seen=") (print_int e.last_seen_at) (
                        column (codes " last_ip=") e.last_ip
                          (column (codes " label=") e.label (10 ∷ [])))))))))))))

unfoldable pub list_lines : List Metric → List Entry → Option (List ℕ)
list_lines metrics [] = some (codes "." ++ (10 ∷ []))
list_lines metrics (e ∷ es) =
    and_then (sent 512 (list_line (metric_of metrics e.id) e)) (list_lines metrics es)

unfoldable pub list_answer : Env → Store → Option (List ℕ)
list_answer env s = and_then (sent 512 (list_head env s)) (list_lines s.metrics s.entries)

unfoldable pub status_answer : Env → Store → Option (List ℕ)
status_answer env s = sent 256 (status_line env s)

unfoldable pub swept_line : ℕ → ℕ → ℤ → List ℕ
swept_line checked disabled now = column (codes "OK checked=") (print_nat checked) (
    column (codes " disabled=") (print_nat disabled)
      (column (codes " now=") (print_int now) (10 ∷ [])))
