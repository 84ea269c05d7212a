-- ===== src/Admin/Handle.antt =====
-- ext_admin_handle_line of net/net-tcp-rpc-ext-server.c.
use mtprotor.Admin.Answer.{sent, send_err, list_answer, status_answer, swept_line}
use mtprotor.Admin.Line.{Pair, Request, find_kv, request_of}
use mtprotor.Admin.Stats.{empty_buf, append_stats_json}
use mtprotor.Base.{
  ℕ, Bool, true, not, ◌&&◌, ◌||◌, Option, none, some, List, [], ◌∷◌, ◌++◌, ◌==◌, if◌then◌else◌,
  length, same_bytes,
}
use mtprotor.Base.Ctype.{same_nocase}
use mtprotor.Base.Int.{ℤ, pos}
use mtprotor.Base.Scan.{atoll}
use mtprotor.Base.Text.{codes}
use mtprotor.Secret.Command.{cmd_add, cmd_remove, cmd_set_enabled, cmd_disable_expired}
use mtprotor.Secret.State.{Store, Env, Rc, done, failed, bad_format, not_found}
use mtprotor.Secret.Text.{parse_bool}

-- What is sent, and the store behind the call.
abbrev pub Reply : Type 0
Reply = Option (List ℕ) × Store

abbrev pub ok : Option (List ℕ)
ok = some (codes "OK" ++ (10 ∷ []))

-- The answers for the results of a command: `failure` for -1 and `missing` for -3.
unfoldable pub outcome : List ℕ → List ℕ → Rc × Store → Reply
outcome failure missing (done, s) = (ok, s)
outcome failure missing (failed, s) = (send_err failure, s)
outcome failure missing (bad_format, s) = (send_err (codes "invalid secret format"), s)
outcome failure missing (not_found, s) = (send_err missing, s)

abbrev pub no_secret : List ℕ
no_secret = codes "secret not found"

abbrev pub number_or_0 : Option (List ℕ) → ℤ
number_or_0 none = pos 0
number_or_0 (some text) = atoll text

abbrev pub text_or_empty : Option (List ℕ) → List ℕ
text_or_empty none = []
text_or_empty (some text) = text

unfoldable pub stats_answer : Env → Store → Option (List ℕ)
stats_answer env s = elim (append_stats_json env s empty_buf) [
  | none ↦ send_err (codes "oom")
  | some b ↦ some (b.text ++ (10 ∷ []))
]

unfoldable pub sweep_reply : Env → List Pair → Store → Reply
sweep_reply env kv s =
    let r = cmd_disable_expired env (number_or_0 (find_kv kv (codes "now"))) s in
    elim r.rc [
      | done ↦ (sent 256 (swept_line r.checked r.disabled r.used_now), r.store)
      | failed ↦ (send_err (codes "update failed"), r.store)
      | bad_format ↦ (send_err (codes "update failed"), r.store)
      | not_found ↦ (send_err (codes "update failed"), r.store)
    ]

-- The commands on one secret, which is required.
unfoldable pub with_secret : List Pair → (List ℕ → Reply) → Store → Reply
with_secret kv act s = elim (find_kv kv (codes "secret")) [
  | none ↦ (send_err (codes "secret is required"), s)
  | some secret ↦ act secret
]

unfoldable pub add_reply : Env → List Pair → List ℕ → Store → Reply
add_reply env kv secret s = outcome (codes "add failed") (codes "add failed") (
    cmd_add env (some secret) (some (text_or_empty (find_kv kv (codes "label"))))
      (number_or_0 (find_kv kv (codes "expires"))) (parse_bool (find_kv kv (codes "enabled")) true)
      s)

pub data Command : Type 0 where
  ping status stats list expire_disable add remove unknown : Command
  switch : Bool → Command

-- The chain of tests on the first word.
unfoldable pub command_of : List ℕ → Command
command_of cmd =
    if same_nocase cmd (codes "PING")
    then ping
    else if same_nocase cmd (codes "STATUS")
    then status
    else if same_nocase cmd (codes "STATS")
    then stats
    else if same_nocase cmd (codes "LIST")
    then list
    else if same_nocase cmd (codes "EXPIRE_DISABLE") || same_nocase cmd (codes "SYNC_EXPIRED")
    then expire_disable
    else if same_nocase cmd (codes "ADD")
    then add
    else if same_nocase cmd (codes "REMOVE")
    then remove
    else if same_nocase cmd (codes "ENABLE") || same_nocase cmd (codes "DISABLE")
    then switch (same_nocase cmd (codes "ENABLE"))
    else unknown

unfoldable pub run_command : Env → Command → List Pair → Store → Reply
run_command env ping kv s = (some (codes "OK PONG" ++ (10 ∷ [])), s)
run_command env status kv s = (status_answer env s, s)
run_command env stats kv s = (stats_answer env s, s)
run_command env list kv s = (list_answer env s, s)
run_command env expire_disable kv s = sweep_reply env kv s
run_command env add kv s = with_secret kv (λ secret. add_reply env kv secret s) s
run_command env remove kv s =
    with_secret kv
      (λ secret. outcome (codes "remove failed") no_secret (cmd_remove env (some secret) s)) s
run_command env (switch enable) kv s =
    with_secret kv
      (λ secret.
        outcome (codes "update failed") no_secret (cmd_set_enabled env (some secret) enable s))
      s
run_command env unknown kv s = (send_err (codes "unknown command"), s)

-- Whether a token is set and the request does not have it.
unfoldable pub is_refused : List ℕ → Request → Bool
is_refused token r =
    not (length token == 0)
    && elim (find_kv r.pairs (codes "token")) [ none ↦ true | some t ↦ not (same_bytes t token) ]

-- `token` is ext_secret_admin_token.
unfoldable pub handle_line : Env → List ℕ → List ℕ → Store → Reply
handle_line env token line s = elim (request_of line) [
  | none ↦ (send_err (codes "empty command"), s)
  | some r ↦
      if is_refused token r
      then (send_err (codes "unauthorized"), s)
      else run_command env (command_of r.command) r.pairs s
]
