-- ===== src/Admin/Http/Routes.antt =====
-- The routes of ext_admin_handle_http of net/net-tcp-rpc-ext-server.c.
use mtprotor.Admin.Answer.{column}
use mtprotor.Admin.Http.{
  Status, ok, created, bad_request, unauthorized, missing, conflict, internal, send_json,
  send_error, cut_at,
}
use mtprotor.Admin.Json.{Got, strstr, json_get_string, json_get_int64, json_get_bool}
use mtprotor.Admin.Stats.{
  StrBuf, empty_buf, sb_append, append_stats_json, append_list_json, status_json,
}
use mtprotor.Base.{
  ℕ, ◌-◌, Bool, true, false, not, ◌&&◌, ◌||◌, Option, none, some, List, [], ◌∷◌, ◌++◌, ◌==◌,
  if◌then◌else◌, length, take, drop, same_bytes,
}
use mtprotor.Base.Decimal.{print_nat, print_int}
use mtprotor.Base.Fields.{before_first}
use mtprotor.Base.Int.{ℤ, pos}
use mtprotor.Base.Text.{codes}
use mtprotor.Secret.Command.{cmd_add, cmd_remove, cmd_set_enabled, cmd_update, cmd_disable_expired}
use mtprotor.Secret.State.{Store, Env, Rc, done, failed, bad_format, not_found}
use mtprotor.Admin.Http.Request.{
  Route, route_of, is_locked, read_request_line, get_status, get_stats, get_secrets, post_secrets,
  post_sweep, unknown, delete_one, patch_one,
}

-- What is sent, and the store behind the call.
abbrev pub Reply : Type 0
Reply = List ℕ × Store

abbrev pub label_max : ℕ
label_max = 96

abbrev pub secret_max : ℕ
secret_max = 64

abbrev pub ok_json : List ℕ
ok_json = codes "{\"ok\":true}"

-- The answers for the results of a command.
unfoldable pub answer_of : Env → Status → Status → List ℕ → Status → List ℕ → Rc × Store → Reply
answer_of env good fail_code failure missing_code absent (done, s) = (send_json good ok_json, s)
answer_of env good fail_code failure missing_code absent (failed, s) =
    (send_error env fail_code failure, s)
answer_of env good fail_code failure missing_code absent (bad_format, s) =
    (send_error env bad_request (codes "invalid secret format"), s)
answer_of env good fail_code failure missing_code absent (not_found, s) =
    (send_error env missing_code absent, s)

-- The answers that a buffer is filled for.
unfoldable pub send_buf : Env → Option StrBuf → List ℕ
send_buf env none = send_error env internal (codes "oom")
send_buf env (some b) = send_json ok b.text

-- The value of `expires`, or of `expires_at` where that is not there, or the text of an error.
pub data Expires : Type 0 where
  invalid : List ℕ → Expires
  given : Option ℤ → Expires

unfoldable pub read_expires : List ℕ → Expires
read_expires body = elim (json_get_int64 body (codes "expires")) [
  | none ↦ invalid (codes "invalid expires")
  | some (some v) ↦ given (some v)
  | some none ↦ elim (json_get_int64 body (codes "expires_at")) [
    | none ↦ invalid (codes "invalid expires_at")
    | some v ↦ given v
  ]
]

-- The C string in a label's buffer that began as the empty string: without a NUL behind what was
-- written, it goes on with what the memory holds from there on, `stale`.
unfoldable pub label_buffer : (ℕ → List ℕ) → Got → List ℕ
label_buffer stale got =
    if got.ok || length got.written == 0
    then got.written
    else got.written ++ stale (length got.written)

abbrev pub or_else {ℓ} : {A : Type ℓ} → A → Option A → A
or_else d none = d
or_else d (some v) = v

-- POST /v1/secrets
unfoldable pub post_secret : Env → (ℕ → List ℕ) → List ℕ → Store → Reply
post_secret env stale body s =
    let secret = json_get_string body (codes "secret") secret_max in
    let label = label_buffer stale (json_get_string body (codes "label") label_max) in
    if not secret.ok
    then (send_error env bad_request (codes "secret is required"), s)
    else elim (read_expires body) [
      | invalid msg ↦ (send_error env bad_request msg, s)
      | given expires ↦ elim (json_get_bool body (codes "enabled")) [
        | none ↦ (send_error env bad_request (codes "invalid enabled"), s)
        | some enabled ↦
            answer_of env created conflict (codes "add failed") conflict (codes "add failed") (
              cmd_add env (some secret.written) (some label) (or_else (pos 0) expires)
                (or_else true enabled) s)
      ]
    ]

-- POST /v1/secrets/expire_disable
unfoldable pub post_expire_disable : Env → List ℕ → Store → Reply
post_expire_disable env body s = elim (json_get_int64 body (codes "now")) [
  | none ↦ (send_error env bad_request (codes "invalid now"), s)
  | some now ↦
      let r = cmd_disable_expired env (or_else (pos 0) now) s in
      let failure = send_error env internal (codes "update failed") in
      elim r.rc [
        | done ↦ (
          send_buf env (
              sb_append env
                (column (codes "{\"ok\":true,\"checked\":") (print_nat r.checked) (
                  column (codes ",\"disabled\":") (print_nat r.disabled)
                    (column (codes ",\"now\":") (print_int r.used_now) (codes "}"))))
                empty_buf),
          r.store,
        )
        | failed ↦ (failure, r.store)
        | bad_format ↦ (failure, r.store)
        | not_found ↦ (failure, r.store)
      ]
]

abbrev pub on_one : Env → List ℕ → Rc × Store → Reply
on_one env failure r = answer_of env ok internal failure missing (codes "secret not found") r

-- DELETE /v1/secrets/<secret>
unfoldable pub delete_secret : Env → List ℕ → Store → Reply
delete_secret env secret s =
    if length secret == 0
    then (send_error env bad_request (codes "secret is required"), s)
    else on_one env (codes "remove failed") (cmd_remove env (some secret) s)

-- PATCH /v1/secrets/<secret>/enable and /disable
unfoldable pub patch_action : Env → List ℕ → List ℕ → Store → Reply
patch_action env secret action s =
    if same_bytes action (codes "enable")
    then on_one env (codes "update failed") (cmd_set_enabled env (some secret) true s)
    else if same_bytes action (codes "disable")
    then on_one env (codes "update failed") (cmd_set_enabled env (some secret) false s)
    else (send_error env missing (codes "not found"), s)

abbrev pub is_absent {ℓ} : {A : Type ℓ} → Option A → Bool
is_absent none = true
is_absent (some v) = false

-- PATCH /v1/secrets/<secret>
unfoldable pub patch_secret : Env → List ℕ → List ℕ → Store → Reply
patch_secret env secret body s =
    let label = json_get_string body (codes "label") label_max in
    elim (read_expires body) [
      | invalid msg ↦ (send_error env bad_request msg, s)
      | given expires ↦ elim (json_get_bool body (codes "enabled")) [
        | none ↦ (send_error env bad_request (codes "invalid enabled"), s)
        | some enabled ↦
            if not label.ok && is_absent expires && is_absent enabled
            then (send_error env bad_request (codes "nothing to update"), s)
            else on_one env (codes "update failed") (
                cmd_update env (some secret) (if label.ok then some (some label.written) else none)
                  expires enabled s)
      ]
    ]

unfoldable pub patch : Env → List ℕ → List ℕ → Store → Reply
patch env tail body s = elim (cut_at b'/' tail) [
  | none ↦ patch_secret env tail body s
  | some r ↦ patch_action env r.0 r.1 s
]

unfoldable pub run_route : Env → (ℕ → List ℕ) → Route → List ℕ → Store → Reply
run_route env stale get_status body s =
    (send_buf env (sb_append env (status_json env s) empty_buf), s)
run_route env stale get_stats body s = (send_buf env (append_stats_json env s empty_buf), s)
run_route env stale get_secrets body s = (send_buf env (append_list_json env s empty_buf), s)
run_route env stale post_secrets body s = post_secret env stale body s
run_route env stale post_sweep body s = post_expire_disable env body s
run_route env stale (delete_one secret) body s = delete_secret env secret s
run_route env stale (patch_one tail) body s = patch env tail body s
run_route env stale unknown body s = (send_error env missing (codes "not found"), s)

unfoldable pub handle_http : Env → List ℕ → (ℕ → List ℕ) → List ℕ → Store → Reply
handle_http env token stale req s = elim (strstr req (13 ∷ 10 ∷ 13 ∷ 10 ∷ [])) [
  | none ↦ (send_error env bad_request (codes "invalid http request"), s)
  | some p ↦
      let headers = take (length req - length p) req in
      let line = read_request_line headers in
      if length line.version == 0
      then (send_error env bad_request (codes "invalid request line"), s)
      else if is_locked token headers line.uri
      then (send_error env unauthorized (codes "unauthorized"), s)
      else run_route env stale (route_of line.method (before_first (λ c. c == b'?') line.uri))
          (drop 4 p) s
]
