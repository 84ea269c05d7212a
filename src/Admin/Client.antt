-- ===== src/Admin/Client.antt =====
-- A client of the administration protocol: ext_admin_handle_client of net/net-tcp-rpc-ext-server.c,
-- which collects a request and hands it to one of the two handlers.
pub mod Laws
use mtprotor.Admin.Handle.{handle_line}
use mtprotor.Admin.Http.{get_header_value}
use mtprotor.Admin.Http.Routes.{handle_http}
use mtprotor.Admin.Json.{strstr}
use mtprotor.Base.{
  ℕ, zero, suc, ◌+◌, ◌-◌, Bool, true, false, not, ◌||◌, Option, none, some, List, [], ◌∷◌, ◌++◌,
  ltb, leb, ◌==◌, if◌then◌else◌, length, take,
}
use mtprotor.Base.Ctype.{has_prefix}
use mtprotor.Base.Fields.{before_first, is_nul}
use mtprotor.Base.Int.{pos, pos_part, leb_ℤ}
use mtprotor.Base.Scan.{atoi, to_int32}
use mtprotor.Base.Text.{codes}
use mtprotor.Secret.State.{Store, Env}

-- ext_http_parse_content_length
unfoldable pub parse_content_length : List ℕ → ℕ
parse_content_length headers = elim (get_header_value headers (codes "Content-Length") 64) [
  | none ↦ 0
  | some val ↦ pos_part (atoi val)
]

unfoldable pub is_http_method_prefix : List ℕ → Bool
is_http_method_prefix buf =
    has_prefix buf (codes "GET ")
    || has_prefix buf (codes "POST ")
    || has_prefix buf (codes "PATCH ")
    || has_prefix buf (codes "DELETE ")

unfoldable pub has_newline : List ℕ → Bool
has_newline [] = false
has_newline (c ∷ s) = c == 10 || has_newline s

-- Whether the loop ends behind these bytes: `text` is the string in the buffer and `len` the number
-- of bytes. The int that is needed wraps around.
unfoldable pub is_complete : List ℕ → ℕ → Bool
is_complete text len =
    if not (is_http_method_prefix text)
    then has_newline text
    else elim (strstr text (13 ∷ 10 ∷ 13 ∷ 10 ∷ [])) [
      | none ↦ false
      | some p ↦
          leb_ℤ (to_int32 (pos (length text - length p + 4 + parse_content_length text))) (pos len)
    ]

-- sizeof (buf) - 1
abbrev pub buffer_room : ℕ
buffer_room = 16383

-- The loop over what recv yields, of which it takes what the buffer has room for. An empty piece is
-- the end of the stream or an error.
unfoldable pub collect : List (List ℕ) → List ℕ → List ℕ
collect [] buf = buf
collect (piece ∷ rest) buf =
    let got = buf ++ take (buffer_room - length buf) piece in
    let more = collect rest got in
    if leb buffer_room (length buf) || length piece == 0
    then buf
    else if is_complete (before_first is_nul got) (length got)
    then got
    else more

unfoldable pub handle_client :
    Env → List ℕ → (ℕ → List ℕ) → List (List ℕ) → Store → Option (List ℕ) × Store
handle_client env token stale pieces s =
    let buf = collect pieces [] in
    let text = before_first is_nul buf in
    if length buf == 0
    then (some [], s)
    else if is_http_method_prefix text
    then (some (handle_http env token stale text s).0, (handle_http env token stale text s).1)
    else handle_line env token text s
