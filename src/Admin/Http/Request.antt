-- ===== src/Admin/Http/Request.antt =====
-- What an HTTP request asks for, and the token that it has: ext_admin_handle_http and
-- ext_http_extract_token_from_uri of net/net-tcp-rpc-ext-server.c.
use mtprotor.Admin.Http.{get_header_value, scan_word, cut_at}
use mtprotor.Base.{
  ℕ, ◌-◌, Bool, true, not, ◌&&◌, Option, none, some, List, [], ◌∷◌, ltb, ◌==◌, if◌then◌else◌,
  length, take, drop, same_bytes,
}
use mtprotor.Base.Ctype.{has_prefix}
use mtprotor.Base.Fields.{split_on}
use mtprotor.Base.Text.{codes}

-- EXT_SECRET_ADMIN_TOKEN_MAX, EXT_SECRET_LABEL_MAX and the size of the buffer of a secret.
abbrev pub token_max : ℕ
token_max = 128

-- ext_http_extract_token_from_uri: the loop over the pieces between `&`.
unfoldable pub token_piece : ℕ → List (List ℕ) → Option (List ℕ)
token_piece out_size [] = none
token_piece out_size (piece ∷ rest) =
    let later = token_piece out_size rest in
    if ltb 6 (length piece) && has_prefix piece (codes "token=")
    then some (take (out_size - 1) (drop 6 piece))
    else later

unfoldable pub extract_token_from_uri : List ℕ → ℕ → Option (List ℕ)
extract_token_from_uri uri out_size = elim (cut_at b'?' uri) [
  | none ↦ none
  | some r ↦ token_piece out_size (split_on (λ c. c == b'&') r.1)
]

-- The chain of tests on the method and the path.
pub data Route : Type 0 where
  get_status get_stats get_secrets post_secrets post_sweep unknown : Route
  delete_one patch_one : List ℕ → Route

unfoldable pub route_of : List ℕ → List ℕ → Route
route_of method path =
    if same_bytes method (codes "GET") && same_bytes path (codes "/v1/status")
    then get_status
    else if same_bytes method (codes "GET") && same_bytes path (codes "/v1/stats")
    then get_stats
    else if same_bytes method (codes "GET") && same_bytes path (codes "/v1/secrets")
    then get_secrets
    else if same_bytes method (codes "POST") && same_bytes path (codes "/v1/secrets")
    then post_secrets
    else if same_bytes method (codes "POST") && same_bytes path (codes "/v1/secrets/expire_disable")
    then post_sweep
    else if same_bytes method (codes "DELETE") && has_prefix path (codes "/v1/secrets/")
    then delete_one (drop 12 path)
    else if same_bytes method (codes "PATCH") && has_prefix path (codes "/v1/secrets/")
    then patch_one (drop 12 path)
    else unknown

-- The token of a request: the header, or the pair of the URI where there is no header.
unfoldable pub request_token : List ℕ → List ℕ → Option (List ℕ)
request_token headers uri = elim (get_header_value headers (codes "X-Admin-Token") token_max) [
  | some token ↦ some token
  | none ↦ extract_token_from_uri uri token_max
]

unfoldable pub is_locked : List ℕ → List ℕ → List ℕ → Bool
is_locked token headers uri =
    not (length token == 0)
    && elim (request_token headers uri) [ none ↦ true | some t ↦ not (same_bytes t token) ]

-- The first line, as sscanf reads it.
pub record RequestLine : Type 0 where
  pub method : List ℕ
  pub uri : List ℕ
  pub version : List ℕ

unfoldable pub read_request_line : List ℕ → RequestLine
read_request_line headers =
    let m = scan_word 15 headers in
    let u = scan_word 1023 m.1 in record { method = m.0; uri = u.0; version = (scan_word 15 u.1).0 }
