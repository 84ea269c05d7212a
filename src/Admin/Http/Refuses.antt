-- ===== src/Admin/Http/Refuses.antt =====
-- HTTP requests without the token: the test of ext_secret_admin_token in ext_admin_handle_http.
use mtprotor.Admin.Http.{send_error, bad_request, unauthorized}
use mtprotor.Admin.Http.Routes.{handle_http}
use mtprotor.Admin.Http.Request.{request_token, is_locked, read_request_line}
use mtprotor.Admin.Json.{strstr}
use mtprotor.Base.{
  ℕ, ◌-◌, true, false, some, List, [], ◌∷◌, ◌≡◌, ◌≢◌, ◌⊎◌, refl, ap, ◌∙◌, ◌==◌, length, take,
  Bool-cases, Option-cases, inl, inr, same_bytes, same_bytes_eq,
}
use mtprotor.Base.Text.{codes}
use mtprotor.Secret.State.{Store, Env}

-- A request that has a token is let in only with the one that is set.
is_locked_lem :
    (token headers uri : List ℕ)
    → (length token == 0) ≡ false
    → request_token headers uri ≢ some token
    → is_locked token headers uri ≡ true
unfolding is_locked
is_locked_lem token headers uri set wrong = elim (Option-cases (request_token headers uri)) [
  | inl missing ↦ rw (set, missing) refl
  | inr (t, given) ↦ elim (Bool-cases (same_bytes t token)) [
    | inl same ↦ absurd (wrong (given ∙ ap some (same_bytes_eq t token same)))
    | inr other ↦ rw (set, given, other) refl
  ]
]

-- The headers of a request: what is in front of the first empty line.
abbrev pub headers_of : List ℕ → List ℕ → List ℕ
headers_of req p = take (length req - length p) req

-- Where a token is set, a request is answered by an error and changes nothing if what the proxy reads as
-- its token, the first 127 characters of the first header X-Admin-Token or, where that is not there or
-- empty, the first 127 characters of the first pair `token` that is not empty among the first 1023
-- characters of its URI, is not the token that is set, or is not there.
pub handle_http-refused :
    (env : Env) (token : List ℕ) (stale : ℕ → List ℕ) (req : List ℕ) (s : Store)
    → (length token == 0) ≡ false
    → ((p : List ℕ)
        → strstr req (13 ∷ 10 ∷ 13 ∷ 10 ∷ []) ≡ some p
        → request_token (headers_of req p) (read_request_line (headers_of req p)).uri ≢ some token)
    → (handle_http env token stale req s ≡ (send_error env unauthorized (codes "unauthorized"), s))
      ⊎ (handle_http env token stale req s
          ≡ (send_error env bad_request (codes "invalid http request"), s))
      ⊎ (handle_http env token stale req s
          ≡ (send_error env bad_request (codes "invalid request line"), s))
unfolding handle_http
handle_http-refused env token stale req s set wrong =
    elim (Option-cases (strstr req (13 ∷ 10 ∷ 13 ∷ 10 ∷ []))) [
      | inl unended ↦ inr (inl (rw (handle_http, unended) refl))
      | inr (p, here) ↦
          elim (Bool-cases (length (read_request_line (headers_of req p)).version == 0)) [
            | inl short ↦ inr (inr (rw (handle_http, here, short) refl))
            | inr whole ↦
                let locked =
                  is_locked_lem token (headers_of req p) (read_request_line (headers_of req p)).uri
                    set (wrong p here) in
                inl (rw (handle_http, here, whole, locked) refl)
          ]
    ]
