-- ===== src/Tests/Http.antt =====
-- The HTTP requests of the administration protocol at concrete inputs.
use mtprotor.Admin.Client.{collect}
use mtprotor.Admin.Client.Laws.{Begins, stream, collect-Begins}
use mtprotor.Admin.Http.{
  send_error, bad_request, unauthorized, get_header_value, strcasestr, skip_blanks, copy_value,
}
use mtprotor.Admin.Http.Refuses.{headers_of, handle_http-refused}
use mtprotor.Admin.Http.Routes.{handle_http}
use mtprotor.Admin.Http.Request.{request_token, read_request_line}
use mtprotor.Admin.Json.{strstr, json_get_string}
use mtprotor.Admin.Json.Roundtrip.{field_body, json_get_string-field}
use mtprotor.Base.{
  ℕ, zero, suc, ◌+◌, Bool, true, false, ◌≡◌, ◌≢◌, ◌⊎◌, refl, sym, ap, ◌∙◌, Option, none, some, List,
  [], ◌∷◌, ◌++◌, arith, same_bytes,
}
use mtprotor.Base.Text.{codes}
use mtprotor.Tests.Secret.{calm, two}

-- What the memory behind a buffer holds.
abbrev dirt : ℕ → List ℕ
dirt i = codes "dirt"

abbrev post : List ℕ
post =
    codes
      "POST /v1/secrets HTTP/1.1\r\nX-Admin-Token: abc\r\n\r\n{\"secret\":\"000102030405060708090a0b0c0d0e0f\",\"expires_at\":1800000000,\"label\":\"new"

collect-Begins_example :
    Begins (collect (codes "li" ∷ codes "st\n" ∷ []) []) (stream (codes "li" ∷ codes "st\n" ∷ []))
collect-Begins_example = collect-Begins (codes "li" ∷ codes "st\n" ∷ []) [] (omega arith)

abbrev anonymous : List ℕ
anonymous = codes "GET / HTTP/1.1\r\n\r\n"

anonymous_headers : strstr anonymous (13 ∷ 10 ∷ 13 ∷ 10 ∷ []) ≡ some (codes "\r\n\r\n")
unfolding strstr mtprotor.Base.Ctype.has_prefix
anonymous_headers = refl

anonymous_token :
    request_token
      (headers_of anonymous (codes "\r\n\r\n"))
      (read_request_line (headers_of anonymous (codes "\r\n\r\n"))).uri
    ≡ none
unfolding request_token read_request_line get_header_value strcasestr
    mtprotor.Base.Ctype.has_prefix_nocase mtprotor.Admin.Http.Request.extract_token_from_uri
    mtprotor.Admin.Http.cut_at mtprotor.Admin.Http.scan_chars mtprotor.Base.Scan.skip_spaces
anonymous_token = refl

abbrev token_behind : Option (List ℕ) → Option (List ℕ)
token_behind none = none
token_behind (some p) =
    request_token (headers_of anonymous p) (read_request_line (headers_of anonymous p)).uri

anonymous_fails :
    (p : List ℕ)
    → strstr anonymous (13 ∷ 10 ∷ 13 ∷ 10 ∷ []) ≡ some p
    → request_token (headers_of anonymous p) (read_request_line (headers_of anonymous p)).uri
      ≢ some (codes "abc")
anonymous_fails p here right =
    let absent : token_behind (some p) ≡ none =
      ap token_behind (sym here ∙ anonymous_headers) ∙ anonymous_token in
    let clash : some (codes "abc") ≡ none = sym right ∙ absent in absurd cc

handle_http-refused_example :
    (handle_http calm (codes "abc") dirt anonymous two
      ≡ (send_error calm unauthorized (codes "unauthorized"), two))
    ⊎ (handle_http calm (codes "abc") dirt anonymous two
        ≡ (send_error calm bad_request (codes "invalid http request"), two))
    ⊎ (handle_http calm (codes "abc") dirt anonymous two
        ≡ (send_error calm bad_request (codes "invalid request line"), two))
handle_http-refused_example =
    handle_http-refused calm (codes "abc") dirt anonymous two refl anonymous_fails

json_get_string-field_example :
    json_get_string (field_body (codes "label") (codes "a\"b\\c") (codes "}")) (codes "label") 6
    ≡ record { ok = true; written = codes "a\"b\\c" }
json_get_string-field_example =
    json_get_string-field (codes "label") (codes "a\"b\\c") (codes "}") 6 (omega arith)
      (omega arith)
