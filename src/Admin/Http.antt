-- ===== src/Admin/Http.antt =====
-- The HTTP requests of the administration protocol: ext_admin_handle_http of
-- net/net-tcp-rpc-ext-server.c with the functions that read its headers and write its answers.
pub mod Request
pub mod Routes
pub mod Keeps
pub mod Refuses
use mtprotor.Admin.Stats.{empty_buf, sb_append}
use mtprotor.Base.{
  ℕ, zero, suc, ◌+◌, ◌-◌, Bool, true, false, not, ◌&&◌, ◌||◌, Option, none, some, List, [], ◌∷◌,
  ◌++◌, ltb, leb, ◌==◌, if◌then◌else◌, length, drop,
}
use mtprotor.Base.Ctype.{isspace, has_prefix, has_prefix_nocase}
use mtprotor.Base.Decimal.{print_nat}
use mtprotor.Base.Scan.{skip_spaces}
use mtprotor.Base.Text.{codes}
use mtprotor.Secret.State.{Env}

pub data Status : Type 0 where
  ok created bad_request unauthorized missing conflict internal : Status

abbrev pub status_code : Status → ℕ
status_code ok = 200
status_code created = 201
status_code bad_request = 400
status_code unauthorized = 401
status_code missing = 404
status_code conflict = 409
status_code internal = 500

-- ext_http_status_text
unfoldable pub status_text : Status → List ℕ
status_text ok = codes "OK"
status_text created = codes "Created"
status_text bad_request = codes "Bad Request"
status_text unauthorized = codes "Unauthorized"
status_text missing = codes "Not Found"
status_text conflict = codes "Conflict"
status_text internal = codes "Internal Server Error"

abbrev pub crlf : List ℕ
crlf = 13 ∷ 10 ∷ []

unfoldable pub header_text : Status → ℕ → List ℕ
header_text code size =
    codes "HTTP/1.1 "
    ++ (print_nat (status_code code)
        ++ (codes " "
            ++ (status_text code
                ++ (crlf
                    ++ (codes "Content-Type: application/json"
                        ++ (crlf
                            ++ (codes "Content-Length: "
                                ++ (print_nat size
                                    ++ (crlf
                                        ++ (codes "Connection: close" ++ (crlf ++ crlf)))))))))))

-- Nothing is sent where the header does not fit its buffer.
unfoldable pub send_json : Status → List ℕ → List ℕ
send_json code body =
    if leb 512 (length (header_text code (length body)))
    then []
    else header_text code (length body) ++ body

unfoldable pub send_error : Env → Status → List ℕ → List ℕ
send_error env code msg =
    elim (sb_append env (codes "{\"error\":\"" ++ (msg ++ codes "\"}")) empty_buf) [
      | none ↦ []
      | some b ↦ send_json code b.text
    ]

-- strcasestr: the text from the first place where the pattern stands.
unfoldable pub strcasestr : List ℕ → List ℕ → Option (List ℕ)
strcasestr [] pattern = if has_prefix_nocase [] pattern then some [] else none
strcasestr (c ∷ s) pattern =
    let rest = strcasestr s pattern in
    if has_prefix_nocase (c ∷ s) pattern then some (c ∷ s) else rest

unfoldable pub skip_blanks : List ℕ → List ℕ
skip_blanks [] = []
skip_blanks (c ∷ s) = if c == 32 || c == 9 then skip_blanks s else c ∷ s

-- The loop that copies a value, with room for so many characters.
unfoldable pub copy_value : ℕ → List ℕ → List ℕ
copy_value zero s = []
copy_value (suc room) [] = []
copy_value (suc room) (c ∷ s) = if c == 13 || c == 10 then [] else c ∷ copy_value room s

abbrev pub some_value : List ℕ → Option (List ℕ)
some_value [] = none
some_value (c ∷ s) = some (c ∷ s)

-- `none` is the result 0.
unfoldable pub get_header_value : List ℕ → List ℕ → ℕ → Option (List ℕ)
get_header_value headers name out_size =
    if leb 128 (length name + 3) || out_size == 0
    then none
    else elim (strcasestr headers (crlf ++ (name ++ codes ":"))) [
      | some p ↦ some_value (copy_value (out_size - 1) (skip_blanks (drop (length name + 3) p)))
      | none ↦
          if has_prefix_nocase headers (name ++ codes ":")
          then some_value (copy_value (out_size - 1) (skip_blanks (drop (length name + 1) headers)))
          else none
    ]

-- `sscanf` of %s with a width: the next word, at most `width` characters of it, and what follows.
unfoldable pub scan_chars : ℕ → List ℕ → List ℕ × List ℕ
scan_chars zero s = ([], s)
scan_chars (suc width) [] = ([], [])
scan_chars (suc width) (c ∷ s) = elim (isspace c) [
  | true ↦ ([], c ∷ s)
  | false ↦ let r = scan_chars width s in (c ∷ r.0, r.1)
]

abbrev pub scan_word : ℕ → List ℕ → List ℕ × List ℕ
scan_word width s = scan_chars width (skip_spaces s)

-- The text in front of the first such character and the text behind it.
unfoldable pub cut_at : ℕ → List ℕ → Option (List ℕ × List ℕ)
cut_at d [] = none
cut_at d (c ∷ s) = elim (c == d) [
  | true ↦ some ([], s)
  | false ↦ elim (cut_at d s) [ none ↦ none | some r ↦ some (c ∷ r.0, r.1) ]
]
