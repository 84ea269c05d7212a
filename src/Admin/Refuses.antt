-- ===== src/Admin/Refuses.antt =====
-- Lines without the token: the test of ext_secret_admin_token in ext_admin_handle_line.
use mtprotor.Admin.Answer.{send_err}
use mtprotor.Admin.Handle.{is_refused, handle_line}
use mtprotor.Admin.Line.{Request, find_kv, request_of}
use mtprotor.Base.{
  ℕ, true, false, some, List, ◌≡◌, ◌≢◌, ◌⊎◌, refl, ap, ◌∙◌, length, ◌==◌, Bool-cases, Option-cases,
  inl, inr, same_bytes, same_bytes_eq,
}
use mtprotor.Base.Text.{codes}
use mtprotor.Secret.State.{Store, Env}

-- A request is refused unless it has the token that is set.
is_refused_lem :
    (token : List ℕ) (r : Request)
    → (length token == 0) ≡ false
    → find_kv r.pairs (codes "token") ≢ some token
    → is_refused token r ≡ true
unfolding is_refused
is_refused_lem token r set wrong = elim (Option-cases (find_kv r.pairs (codes "token"))) [
  | inl missing ↦ rw (set, missing) refl
  | inr (t, given) ↦ elim (Bool-cases (same_bytes t token)) [
    | inl same ↦ absurd (wrong (given ∙ ap some (same_bytes_eq t token same)))
    | inr other ↦ rw (set, given, other) refl
  ]
]

-- Where a token is set, a line whose request does not have it as its first pair `token` is answered
-- by an error and changes nothing.
pub handle_line-refused :
    (env : Env) (token line : List ℕ) (s : Store)
    → (length token == 0) ≡ false
    → ((r : Request) → request_of line ≡ some r → find_kv r.pairs (codes "token") ≢ some token)
    → (handle_line env token line s ≡ (send_err (codes "unauthorized"), s))
      ⊎ (handle_line env token line s ≡ (send_err (codes "empty command"), s))
unfolding handle_line
handle_line-refused env token line s set wrong = elim (Option-cases (request_of line)) [
  | inl empty ↦ inr (rw (empty, handle_line) refl)
  | inr (r, is) ↦ inl (rw (is, handle_line, is_refused_lem token r set (wrong r is)) refl)
]
