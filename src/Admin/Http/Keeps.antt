-- ===== src/Admin/Http/Keeps.antt =====
-- The invariant of the secret store under HTTP requests.
use mtprotor.Admin.Http.{Status, cut_at}
use mtprotor.Admin.Http.Routes.{
  Reply, label_max, answer_of, Expires, invalid, given, read_expires, or_else, is_absent,
  post_secret, post_expire_disable, delete_secret, patch_action, patch_secret, patch, run_route,
  handle_http,
}
use mtprotor.Admin.Http.Request.{
  Route, get_status, get_stats, get_secrets, post_secrets, post_sweep, unknown, delete_one,
  patch_one, is_locked, read_request_line, route_of,
}
use mtprotor.Admin.Json.{strstr, json_get_string, json_get_int64, json_get_bool}
use mtprotor.Base.{
  ℕ, ◌-◌, Bool, true, false, not, ◌&&◌, Option, none, some, List, [], ◌∷◌, ◌==◌, if◌then◌else◌,
  length, take, drop, same_bytes,
}
use mtprotor.Base.Fields.{before_first}
use mtprotor.Base.Int.{ℤ, pos}
use mtprotor.Base.Text.{codes}
use mtprotor.Secret.Command.{cmd_disable_expired}
use mtprotor.Secret.Operations.{
  cmd_add-IsValid, cmd_remove-IsValid, cmd_set_enabled-IsValid, cmd_update-IsValid,
}
use mtprotor.Secret.State.{Store, Env, Rc, done, failed, bad_format, not_found}
use mtprotor.Secret.Sweep.{cmd_disable_expired-IsValid}
use mtprotor.Secret.Valid.{IsValid}

-- A reply with a valid store.
abbrev Fine : Reply → Type 0
Fine r = IsValid r.1

answer_of-Fine :
    (env : Env) (good c d : Status) (f a : List ℕ) (rc : Rc) (s : Store)
    → IsValid s
    → Fine (answer_of env good c f d a (rc, s))
unfolding answer_of
answer_of-Fine env good c d f a done s v = v
answer_of-Fine env good c d f a failed s v = v
answer_of-Fine env good c d f a bad_format s v = v
answer_of-Fine env good c d f a not_found s v = v

choice : (b : Bool) (x y : Reply) → Fine x → Fine y → Fine (if b then x else y)
choice true x y h k = h
choice false x y h k = k

same_store :
    (rc : Rc) (a b : List ℕ) (t : Store)
    → IsValid t
    → Fine (elim rc as (λ x. Reply) [
      | done ↦ (a, t)
      | failed ↦ (b, t)
      | bad_format ↦ (b, t)
      | not_found ↦ (b, t)
    ])
same_store done a b t h = h
same_store failed a b t h = h
same_store bad_format a b t h = h
same_store not_found a b t h = h

cases_option :
    {A : Type 0} (o : Option A) (x : Reply) (f : A → Reply)
    → Fine x
    → ((a : A) → Fine (f a))
    → Fine (elim o as (λ y. Reply) [ none ↦ x | some a ↦ f a ])
cases_option none x f h k = h
cases_option (some a) x f h k = k a

cases_expires :
    (e : Expires) (f : List ℕ → Reply) (g : Option ℤ → Reply)
    → ((m : List ℕ) → Fine (f m))
    → ((t : Option ℤ) → Fine (g t))
    → Fine (elim e as (λ y. Reply) [ invalid msg ↦ f msg | given t ↦ g t ])
cases_expires (invalid m) f g h k = h m
cases_expires (given t) f g h k = k t

module _ (env : Env) (s : Store) (v : IsValid s) where
  post_secret-Fine : (stale : ℕ → List ℕ) (body : List ℕ) → Fine (post_secret env stale body s)
  unfolding post_secret
  post_secret-Fine stale body = choice (not (json_get_string body (codes "secret") 64).ok) _ _ v (
      cases_expires (read_expires body) _ _ (λ m. v)
        (λ t.
          cases_option (json_get_bool body (codes "enabled")) _ _ v
            (λ b. answer_of-Fine env _ _ _ _ _ _ _ (cmd_add-IsValid env _ _ _ _ s v))))

  post_expire_disable-Fine : (body : List ℕ) → Fine (post_expire_disable env body s)
  unfolding post_expire_disable
  post_expire_disable-Fine body = cases_option (json_get_int64 body (codes "now")) _ _ v (λ now.
      let r = cmd_disable_expired env (or_else (pos 0) now) s in
      same_store r.rc _ _ r.store (cmd_disable_expired-IsValid env (or_else (pos 0) now) s v))

  delete_secret-Fine : (secret : List ℕ) → Fine (delete_secret env secret s)
  unfolding delete_secret
  delete_secret-Fine secret =
      choice (length secret == 0) _ _ v
        (answer_of-Fine env _ _ _ _ _ _ _ (cmd_remove-IsValid env s v (some secret)))

  patch_action-Fine : (secret action : List ℕ) → Fine (patch_action env secret action s)
  unfolding patch_action
  patch_action-Fine secret action =
      choice (same_bytes action (codes "enable")) _ _
        (answer_of-Fine env _ _ _ _ _ _ _ (cmd_set_enabled-IsValid env s v (some secret) true))
        (choice (same_bytes action (codes "disable")) _ _
          (answer_of-Fine env _ _ _ _ _ _ _ (cmd_set_enabled-IsValid env s v (some secret) false))
          v)

  patch_secret-Fine : (secret body : List ℕ) → Fine (patch_secret env secret body s)
  unfolding patch_secret
  patch_secret-Fine secret body =
      cases_expires (read_expires body) _ _ (λ m. v)
        (λ t. cases_option (json_get_bool body (codes "enabled")) _ _ v (λ b.
          choice
            (not (json_get_string body (codes "label") label_max).ok && is_absent t && is_absent b)
            _ _ v
            (answer_of-Fine env _ _ _ _ _ _ _ (cmd_update-IsValid env s v (some secret) _ _ _))))

  patch-Fine : (tail body : List ℕ) → Fine (patch env tail body s)
  unfolding patch
  patch-Fine tail body =
      cases_option (cut_at b'/' tail) _ _ (patch_secret-Fine tail body)
        (λ r. patch_action-Fine r.0 r.1)

  run_route-Fine :
      (stale : ℕ → List ℕ) (r : Route) (body : List ℕ) → Fine (run_route env stale r body s)
  unfolding run_route
  run_route-Fine stale get_status body = v
  run_route-Fine stale get_stats body = v
  run_route-Fine stale get_secrets body = v
  run_route-Fine stale post_secrets body = post_secret-Fine stale body
  run_route-Fine stale post_sweep body = post_expire_disable-Fine body
  run_route-Fine stale (delete_one secret) body = delete_secret-Fine secret
  run_route-Fine stale (patch_one tail) body = patch-Fine tail body
  run_route-Fine stale unknown body = v

  -- Any HTTP request, whatever the memory held, leaves a valid store.
  pub handle_http-IsValid :
      (token : List ℕ) (stale : ℕ → List ℕ) (req : List ℕ)
      → IsValid (handle_http env token stale req s).1
  unfolding handle_http
  handle_http-IsValid token stale req =
      cases_option (strstr req (13 ∷ 10 ∷ 13 ∷ 10 ∷ [])) _ _ v (λ p.
        let headers = take (length req - length p) req in
        let line = read_request_line headers in
        choice (length line.version == 0) _ _ v (
          choice (is_locked token headers line.uri) _ _ v (
            run_route-Fine stale (route_of line.method (before_first (λ c. c == b'?') line.uri))
              (drop 4 p))))
