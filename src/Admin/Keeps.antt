-- ===== src/Admin/Keeps.antt =====
-- The invariant of the secret store under the lines of the administration protocol.
use mtprotor.Admin.Handle.{
  Reply, outcome, sweep_reply, with_secret, add_reply, number_or_0, Command, ping, status, stats,
  list, expire_disable, add, remove, switch, unknown, command_of, run_command, is_refused,
  handle_line,
}
use mtprotor.Admin.Line.{Pair, find_kv, request_of}
use mtprotor.Base.{ℕ, Bool, true, false, Option, some, List, if◌then◌else◌, Option-cases, inl, inr}
use mtprotor.Base.Text.{codes}
use mtprotor.Secret.Command.{cmd_disable_expired}
use mtprotor.Secret.Operations.{cmd_add-IsValid, cmd_remove-IsValid, cmd_set_enabled-IsValid}
use mtprotor.Secret.State.{Store, Env, Rc, done, failed, bad_format, not_found}
use mtprotor.Secret.Sweep.{cmd_disable_expired-IsValid}
use mtprotor.Secret.Valid.{IsValid}

-- An answer does not change the store.
outcome-IsValid :
    (failure missing : List ℕ) (rc : Rc) (s : Store)
    → IsValid s
    → IsValid (outcome failure missing (rc, s)).1
unfolding outcome
outcome-IsValid failure missing done s v = v
outcome-IsValid failure missing failed s v = v
outcome-IsValid failure missing bad_format s v = v
outcome-IsValid failure missing not_found s v = v

module _ (env : Env) (s : Store) (v : IsValid s) where
  sweep_reply-IsValid : (kv : List Pair) → IsValid (sweep_reply env kv s).1
  unfolding sweep_reply
  sweep_reply-IsValid kv =
      let r = cmd_disable_expired env (number_or_0 (find_kv kv (codes "now"))) s in
      same_store r.rc _ _ r.store
        (cmd_disable_expired-IsValid env (number_or_0 (find_kv kv (codes "now"))) s v)
    where
      same_store :
          (rc : Rc) (a b : Option (List ℕ)) (t : Store)
          → IsValid t
          → IsValid
              (elim rc as (λ x. Reply) [
                | done ↦ (a, t)
                | failed ↦ (b, t)
                | bad_format ↦ (b, t)
                | not_found ↦ (b, t)
              ]).1
      same_store done a b t h = h
      same_store failed a b t h = h
      same_store bad_format a b t h = h
      same_store not_found a b t h = h

  with_secret-IsValid :
      (kv : List Pair) (act : List ℕ → Reply)
      → ((secret : List ℕ) → IsValid (act secret).1)
      → IsValid (with_secret kv act s).1
  unfolding with_secret
  with_secret-IsValid kv act h = elim (Option-cases (find_kv kv (codes "secret"))) [
    | inl missing ↦ rw (missing, with_secret) v
    | inr (secret, given) ↦ rw (given, with_secret) (h secret)
  ]

  choice : (b : Bool) (x y : Reply) → IsValid x.1 → IsValid y.1 → IsValid (if b then x else y).1
  choice true x y h k = h
  choice false x y h k = k

  run_command-IsValid : (c : Command) (kv : List Pair) → IsValid (run_command env c kv s).1
  unfolding run_command add_reply
  run_command-IsValid ping kv = v
  run_command-IsValid status kv = v
  run_command-IsValid stats kv = v
  run_command-IsValid list kv = v
  run_command-IsValid expire_disable kv = sweep_reply-IsValid kv
  run_command-IsValid add kv =
      with_secret-IsValid kv _
        (λ secret. outcome-IsValid _ _ _ _ (cmd_add-IsValid env (some secret) _ _ _ s v))
  run_command-IsValid remove kv =
      with_secret-IsValid kv _
        (λ secret. outcome-IsValid _ _ _ _ (cmd_remove-IsValid env s v (some secret)))
  run_command-IsValid (switch enable) kv =
      with_secret-IsValid kv _
        (λ secret. outcome-IsValid _ _ _ _ (cmd_set_enabled-IsValid env s v (some secret) enable))
  run_command-IsValid unknown kv = v

  -- Any line, with or without the right token, leaves a valid store.
  pub handle_line-IsValid : (token line : List ℕ) → IsValid (handle_line env token line s).1
  unfolding handle_line
  handle_line-IsValid token line = elim (Option-cases (request_of line)) [
    | inl empty ↦ rw (empty, handle_line) v
    | inr (r, is) ↦
        rw (is, handle_line)
          (choice (is_refused token r) _ _ v (run_command-IsValid (command_of r.command) r.pairs))
  ]
