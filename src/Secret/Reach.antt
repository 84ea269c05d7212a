-- ===== src/Secret/Reach.antt =====
-- The calls that change the secret store, as steps, and the states that they reach. The commands run
-- under the write lock; the counters of a connection change by atomic additions under the read lock,
-- so each call is one step.
use mtprotor.Base.{
  ℕ, ◌^◌, sym, ap, ◌∙◌, subst, ◌<◌, ◌≡◌, refl, Bool, true, false, Option, none, some, List, arith,
  length, Bool-cases, inl, inr, modify, ltb, ◌==◌, ◌&&◌, ◌||◌, not,
}
use mtprotor.Base.Int.{ℤ, pos, leb_ℤ}
use mtprotor.Base.Search.{count}
use mtprotor.Base.Text.{codes}
use mtprotor.Secret.Add.{find_idx_by_id, set_ext_secret}
use mtprotor.Secret.Command.{cmd_add, cmd_remove, cmd_set_enabled, cmd_update, cmd_disable_expired}
use mtprotor.Secret.Hex.Laws.{IsSecret}
use mtprotor.Secret.Operations.{
  cmd_add-IsValid, cmd_remove-IsValid, cmd_set_enabled-IsValid, cmd_update-IsValid,
}
use mtprotor.Secret.Persist.{metric_of, set_secrets_state_file, flush_secrets_state}
use mtprotor.Secret.Preserve.{persist-IsValid}
use mtprotor.Secret.State.{Store, Env, Entry, Metric, Rc, initial}
use mtprotor.Secret.Steps.{add_locked-IsValid}
use mtprotor.Secret.Sweep.{cmd_disable_expired-IsValid}
use mtprotor.Secret.Text.Clean.{sanitize_ip-IsIp}
use mtprotor.Secret.Traffic.{
  Connection, seen, one_more, attach_secret_to_connection, note_connection_traffic,
}
use mtprotor.Secret.Grow.{count-Good, count_if-Good}
use mtprotor.Secret.Load.{load_secrets_state}
use mtprotor.Secret.Load.Keeps.{FewIds, load_secrets_state-IsValid}
use mtprotor.Secret.Valid.{Good, IsValid, Keeps, modify-Good}

seen-Keeps : (env : Env) (ip : List ℕ) → Keeps (seen env ip)
unfolding seen
seen-Keeps env ip = record {
  secret = λ e. refl;
  hex = λ e. refl;
  id = λ e. refl;
  label = λ e v. v;
  last_ip = λ e v. elim (Bool-cases (length ip == 0)) [
    | inl h ↦ rw h v
    | inr h ↦ rw h (sanitize_ip-IsIp (some ip))
  ];
}

module _ {es : List Entry} {room next : ℕ} {metrics : List Metric}
    (v : Good es room next metrics) where
  seen-Good :
      (env : Env) (ip : List ℕ) (o : Option ℕ)
      → Good (elim o [ none ↦ es | some idx ↦ modify es idx (seen env ip) ]) room next metrics
  seen-Good env ip none = v
  seen-Good env ip (some idx) = modify-Good v idx (seen env ip) (seen-Keeps env ip)

pub attach-IsValid :
    (env : Env) (c : Connection) (id : ℕ) (s : Store)
    → id < s.next_id
    → IsValid s
    → IsValid (attach_secret_to_connection env c id s).1
unfolding attach_secret_to_connection
attach-IsValid env c id s old v = elim (Bool-cases (id == 0 || c.secret_id == id)) [
  | inl skip ↦ rw (skip, attach_secret_to_connection) v
  | inr fresh ↦
      rw (fresh, attach_secret_to_connection)
        (seen-Good (count_if-Good v id one_more old (ltb id (length s.metrics))) env c.remote_ip
          (find_idx_by_id id s))
]

pub note-IsValid :
    (c : Connection) (bytes_in bytes_out : ℤ) (s : Store)
    → c.secret_id < s.next_id
    → IsValid s
    → IsValid (note_connection_traffic c bytes_in bytes_out s)
unfolding note_connection_traffic
note-IsValid c i o s old v = elim (Bool-cases (leb_ℤ i (pos 0) && leb_ℤ o (pos 0))) [
  | inl idle ↦ rw (idle, note_connection_traffic) v
  | inr busy ↦ elim (Bool-cases (not (ltb 0 c.secret_id && ltb c.secret_id (length s.metrics)))) [
    | inl unknown ↦ rw (busy, unknown, note_connection_traffic) v
    | inr known ↦ rw (busy, known, note_connection_traffic) (count-Good v c.secret_id _ old)
  ]
]

-- One call, in any surroundings. A secret is added where the next id is below 2^30, so that an int
-- holds it and the number of counters. A connection carries the id of a secret that was there. The
-- state file is read where the allocations of counters succeed and its ids are small as well, and the
-- step is what the call gives where it comes back.
pub data Step (s : Store) : Store → Type 0 where
  bootstrap :
      (env : Env) (secret : List ℕ)
      → s.next_id < 2 ^ 30
      → IsSecret secret
      → Step s (set_ext_secret env secret s)
  add :
      (env : Env) (hex label : Option (List ℕ)) (expires_at : ℤ) (enabled : Bool)
      → s.next_id < 2 ^ 30
      → Step s (cmd_add env hex label expires_at enabled s).1
  remove : (env : Env) (hex : Option (List ℕ)) → Step s (cmd_remove env hex s).1
  set_enabled :
      (env : Env) (hex : Option (List ℕ)) (enabled : Bool)
      → Step s (cmd_set_enabled env hex enabled s).1
  update :
      (env : Env) (hex : Option (List ℕ)) (label : Option (Option (List ℕ))) (expires_at : Option ℤ)
      (enabled : Option Bool)
      → Step s (cmd_update env hex label expires_at enabled s).1
  disable_expired : (env : Env) (now : ℤ) → Step s (cmd_disable_expired env now s).store
  attach :
      (env : Env) (c : Connection) (id : ℕ)
      → id < s.next_id
      → Step s (attach_secret_to_connection env c id s).1
  note :
      (c : Connection) (bytes_in bytes_out : ℤ)
      → c.secret_id < s.next_id
      → Step s (note_connection_traffic c bytes_in bytes_out s)
  load :
      (env : Env)
      → env.calloc_ok ≡ true
      → (fopen_ok : Bool) (n : ℕ) → FewIds n s
      → (rc : Rc) (t : Store) → load_secrets_state env fopen_ok s ≡ some (rc, t)
      → Step s t
  set_file : (path found : Option (List ℕ)) → Step s (set_secrets_state_file path found s)
  flush : (env : Env) → Step s (flush_secrets_state env s).1

pub data Reach (s : Store) : Store → Type 0 where
  here : Reach s s
  next : {t u : Store} → Reach s t → Step t u → Reach s u

pub Step-IsValid : {s t : Store} → Step s t → IsValid s → IsValid t
unfolding set_ext_secret set_secrets_state_file flush_secrets_state
Step-IsValid {s} (bootstrap env secret few ok) v =
    add_locked-IsValid env (some (codes "bootstrap")) (pos 0) true secret false false s ok v
Step-IsValid {s} (add env hex label t b few) v = cmd_add-IsValid env hex label t b s v
Step-IsValid {s} (remove env hex) v = cmd_remove-IsValid env s v hex
Step-IsValid {s} (set_enabled env hex b) v = cmd_set_enabled-IsValid env s v hex b
Step-IsValid {s} (update env hex label t b) v = cmd_update-IsValid env s v hex label t b
Step-IsValid {s} (disable_expired env now) v = cmd_disable_expired-IsValid env now s v
Step-IsValid {s} (attach env c id old) v = attach-IsValid env c id s old v
Step-IsValid {s} (note c i o old) v = note-IsValid c i o s old v
Step-IsValid {s} (load env calloc_ok fopen_ok n few rc t came) v =
    let (rc', t', came', w) = load_secrets_state-IsValid env calloc_ok fopen_ok n s few v in
    let same_result : some (rc', t') ≡ some (rc, t) = sym came' ∙ came in
    let same : t' ≡ t = ap (λ o. elim o [ none ↦ t | some r ↦ r.1 ]) same_result in
    subst IsValid same w
Step-IsValid {s} (set_file none found) v = v
Step-IsValid {s} (set_file (some path) found) v = v
Step-IsValid {s} (flush env) v = persist-IsValid env s v

initial-IsValid : IsValid initial
initial-IsValid = record {
  fits = omega arith;
  next_pos = omega arith;
  one_secret = λ k. unfold count in omega arith;
  one_id = λ i. unfold count in omega arith;
  each = tt;
  unused = λ i q. unfold metric_of in ground arith;
}

-- From the initial state calls are made, each in any surroundings but for these conditions: a secret is
-- added, or set up at the start, only where the next id is below 2^30; a state file is loaded only
-- where the allocations of counters succeed and the next id, the ids that the file names and one new
-- id for each of its lines are below 2^30; and a connection carries an id that was given out. In every
-- state that such calls reach, no secret and no id stands twice, every entry has a 16-byte secret with
-- its own hexadecimal form and clean texts, its id was given out and has a counter, and the counters of
-- ids not given out are zero.
pub Reach-IsValid : {s : Store} → Reach initial s → IsValid s
Reach-IsValid here = initial-IsValid
Reach-IsValid (next r st) = Step-IsValid st (Reach-IsValid r)
