-- ===== src/Secret/Sweep.antt =====
-- ext_cmd_disable_expired: what the sweep of expired secrets rewrites and counts.
use mtprotor.Base.{
  ℕ, ◌+◌, ◌≡◌, refl, ap, List, [], ◌∷◌, arith, length, map, if◌then◌else◌, Bool-cases, inl, inr,
}
use mtprotor.Base.Int.{ℤ, pos, leb_ℤ}
use mtprotor.Base.Search.{count}
use mtprotor.Secret.Command.{is_expired, retired, disable_loop, cmd_disable_expired}
use mtprotor.Secret.Persist.{persist}
use mtprotor.Secret.Preserve.{persist-IsValid}
use mtprotor.Secret.State.{Store, Env, Entry}
use mtprotor.Secret.Valid.{IsValid, Keeps, map-Good}

-- The loop rewrites each entry by this.
unfoldable pub swept : ℤ → Entry → Entry
swept now e = if is_expired now e then retired now e else e

pub disable_loop_lem :
    (now : ℤ) (c d : ℕ) (es : List Entry)
    → ((disable_loop now c d es).0 ≡ map (swept now) es)
      × ((disable_loop now c d es).1 ≡ c + length es)
      × ((disable_loop now c d es).2 ≡ d + count (is_expired now) es)
unfolding disable_loop swept count
disable_loop_lem now c d [] = (refl, omega arith, omega arith)
disable_loop_lem now c d (e ∷ es) =
    let g : ℕ = if is_expired now e then 1 else 0 in
    let (m, n, k) = disable_loop_lem now (c + 1) (d + g) es in
    (ap (λ t. swept now e ∷ t) m, omega (arith, n), ground (arith, k))

pub swept-Keeps : (now : ℤ) → Keeps (swept now)
unfolding swept retired
swept-Keeps now = record {
  secret = λ e. ground arith;
  hex = λ e. ground arith;
  id = λ e. ground arith;
  label = λ e v. elim (Bool-cases (is_expired now e)) [ inl h ↦ rw h v | inr h ↦ rw h v ];
  last_ip = λ e v. elim (Bool-cases (is_expired now e)) [ inl h ↦ rw h v | inr h ↦ rw h v ];
}

unfoldable pub used_now : Env → ℤ → ℤ
used_now env asked = if leb_ℤ asked (pos 0) then env.now else asked

-- The store after the sweep, before the state file is written.
unfoldable pub swept_store : Env → ℤ → Store → Store
swept_store env asked s = record s { entries = map (swept (used_now env asked)) s.entries }

pub cmd_disable_expired_store :
    (env : Env) (asked : ℤ) (s : Store)
    → (cmd_disable_expired env asked s).store ≡ (persist env (swept_store env asked s)).1
unfolding cmd_disable_expired swept_store used_now
cmd_disable_expired_store env asked s =
    let now = used_now env asked in
    ap (λ es. (persist env (record s { entries = es })).1) (disable_loop_lem now 0 0 s.entries).0

pub cmd_disable_expired-IsValid :
    (env : Env) (asked : ℤ) (s : Store)
    → IsValid s
    → IsValid (cmd_disable_expired env asked s).store
unfolding swept_store
cmd_disable_expired-IsValid env asked s v = rw (cmd_disable_expired_store env asked s) (
    persist-IsValid env (swept_store env asked s)
      (map-Good v (swept (used_now env asked)) (swept-Keeps (used_now env asked))))
