-- ===== src/Secret/Command.antt =====
-- The administration commands on the store: ext_cmd_add, ext_cmd_remove, ext_cmd_set_enabled,
-- ext_cmd_update and ext_cmd_disable_expired of net/net-tcp-rpc-ext-server.c. Each runs under the
-- write lock, so a call is one step on the state.
use mtprotor.Base.{
  ℕ, ◌+◌, Bool, true, false, ◌&&◌, Option, none, some, List, [], ◌∷◌, if◌then◌else◌, modify,
}
use mtprotor.Base.Int.{ℤ, pos, ltb_ℤ, leb_ℤ}
use mtprotor.Base.Remove.{swap_remove}
use mtprotor.Secret.Add.{add_locked, find_idx}
use mtprotor.Secret.Hex.{secret16_from_hex}
use mtprotor.Secret.Persist.{persist}
use mtprotor.Secret.State.{Store, Env, Entry, Rc, bad_format, not_found}
use mtprotor.Secret.Text.{sanitize_label}

unfoldable pub cmd_add : Env → Option (List ℕ) → Option (List ℕ) → ℤ → Bool → Store → Rc × Store
cmd_add env hex label expires_at enabled s = elim (secret16_from_hex hex) [
  | none ↦ (bad_format, s)
  | some secret ↦ add_locked env secret label expires_at enabled true true s
]

-- What the other three share: the secret is read and looked up, and `change` is made at its index.
unfoldable pub at_secret :
    Env → Option (List ℕ) → (ℕ → List Entry → List Entry) → Store → Rc × Store
at_secret env hex change s = elim (secret16_from_hex hex) [
  | none ↦ (bad_format, s)
  | some secret ↦ elim (find_idx secret s) [
    | none ↦ (not_found, s)
    | some idx ↦ persist env (record s { entries = change idx s.entries })
  ]
]

unfoldable pub cmd_remove : Env → Option (List ℕ) → Store → Rc × Store
unfolding at_secret
cmd_remove env hex s = at_secret env hex (λ idx es. swap_remove es idx) s

unfoldable pub switched : Env → Bool → Entry → Entry
switched env enabled e = record e { enabled = enabled; updated_at = env.now }

unfoldable pub cmd_set_enabled : Env → Option (List ℕ) → Bool → Store → Rc × Store
unfolding at_secret
cmd_set_enabled env hex enabled s =
    at_secret env hex (λ idx es. modify es idx (switched env enabled)) s

-- An argument that the request does not have is `none`; `label` may be NULL besides.
unfoldable pub updated : Env → Option (Option (List ℕ)) → Option ℤ → Option Bool → Entry → Entry
updated env label expires_at enabled e = record e {
  label = elim label [
    | none ↦ e.label
    | some none ↦ sanitize_label (some [])
    | some (some text) ↦ sanitize_label (some text)
  ];
  expires_at = elim expires_at [
    | none ↦ e.expires_at
    | some t ↦ if ltb_ℤ (pos 0) t then t else pos 0
  ];
  enabled = elim enabled [ none ↦ e.enabled | some b ↦ b ];
  updated_at = env.now;
}

unfoldable pub cmd_update :
    Env → Option (List ℕ) → Option (Option (List ℕ)) → Option ℤ → Option Bool → Store → Rc × Store
unfolding at_secret
cmd_update env hex label expires_at enabled s =
    at_secret env hex (λ idx es. modify es idx (updated env label expires_at enabled)) s

unfoldable pub is_expired : ℤ → Entry → Bool
is_expired now e = e.enabled && (ltb_ℤ (pos 0) e.expires_at && leb_ℤ e.expires_at now)

unfoldable pub retired : ℤ → Entry → Entry
retired now e = record e { enabled = false; updated_at = now }

-- The loop, with the numbers checked and disabled so far.
unfoldable pub disable_loop : ℤ → ℕ → ℕ → List Entry → List Entry × ℕ × ℕ
disable_loop now checked disabled [] = ([], checked, disabled)
disable_loop now checked disabled (e ∷ es) =
    let gone = is_expired now e in
    let (es', c, d) = disable_loop now (checked + 1) (disabled + (if gone then 1 else 0)) es in
    ((if gone then retired now e else e) ∷ es', c, d)

-- The results are the code, `*checked_out`, `*disabled_out` and `*now_out`.
pub record Swept : Type 0 where
  pub rc : Rc
  pub checked : ℕ
  pub disabled : ℕ
  pub used_now : ℤ
  pub store : Store

unfoldable pub cmd_disable_expired : Env → ℤ → Store → Swept
cmd_disable_expired env asked s =
    let now = if leb_ℤ asked (pos 0) then env.now else asked in
    let (es, checked, disabled) = disable_loop now 0 0 s.entries in
    let (rc, t) = persist env (record s { entries = es }) in
    record { rc = rc; checked = checked; disabled = disabled; used_now = now; store = t }
