-- ===== src/Secret/Add.antt =====
-- ext_find_idx_locked, ext_find_idx_by_id_locked, ext_add_locked and tcp_rpcs_set_ext_secret of
-- net/net-tcp-rpc-ext-server.c.
use mtprotor.Base.{
  ℕ, ◌+◌, Bool, true, false, Option, none, some, List, [], ◌∷◌, ◌++◌, leb, ◌==◌, if◌then◌else◌,
  length, get_elem?, modify, same_bytes,
}
use mtprotor.Base.Int.{ℤ, pos, ltb_ℤ, leb_ℤ}
use mtprotor.Base.Search.{find_index}
use mtprotor.Base.Text.{codes}
use mtprotor.Secret.Hex.{secret16_to_hex}
use mtprotor.Secret.Persist.{persist}
use mtprotor.Secret.Reserve.{reserve, metrics_reserve}
use mtprotor.Secret.State.{Store, Env, Entry, Rc, done, failed}
use mtprotor.Secret.Text.{sanitize_label}

abbrev pub has_secret : List ℕ → Entry → Bool
has_secret secret e = same_bytes e.secret secret

abbrev pub has_id : ℕ → Entry → Bool
has_id id e = e.id == id

abbrev pub find_idx : List ℕ → Store → Option ℕ
find_idx secret s = find_index (has_secret secret) s.entries

abbrev pub find_idx_by_id : ℕ → Store → Option ℕ
find_idx_by_id id s = find_index (has_id id) s.entries

-- `return persist ? ext_persist_locked () : 0;`
abbrev pub finish : Env → Bool → Store → Rc × Store
finish env persist_it s = if persist_it then persist env s else (done, s)

abbrev pub is_some_text : Option (List ℕ) → Bool
is_some_text none = false
is_some_text (some []) = false
is_some_text (some (c ∷ s)) = true

-- The stores into an entry that is there already, its id aside.
unfoldable pub refreshed : Env → Option (List ℕ) → ℤ → Bool → Entry → Entry
refreshed env label expires_at enabled e = record e {
  label = if is_some_text label then sanitize_label label else e.label;
  expires_at = if leb_ℤ (pos 0) expires_at then expires_at else e.expires_at;
  enabled = enabled;
  updated_at = env.now;
}

-- An entry whose id is not positive gets one first. `none` is the result -1 at that point.
unfoldable pub assign_id : Env → ℕ → Store → Option Store
assign_id env idx s = elim (get_elem? s.entries idx) [
  | none ↦ some s
  | some e ↦
      if leb e.id 0
      then elim (metrics_reserve env s.next_id s) [
        | none ↦ none
        | some t ↦ some (record t {
          entries = modify t.entries idx (λ a. record a { id = t.next_id });
          next_id = t.next_id + 1;
        })
      ]
      else some s
]

unfoldable pub add_existing :
    Env → ℕ → Option (List ℕ) → ℤ → Bool → Bool → Bool → Store → Rc × Store
add_existing env idx label expires_at enabled fail_if_exists persist_it s =
    elim (assign_id env idx s) [
      | none ↦ (failed, s)
      | some t ↦
          if fail_if_exists
          then (failed, t)
          else finish env persist_it
              (record t { entries = modify t.entries idx (refreshed env label expires_at enabled) })
    ]

-- The entry that is stored for a new secret.
unfoldable pub fresh_entry : Env → List ℕ → Option (List ℕ) → ℤ → Bool → ℕ → Entry
fresh_entry env secret label expires_at enabled id = record {
  secret = secret;
  hex = secret16_to_hex secret;
  label = sanitize_label label;
  last_ip = [];
  id = id;
  enabled = enabled;
  created_at = env.now;
  updated_at = env.now;
  expires_at = if ltb_ℤ (pos 0) expires_at then expires_at else pos 0;
  last_seen_at = pos 0;
}

-- Where the counters cannot grow the entry is taken back, and the larger array stays. The id that is
-- given out is the source's where an int can hold the number of its counters, that is below 2^30.
unfoldable pub add_new : Env → List ℕ → Option (List ℕ) → ℤ → Bool → Bool → Store → Rc × Store
add_new env secret label expires_at enabled persist_it s =
    elim (reserve env (length s.entries + 1) s) [
      | none ↦ (failed, s)
      | some t ↦ elim (metrics_reserve env t.next_id t) [
        | none ↦ (failed, t)
        | some u ↦ finish env persist_it (record u {
          entries = u.entries ++ (fresh_entry env secret label expires_at enabled u.next_id ∷ []);
          next_id = u.next_id + 1;
        })
      ]
    ]

unfoldable pub add_locked :
    Env → List ℕ → Option (List ℕ) → ℤ → Bool → Bool → Bool → Store → Rc × Store
add_locked env secret label expires_at enabled fail_if_exists persist_it s =
    elim (find_idx secret s) [
      | some idx ↦ add_existing env idx label expires_at enabled fail_if_exists persist_it s
      | none ↦ add_new env secret label expires_at enabled persist_it s
    ]

-- tcp_rpcs_set_ext_secret
unfoldable pub set_ext_secret : Env → List ℕ → Store → Store
set_ext_secret env secret s =
    (add_locked env secret (some (codes "bootstrap")) (pos 0) true false false s).1
