-- ===== src/Secret/Admit.antt =====
-- Which secrets a handshake is tried with: the snapshot of the active ones.
use mtprotor.Base.{
  ℕ, zero, suc, ◌+◌, ◌≤◌, ◌≡◌, refl, ap, sym, ◌∙◌, Bool, true, false, not, ◌&&◌, none, some, List,
  [], ◌∷◌, arith, length, if◌then◌else◌, map, same_bytes, ◌==◌, ◌||◌,
}
use mathlib.Core.Option
use mtprotor.Base.Int.{ℤ, pos, leb_ℤ}
use mtprotor.Base.Search.{count, find?, find?-eq-none}
use mtprotor.Secret.Active.{
  is_active, count_active, active_secret_count, ActiveSecret, copy_active, snapshot_active_secrets,
}
use mtprotor.Secret.Add.{has_secret}
use mtprotor.Secret.Command.{is_expired, retired, cmd_disable_expired}
use mtprotor.Secret.Lookup.{entry_of}
use mtprotor.Secret.Preserve.{persist_frame}
use mtprotor.Secret.State.{Store, Env, Entry}
use mtprotor.Secret.Sweep.{
  swept, used_now, swept-Keeps, swept_store, cmd_disable_expired_store, disable_loop_lem,
}
use mtprotor.Secret.Valid.{IsValid}

abbrev pub is_active_at : ℤ → Entry → Bool
is_active_at now e = is_active e now

abbrev pub offer : Entry → ActiveSecret
offer e = record { secret = e.secret; id = e.id }

-- The active entries in order, as secrets to try.
abbrev pub active_view : ℤ → List Entry → List ActiveSecret
active_view now [] = []
active_view now (e ∷ es) =
    if is_active e now then offer e ∷ active_view now es else active_view now es

count_active_lem :
    (now : ℤ) (n : ℕ) (es : List Entry) → count_active now n es ≡ n + count (is_active_at now) es
unfolding count_active count
count_active_lem now n [] = omega arith
count_active_lem now n (e ∷ es) =
    ground (arith, count_active_lem now (n + (if is_active e now then 1 else 0)) es)

-- The second loop fits the array that the first one sized.
copy_active_lem :
    (now : ℤ) (room : ℕ) (es : List Entry)
    → count (is_active_at now) es ≡ room
    → copy_active now room es ≡ some (active_view now es)
unfolding copy_active count
copy_active_lem now room [] h = refl
copy_active_lem now zero (e ∷ es) h = ground (arith, copy_active_lem now zero es)
copy_active_lem now (suc room) (e ∷ es) h =
    ground (arith, copy_active_lem now (suc room) es, copy_active_lem now room es)

view-nil : (now : ℤ) (es : List Entry) → count (is_active_at now) es ≡ 0 → active_view now es ≡ []
unfolding count
view-nil now [] h = refl
view-nil now (e ∷ es) h = ground (arith, view-nil now es)

-- The snapshot is exactly the active entries in order, with no write past the array; only a refused
-- allocation for at least one of them makes it fail.
pub snapshot_lem :
    (malloc_ok : Bool) (s : Store) (now : ℤ)
    → snapshot_active_secrets malloc_ok s now ≡ (
        if malloc_ok || active_secret_count s now == 0
        then some (some (active_view now s.entries))
        else none)
unfolding snapshot_active_secrets active_secret_count
snapshot_lem malloc_ok s now = ground (
  arith,
  count_active_lem now 0 s.entries,
  copy_active_lem now (count_active now 0 s.entries) s.entries,
  view-nil now s.entries,
)

abbrev pub offers : List ℕ → ActiveSecret → Bool
offers k a = same_bytes a.secret k

view-absent :
    (now : ℤ) (k : List ℕ) (es : List Entry)
    → find? (has_secret k) es ≡ none
    → find? (offers k) (active_view now es) ≡ none
unfolding find?
view-absent now k [] h = refl
view-absent now k (e ∷ es) h = ground (arith, view-absent now k es)

-- A secret of at most one entry is in the view exactly when its entry is active.
pub view-entry_of :
    (now : ℤ) (k : List ℕ) (es : List Entry)
    → count (has_secret k) es ≤ 1
    → find? (offers k) (active_view now es) ≡ elim (find? (has_secret k) es) [
      | none ↦ none
      | some e ↦ if is_active e now then some (offer e) else none
    ]
unfolding find? count
view-entry_of now k [] h = refl
view-entry_of now k (e ∷ es) h =
    ground (arith, view-entry_of now k es, view-absent now k es, find?-eq-none (has_secret k) es)

-- In a valid store, where memory does not run out, the snapshot offers a secret to handshakes
-- exactly when its entry is active, and then with that entry's id.
pub snapshot-entry_of :
    (s : Store) (now : ℤ) (k : List ℕ)
    → IsValid s
    → Option.map (Option.map (find? (offers k))) (snapshot_active_secrets true s now)
      ≡ some (
          some (elim (entry_of k s) [
            | none ↦ none
            | some e ↦ if is_active e now then some (offer e) else none
          ]))
snapshot-entry_of s now k v =
    rw (snapshot_lem true s now, view-entry_of now k s.entries (v.one_secret k)) refl

abbrev pub AtMost : ℤ → ℤ → Type 0
AtMost a b = leb_ℤ a b ≡ true

is_active-swept :
    (n now : ℤ) (e : Entry) → AtMost n now → is_active (swept n e) now ≡ is_active e now
unfolding swept is_expired retired is_active
is_active-swept n now e h = ground arith

view-swept :
    (n now : ℤ) (es : List Entry)
    → AtMost n now
    → active_view now (map (swept n) es) ≡ active_view now es
view-swept n now [] h = refl
view-swept n now (e ∷ es) h =
    rw
      (
        is_active-swept n now e h,
        (swept-Keeps n).secret e,
        (swept-Keeps n).id e,
        view-swept n now es h,
      )
      refl

none_expired : (n : ℤ) (es : List Entry) → count (is_expired n) (map (swept n) es) ≡ 0
unfolding count swept is_expired retired
none_expired n [] = refl
none_expired n (e ∷ es) = ground (arith, none_expired n es)

-- An entry that is enabled and yet not offered to handshakes at a time.
abbrev pub is_stale : ℤ → Entry → Bool
is_stale now e = e.enabled && not (is_active e now)

is_expired-is_stale : (n : ℤ) (e : Entry) → is_expired n e ≡ is_stale n e
unfolding is_expired is_active
is_expired-is_stale n e = ground arith

count-is_stale : (n : ℤ) (es : List Entry) → count (is_expired n) es ≡ count (is_stale n) es
unfolding count
count-is_stale n [] = refl
count-is_stale n (e ∷ es) = rw (is_expired-is_stale n e, count-is_stale n es) refl

-- What is left of an entry.
abbrev pub after_sweep : ℤ → Entry → Entry
after_sweep n e = if is_stale n e then record e { enabled = false; updated_at = n } else e

map-swept : (n : ℤ) (es : List Entry) → map (swept n) es ≡ map (after_sweep n) es
unfolding swept retired
map-swept n [] = refl
map-swept n (e ∷ es) = rw (is_expired-is_stale n e, map-swept n es) refl

-- The sweep looks at every entry, counts those that are enabled and yet not active at its time, which
-- is the clock where a time that is not positive is asked for; it disables exactly these, with its
-- time as that of their update, leaves none of them and nothing else changed, and changes the snapshot
-- of active secrets at no time from its own on.
pub cmd_disable_expired_lem :
    (env : Env) (asked : ℤ) (s : Store)
    → let r = cmd_disable_expired env asked s in
      let n = if leb_ℤ asked (pos 0) then env.now else asked in
      (r.checked ≡ length s.entries)
      × (r.disabled ≡ count (is_stale n) s.entries)
      × (r.store.entries ≡ map (after_sweep n) s.entries)
      × (count (is_stale n) r.store.entries ≡ 0)
      × ((now : ℤ) → AtMost n now → active_view now r.store.entries ≡ active_view now s.entries)
cmd_disable_expired_lem env asked s = (
  counts.0,
  counts.1 ∙ count-is_stale n s.entries,
  after ∙ map-swept n s.entries,
  sym (count-is_stale n (cmd_disable_expired env asked s).store.entries)
      ∙ ap (count (is_expired n)) after
      ∙ none_expired n s.entries,
  λ now h. ap (active_view now) after ∙ view-swept n now s.entries h,
)
  where
    n : ℤ
    n = if leb_ℤ asked (pos 0) then env.now else asked

    after : (cmd_disable_expired env asked s).store.entries ≡ map (swept n) s.entries
    after =
        ap (λ t. t.entries) (cmd_disable_expired_store env asked s)
        ∙ ap (λ t. t.entries) (persist_frame env (swept_store env asked s))
        ∙ unfold swept_store used_now in refl

    counts :
        ((cmd_disable_expired env asked s).checked ≡ length s.entries)
        × ((cmd_disable_expired env asked s).disabled ≡ count (is_expired n) s.entries)
    counts =
        unfold cmd_disable_expired in
        let (_, c, d) =
          disable_loop_lem (if leb_ℤ asked (pos 0) then env.now else asked) 0 0 s.entries in
        (omega (arith, c), omega (arith, d))
