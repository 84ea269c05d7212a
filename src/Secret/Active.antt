-- ===== src/Secret/Active.antt =====
-- Who may connect: ext_is_active_locked, the counts, and ext_snapshot_active_secrets of
-- net/net-tcp-rpc-ext-server.c.
use mtprotor.Base.{
  ℕ, zero, suc, ◌+◌, Bool, true, false, not, ◌&&◌, Option, none, some, List, [], ◌∷◌, if◌then◌else◌,
  length, ◌==◌,
}
use mathlib.Core.Option
use mtprotor.Base.Int.{ℤ, pos, leb_ℤ, ltb_ℤ}
use mtprotor.Secret.State.{Store, Entry}

unfoldable pub is_active : Entry → ℤ → Bool
is_active e now =
    if not e.enabled
    then false
    else if ltb_ℤ (pos 0) e.expires_at && leb_ℤ e.expires_at now
    then false
    else true

-- tcp_rpcs_total_secret_count
unfoldable pub total_secret_count : Store → ℕ
total_secret_count s = length s.entries

-- The loop of tcp_rpcs_active_secret_count, at `n` so far.
unfoldable pub count_active : ℤ → ℕ → List Entry → ℕ
count_active now n [] = n
count_active now n (e ∷ es) = count_active now (n + (if is_active e now then 1 else 0)) es

unfoldable pub active_secret_count : Store → ℤ → ℕ
active_secret_count s now = count_active now 0 s.entries

-- struct ext_active_secret
pub record ActiveSecret : Type 0 where
  pub secret : List ℕ
  pub id : ℕ

-- The second loop of the snapshot, into an array of `n` elements. `none` is a write past its end.
unfoldable pub copy_active : ℤ → ℕ → List Entry → Option (List ActiveSecret)
copy_active now room [] = some []
copy_active now zero (e ∷ es) = elim (is_active e now) [
  | false ↦ copy_active now zero es
  | true ↦ none
]
copy_active now (suc room) (e ∷ es) = elim (is_active e now) [
  | false ↦ copy_active now (suc room) es
  | true ↦
      Option.map (λ copied. record { secret = e.secret; id = e.id } ∷ copied)
        (copy_active now room es)
]

-- `malloc_ok` is whether the array is allocated. The outer `none` is the result -1.
unfoldable pub snapshot_active_secrets : Bool → Store → ℤ → Option (Option (List ActiveSecret))
snapshot_active_secrets malloc_ok s now =
    if active_secret_count s now == 0
    then some (some [])
    else if malloc_ok
    then some (copy_active now (active_secret_count s now) s.entries)
    else none
