-- ===== src/Tests/Secret.antt =====
-- The secret store at concrete inputs.
use mtprotor.Base.{
  ◌<◌, ◌^◌, ℕ, ◌%◌, ◌≤◌, ◌<◌, ◌≡◌, ◌≢◌, ◌↔◌, refl, Bool, true, false, Option, none, some, List, [],
  ◌∷◌, ◌++◌, arith, length, replicate, if◌then◌else◌, same_bytes, same_bytes_refl, map, All,
}
use mathlib.Core.Option
use mtprotor.Base.Ctype.{tolower, isxdigit}
use mtprotor.Base.Int.{ℤ, pos}
use mtprotor.Base.Search.{find?}
use mtprotor.Base.Text.{codes}
use mtprotor.Secret.Account.{
  counted, with_traffic, note_connection_traffic_lem, attach_secret_to_connection_lem,
}
use mtprotor.Secret.Traffic.{Connection, note_connection_traffic, attach_secret_to_connection}
use mtprotor.Secret.State.{add64}
use mtprotor.Secret.Active.{is_active, snapshot_active_secrets}
use mtprotor.Secret.Add.{fresh_entry}
use mtprotor.Secret.Admit.{
  is_stale, after_sweep, offers, offer, snapshot-entry_of, snapshot_lem, active_view, AtMost,
  cmd_disable_expired_lem,
}
use mtprotor.Secret.Active.{active_secret_count}
use mtprotor.Secret.Command.{cmd_disable_expired}
use mtprotor.Base.Search.{count}
use mtprotor.Base.{◌==◌, ◌||◌, length}
use mtprotor.Secret.Command.{cmd_add, cmd_remove, cmd_set_enabled, cmd_update}
use mtprotor.Secret.Effect.{
  after_patch, after_switch, cmd_remove_lem, cmd_set_enabled_lem, cmd_update_lem,
}
use mtprotor.Secret.Hex.{
  secret16_to_hex, secret16_from_hex, all_digits, digit_pairs, hex16_to_secret,
}
use mtprotor.Secret.Hex.Laws.{
  IsSecret, from_hex-to_hex, from_hex-link, fake_tls, prefix_of, from_hex_sound, digits_of,
}
use mtprotor.Secret.Insert.{cmd_add_again, cmd_add_lem}
use mtprotor.Secret.Lookup.{entry_of}
use mtprotor.Secret.Persist.{metric_of}
use mtprotor.Secret.Reach.{Reach, here, next, add, Reach-IsValid}
use mtprotor.Secret.State.{Store, Env, failed, not_found, initial, zero_metric}
use mtprotor.Secret.Valid.{IsValid}

-- Surroundings where nothing fails.
abbrev pub calm : Env
calm = record {
  now = pos 1_700_000_000;
  realloc_ok = true;
  calloc_ok = true;
  mkdirs_ok = true;
  mkstemp_ok = true;
  fdopen_ok = true;
  rename_ok = true;
  written = λ text. text;
}

abbrev key_a : List ℕ
key_a = replicate 16 0xa5

abbrev key_b : List ℕ
key_b = 1 ∷ replicate 15 0x3c

key_a-IsSecret : IsSecret key_a
key_a-IsSecret = omega arith

key_b-IsSecret : IsSecret key_b
key_b-IsSecret = omega arith

abbrev hex_a : List ℕ
hex_a = secret16_to_hex key_a

abbrev hex_b : List ℕ
hex_b = secret16_to_hex key_b

reads_a : secret16_from_hex (some hex_a) ≡ some key_a
reads_a = from_hex-to_hex key_a key_a-IsSecret

reads_b : secret16_from_hex (some hex_b) ≡ some key_b
reads_b = from_hex-to_hex key_b key_b-IsSecret

-- One secret, that expires.
abbrev one : Store
one = (cmd_add calm (some hex_a) (some (codes "first")) (pos 1_800_000_000) true initial).1

one_reached : Reach initial one
one_reached =
    next here (add calm (some hex_a) (some (codes "first")) (pos 1_800_000_000) true (omega arith))

no_a_yet : entry_of key_a initial ≡ none
unfolding find?
no_a_yet = refl

one_next : one.next_id < 2 ^ 30
one_next = omega (
  arith,
  (cmd_add_lem calm (some hex_a) (some (codes "first")) (pos 1_800_000_000) true key_a initial
      reads_a no_a_yet refl refl (Reach-IsValid here)).4,
)

-- Two secrets, the second without an end.
abbrev pub two : Store
two = (cmd_add calm (some hex_b) (some (codes "second one")) (pos 0) true one).1

Reach-IsValid_example : IsValid two
Reach-IsValid_example =
    Reach-IsValid
      (next one_reached (add calm (some hex_b) (some (codes "second one")) (pos 0) true one_next))

one-IsValid : IsValid one
one-IsValid = Reach-IsValid one_reached

pub two-IsValid : IsValid two
two-IsValid =
    Reach-IsValid
      (next one_reached (add calm (some hex_b) (some (codes "second one")) (pos 0) true one_next))

from_hex_runs :
    secret16_from_hex (some (codes "dd0102030405060708090a0B0C0d0e0F10ab"))
    ≡ some (1 ∷ 2 ∷ 3 ∷ 4 ∷ 5 ∷ 6 ∷ 7 ∷ 8 ∷ 9 ∷ 10 ∷ 11 ∷ 12 ∷ 13 ∷ 14 ∷ 15 ∷ 16 ∷ [])
unfolding secret16_from_hex mtprotor.Secret.Hex.after_prefix hex16_to_secret all_digits digit_pairs
    mtprotor.Base.Ctype.has_prefix_nocase
from_hex_runs = refl

from_hex-link_example :
    secret16_from_hex (some (prefix_of fake_tls ++ (hex_b ++ codes "676f"))) ≡ some key_b
from_hex-link_example =
    from_hex-link fake_tls key_b (codes "676f") key_b-IsSecret refl (unfold all_digits in refl)

from_hex_sound_example : IsSecret key_a × (secret16_to_hex key_a ≡ map tolower (digits_of hex_a))
from_hex_sound_example = from_hex_sound hex_a reads_a

cmd_remove_lem_example :
    ((j : List ℕ)
      → entry_of j (cmd_remove calm (some hex_a) two).1
        ≡ (if same_bytes key_a j then none else entry_of j two))
    × (((cmd_remove calm (some hex_a) two).0 ≡ not_found) ↔ (entry_of key_a two ≡ none))
cmd_remove_lem_example = cmd_remove_lem calm (some hex_a) key_a two reads_a two-IsValid

cmd_set_enabled_lem_example :
    ((j : List ℕ)
      → entry_of j (cmd_set_enabled calm (some hex_b) false two).1 ≡ (
          if same_bytes key_b j
          then Option.map (after_switch calm.now false) (entry_of j two)
          else entry_of j two))
    × (((cmd_set_enabled calm (some hex_b) false two).0 ≡ not_found) ↔ (entry_of key_b two ≡ none))
cmd_set_enabled_lem_example = cmd_set_enabled_lem calm (some hex_b) key_b two reads_b false

cmd_update_lem_example :
    ((j : List ℕ)
      → entry_of j (cmd_update calm (some hex_b) none (some (pos 7)) none two).1 ≡ (
          if same_bytes key_b j
          then Option.map (after_patch calm.now none (some (pos 7)) none) (entry_of j two)
          else entry_of j two))
    × (((cmd_update calm (some hex_b) none (some (pos 7)) none two).0 ≡ not_found)
        ↔ (entry_of key_b two ≡ none))
cmd_update_lem_example = cmd_update_lem calm (some hex_b) key_b two reads_b none (some (pos 7)) none

snapshot-entry_of_example :
    Option.map (Option.map (find? (offers key_b))) (snapshot_active_secrets true two (pos 5))
    ≡ some (
        some (elim (entry_of key_b two) [
          | none ↦ none
          | some e ↦ if is_active e (pos 5) then some (offer e) else none
        ]))
snapshot-entry_of_example = snapshot-entry_of two (pos 5) key_b two-IsValid

a_is_there : entry_of key_a one ≢ none
a_is_there absent =
    let stored =
      (cmd_add_lem calm (some hex_a) (some (codes "first")) (pos 1_800_000_000) true key_a initial
          reads_a (unfold find? in refl) refl refl (Reach-IsValid here)).2
        key_a in
    let found : entry_of key_a one
        ≡ some (fresh_entry calm key_a (some (codes "first")) (pos 1_800_000_000) true 1) =
      rw (same_bytes_refl key_a) at stored in
    cc

cmd_add_again_example : cmd_add calm (some hex_a) none (pos 0) true one ≡ (failed, one)
cmd_add_again_example =
    cmd_add_again calm (some hex_a) none (pos 0) true key_a one reads_a a_is_there one-IsValid

snapshot_lem_example : snapshot_active_secrets true two (pos 1_900_000_000) ≡ (
    if true || active_secret_count two (pos 1_900_000_000) == 0
    then some (some (active_view (pos 1_900_000_000) two.entries))
    else none)
snapshot_lem_example = snapshot_lem true two (pos 1_900_000_000)

cmd_disable_expired_lem_example :
    let r = cmd_disable_expired calm (pos 1_900_000_000) two in
    let n = pos 1_900_000_000 in
    (r.checked ≡ length two.entries)
    × (r.disabled ≡ count (is_stale n) two.entries)
    × (r.store.entries ≡ map (after_sweep n) two.entries)
    × (count (is_stale n) r.store.entries ≡ 0)
    × ((now : ℤ) → AtMost n now → active_view now r.store.entries ≡ active_view now two.entries)
cmd_disable_expired_lem_example = cmd_disable_expired_lem calm (pos 1_900_000_000) two

-- Counters for the ids 1 to 3.
abbrev counting : Store
counting = record initial { metrics = replicate 4 zero_metric }

abbrev client : Connection
client = record { secret_id = 2; remote_ip = codes "192.0.2.7" }

note_connection_traffic_lem_example :
    let t = note_connection_traffic client (pos 1500) (pos 0) counting in
    (t.total_in ≡ counted counting.total_in (pos 1500))
    × (t.total_out ≡ counted counting.total_out (pos 0))
    × ((id : ℕ)
        → metric_of t.metrics id ≡ (
            if id == 2
            then with_traffic (pos 1500) (pos 0) (metric_of counting.metrics 2)
            else metric_of counting.metrics id))
    × (t.entries ≡ counting.entries)
note_connection_traffic_lem_example =
    note_connection_traffic_lem client (pos 1500) (pos 0) counting (omega arith) (omega arith)

attach_secret_to_connection_lem_example :
    let r = attach_secret_to_connection calm client 3 counting in
    (r.0.secret_id ≡ 3)
    × (r.1.total_connections ≡ add64 counting.total_connections 1)
    × ((id : ℕ)
        → metric_of r.1.metrics id ≡ (
            if id == 3
            then record (metric_of counting.metrics 3) {
              connections = add64 (metric_of counting.metrics 3).connections 1;
            }
            else metric_of counting.metrics id))
    × (attach_secret_to_connection calm r.0 3 r.1 ≡ r)
attach_secret_to_connection_lem_example =
    attach_secret_to_connection_lem calm calm client 3 counting (omega arith) (omega arith)
      (λ e. absurd (omega arith))
