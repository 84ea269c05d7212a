-- ===== src/Secret/Account.antt =====
-- What the attribution of connections and bytes does to the counters.
use mtprotor.Base.{
  ℕ, ◌<◌, ◌≡◌, ◌≢◌, refl, true, false, ◌&&◌, ◌||◌, List, ltb, ◌==◌, if◌then◌else◌, length, modify,
  arith, get_elem?-some, get_elem?-modify_ne, get_elem?-modify_self, Bool-cases, inl, inr, ◌⊎◌,
}
use mtprotor.Base.Int.{ℤ, pos, pos_part, leb_ℤ, ltb_ℤ}
use mtprotor.Secret.Persist.{metric_of}
use mtprotor.Secret.State.{Store, Env, Metric, add64}
use mtprotor.Secret.Traffic.{
  Connection, one_more, attach_secret_to_connection, note_connection_traffic,
}

-- A counter after a count that is not taken unless it is positive.
abbrev pub counted : ℕ → ℤ → ℕ
counted n bytes = if ltb_ℤ (pos 0) bytes then add64 n (pos_part bytes) else n

abbrev pub with_traffic : ℤ → ℤ → Metric → Metric
with_traffic bytes_in bytes_out m = record m {
  bytes_in = counted m.bytes_in bytes_in;
  bytes_out = counted m.bytes_out bytes_out;
}

-- The counters of every id after one element of the array was rewritten.
metric_of-modify_at :
    (ms : List Metric) (i j : ℕ) (f : Metric → Metric)
    → 0 < i
    → i < length ms
    → metric_of (modify ms i f) j ≡ (if j == i then f (metric_of ms i) else metric_of ms j)
unfolding metric_of
metric_of-modify_at ms i j f there fits =
    let (m, at_i) = get_elem?-some ms i fits in
    let positive : ltb 0 i ≡ true = ground arith in
    elim (Bool-cases (j == i)) [
      | inl same ↦
          let e : j ≡ i = ground arith in
          rw (same, e, positive, at_i, get_elem?-modify_self ms i f m at_i) refl
      | inr other ↦
          let ne : i ≢ j = ground arith in rw (other, get_elem?-modify_ne ms i j f ne) refl
    ]

-- For a connection whose id has a counter, the bytes of each direction are added, modulo 2^64 and
-- unless their number is not positive, to the total and to the counter of its id; no other counter and
-- no entry changes.
pub note_connection_traffic_lem :
    (c : Connection) (bytes_in bytes_out : ℤ) (s : Store)
    → 0 < c.secret_id
    → c.secret_id < length s.metrics
    → let t = note_connection_traffic c bytes_in bytes_out s in
      (t.total_in ≡ counted s.total_in bytes_in)
      × (t.total_out ≡ counted s.total_out bytes_out)
      × ((id : ℕ)
          → metric_of t.metrics id ≡ (
              if id == c.secret_id
              then with_traffic bytes_in bytes_out (metric_of s.metrics c.secret_id)
              else metric_of s.metrics id))
      × (t.entries ≡ s.entries)
unfolding note_connection_traffic
note_connection_traffic_lem c bytes_in bytes_out s there fits =
    elim (Bool-cases (leb_ℤ bytes_in (pos 0) && leb_ℤ bytes_out (pos 0))) [
      | inl nothing ↦
          let no_in : ltb_ℤ (pos 0) bytes_in ≡ false = ground arith in
          let no_out : ltb_ℤ (pos 0) bytes_out ≡ false = ground arith in
          rw (nothing, no_in, no_out)
            (refl, refl, λ id. unchanged id (Bool-cases (id == c.secret_id)), refl)
      | inr some_bytes ↦
          let valid : (ltb 0 c.secret_id && ltb c.secret_id (length s.metrics)) ≡ true =
            ground arith in
          rw (some_bytes, valid)
            (
              refl,
              refl,
              λ id.
                  metric_of-modify_at s.metrics c.secret_id id (with_traffic bytes_in bytes_out)
                    there fits,
              refl,
            )
    ]
  where
    unchanged :
        (id : ℕ)
        → ((id == c.secret_id) ≡ true) ⊎ ((id == c.secret_id) ≡ false)
        → metric_of s.metrics id
          ≡ (if id == c.secret_id then metric_of s.metrics c.secret_id else metric_of s.metrics id)
    unchanged id (inl same) = let e : id ≡ c.secret_id = ground arith in rw (same, e) refl
    unchanged id (inr other) = rw other refl

-- A connection that matched a secret of another id is counted once, modulo 2^64, for that id, whose
-- counter exists, and in the total; no other counter changes, the connection keeps the id, and to
-- attach the same id again changes nothing.
pub attach_secret_to_connection_lem :
    (env later : Env) (c : Connection) (secret_id : ℕ) (s : Store)
    → 0 < secret_id
    → secret_id < length s.metrics
    → c.secret_id ≢ secret_id
    → let r = attach_secret_to_connection env c secret_id s in
      (r.0.secret_id ≡ secret_id)
      × (r.1.total_connections ≡ add64 s.total_connections 1)
      × ((id : ℕ)
          → metric_of r.1.metrics id ≡ (
              if id == secret_id
              then record (metric_of s.metrics secret_id) {
                connections = add64 (metric_of s.metrics secret_id).connections 1;
              }
              else metric_of s.metrics id))
      × (attach_secret_to_connection later r.0 secret_id r.1 ≡ r)
unfolding attach_secret_to_connection
attach_secret_to_connection_lem env later c secret_id s there fits other =
    let new : (secret_id == 0 || c.secret_id == secret_id) ≡ false = ground arith in
    let valid : ltb secret_id (length s.metrics) ≡ true = ground arith in
    let again : (secret_id == 0 || secret_id == secret_id) ≡ true = ground arith in
    rw (new, valid, again)
      (refl, refl, λ id. metric_of-modify_at s.metrics secret_id id one_more there fits, refl)
