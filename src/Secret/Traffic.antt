-- ===== src/Secret/Traffic.antt =====
-- Attribution of connections and bytes to secrets: ext_metrics_attach_secret_to_connection and
-- tcp_rpcs_note_connection_traffic of net/net-tcp-rpc-ext-server.c.
use mtprotor.Base.{
  ℕ, ◌+◌, ◌%◌, ◌^◌, not, ◌&&◌, ◌||◌, none, some, List, ltb, ◌==◌, if◌then◌else◌, length, modify,
}
use mtprotor.Base.Int.{ℤ, pos, pos_part, leb_ℤ, ltb_ℤ}
use mtprotor.Secret.Add.{find_idx_by_id}
use mtprotor.Secret.State.{Store, Env, Entry, Metric, add64}
use mtprotor.Secret.Text.{sanitize_ip}

-- What a connection keeps of its secret (`extra_int2` of its tcp_rpc_data), and its printed remote
-- address, empty where there is none.
pub record Connection : Type 0 where
  pub secret_id : ℕ
  pub remote_ip : List ℕ

unfoldable pub seen : Env → List ℕ → Entry → Entry
seen env ip e = record e {
  last_ip = if length ip == 0 then e.last_ip else sanitize_ip (some ip);
  last_seen_at = env.now;
}

abbrev pub one_more : Metric → Metric
one_more m = record m { connections = (m.connections + 1) % 2 ^ 64 }

unfoldable pub attach_secret_to_connection : Env → Connection → ℕ → Store → Connection × Store
attach_secret_to_connection env c secret_id s =
    if secret_id == 0 || c.secret_id == secret_id then (c, s) else (
      record c { secret_id = secret_id },
      record s {
        metrics =
            if ltb secret_id (length s.metrics)
            then modify s.metrics secret_id one_more
            else s.metrics;
        entries = elim (find_idx_by_id secret_id s) [
          | none ↦ s.entries
          | some idx ↦ modify s.entries idx (seen env c.remote_ip)
        ];
        total_connections = add64 s.total_connections 1;
      },
    )

unfoldable pub note_connection_traffic : Connection → ℤ → ℤ → Store → Store
note_connection_traffic c bytes_in bytes_out s =
    if leb_ℤ bytes_in (pos 0) && leb_ℤ bytes_out (pos 0)
    then s
    else if not (ltb 0 c.secret_id && ltb c.secret_id (length s.metrics))
    then s
    else record s {
      total_in =
          if ltb_ℤ (pos 0) bytes_in then add64 s.total_in (pos_part bytes_in) else s.total_in;
      total_out =
          if ltb_ℤ (pos 0) bytes_out then add64 s.total_out (pos_part bytes_out) else s.total_out;
      metrics = modify s.metrics c.secret_id (λ m. record m {
        bytes_in =
            if ltb_ℤ (pos 0) bytes_in then add64 m.bytes_in (pos_part bytes_in) else m.bytes_in;
        bytes_out =
            if ltb_ℤ (pos 0) bytes_out then add64 m.bytes_out (pos_part bytes_out) else m.bytes_out;
      });
    }
