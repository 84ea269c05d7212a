-- ===== src/Transport.antt =====
-- The packets of the compact and medium transports: tcp_rpc_write_packet_compact of
-- net/net-tcp-rpc-common.c and the packet loop of tcp_rpcs_compact_parse_execute of
-- net/net-tcp-rpc-ext-server.c.
pub mod Frame
pub mod Roundtrip
pub mod Prefix
pub mod Assert
pub mod Stream
