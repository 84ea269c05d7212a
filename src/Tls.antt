-- ===== src/Tls.antt =====
-- The imitation of TLS in net/net-tcp-rpc-ext-server.c.
pub mod Random
pub mod Domain
pub mod Sni
pub mod Hello
