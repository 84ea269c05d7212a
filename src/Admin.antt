-- ===== src/Admin.antt =====
-- The administration line protocol: ext_admin_handle_line of net/net-tcp-rpc-ext-server.c, and the
-- functions that it calls to read a request and to write its answer.
pub mod Line
pub mod Answer
pub mod Stats
pub mod Handle
pub mod Json
pub mod Http
pub mod Client
pub mod Keeps
pub mod Refuses
pub mod Digits
pub mod Width
pub mod Safe
pub mod Parses
pub mod Commands
