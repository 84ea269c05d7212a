-- ===== src/Secret.antt =====
-- The runtime store of client secrets of net/net-tcp-rpc-ext-server.c.
pub mod Hex
pub mod Text
pub mod State
pub mod Reserve
pub mod Persist
pub mod Active
pub mod Add
pub mod Command
pub mod Traffic
pub mod Load
pub mod Valid
pub mod Grow
pub mod Preserve
pub mod Outcome
pub mod Steps
pub mod Operations
pub mod Sweep
pub mod Reach
pub mod Lookup
pub mod Effect
pub mod Insert
pub mod Admit
pub mod Account
