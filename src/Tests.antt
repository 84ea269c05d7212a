-- ===== src/Tests.antt =====
-- Concrete inputs: the theorems at inputs that meet their hypotheses, and runs of the definitions.
mod Load
mod Secret
mod Tls
mod Transport
mod Timers
mod Admin
mod Http
