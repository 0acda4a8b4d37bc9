-- ===== src/Callback.antt =====
-- src/runtimes/callback.rs: the host capabilities of waPC and WASI policies.
pub mod Requests
pub mod Sample
pub mod Host
mod Tests
