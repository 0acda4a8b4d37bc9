-- ===== src/Wasi.antt =====
-- src/runtimes/wasi_cli: the runtime of WASI policies.
pub mod Errors
mod Tests
pub mod Pipe
pub mod HostCall
pub mod Stack
pub mod Runtime
