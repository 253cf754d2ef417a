-- ===== src/Runtime.antt =====
-- The process: runtime_supervisor.go, decrypt_https_runtime.go and what they switch.
pub mod Settings
pub mod Machine
pub mod DecryptHttps
pub mod Supervisor
pub mod Recording
mod Tests
