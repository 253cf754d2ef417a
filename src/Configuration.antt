-- ===== src/Configuration.antt =====
-- The package configuration: capture limits, access control and their stores.
pub mod CaptureRules
pub mod AccessControl
mod Tests
