-- ===== src/Http.antt =====
-- The package http and its models: messages, their headers, and how they are written and read.
pub mod Decimal
pub mod Messages
pub mod Headers
pub mod Requests
pub mod Responses
mod Tests
