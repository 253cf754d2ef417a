-- ===== src/Proxy.antt =====
-- The package proxy/middlewares: the handlers of a proxy request.
pub mod BodyCapture
pub mod NoProxy
pub mod UpstreamAuth
mod Tests
