-- ===== src/Http.antt =====
-- python/copass-core/src/copass_core/http: the retry helper and the HTTP client on top of it.
pub mod Retry
pub mod Client
mod Examples
