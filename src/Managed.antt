-- ===== src/Managed.antt =====
-- python/copass-anthropic-agents/src/copass_anthropic_agents/backends: the backend that drives a
-- turn of a managed agent over the provider's event stream.
pub mod Call
pub mod Cycle
pub mod Sdk
pub mod Messages
pub mod Turn
pub mod Emit
pub mod Stream
pub mod Setup
pub mod Start
pub mod Result
pub mod Deadline
mod Examples
