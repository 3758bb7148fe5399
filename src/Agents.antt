-- ===== src/Agents.antt =====
-- python/copass-core-agents/src/copass_core_agents: the provider-neutral runtime. The children
-- are its events, its tools and registries, and the tool set of an invocation.
pub mod Events
pub mod Tools
pub mod Build
mod Examples
