-- ===== src/Tool.antt =====
-- internal/tool: the registry of tools, the adapter of remote tools and the shell tool.
pub mod Registry
pub mod RegistryLaws
pub mod Remote
pub mod Shell
mod Tests
