-- ===== src/Integrate.antt =====
-- internal/integrate: adding, removing and listing the integrations of the configuration file.
pub mod EnvFile
pub mod KeyLaws
pub mod EnvLaws
pub mod FileLaws
pub mod Files
pub mod Model
pub mod Atomic
pub mod AddLaws
pub mod Reparse
pub mod Ready
mod Tests
