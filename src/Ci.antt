-- ===== src/Ci.antt =====
-- internal/ci: the watcher of the files that the workflow uploads.
pub mod Git
pub mod Bridge
pub mod Env
pub mod Redact
pub mod Watcher
mod Tests
mod GitTests
mod BridgeTests
