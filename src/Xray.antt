-- ===== src/Xray.antt =====
-- internal/xraycore: the configuration of the embedded xray-core, and the engine that runs it.
pub mod Json
pub mod BuildConfig
pub mod Engine
mod Tests
