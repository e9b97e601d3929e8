-- ===== src/SmokeTest.antt =====
-- cmd/xraycore-smoketest/main.go: the program that sends one VLESS request through the embedded core.
pub mod Vless
pub mod Outbound
pub mod Run
mod Tests
