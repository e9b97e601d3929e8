-- ===== src/Tunnel.antt =====
-- internal/tunnel: cloudflared's launch, its output, its readiness and its restarts.
pub mod Hostname
pub mod Launch
pub mod Lines
pub mod Fake
pub mod Download
pub mod Watch
pub mod Ready
pub mod Supervisor
mod Tests
mod DownloadTests
mod LaunchTests
