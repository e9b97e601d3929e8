-- ===== src/SelfUpdate.antt =====
-- internal/selfupdate: the update and the rollback of the running binary.
pub mod Files
pub mod Swap
pub mod Sums
pub mod Update
mod Tests
