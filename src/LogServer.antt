-- ===== src/LogServer.antt =====
-- internal/logserver: the log ring, the status store, the sessions and the HTTP handlers,
-- with the log view of web/logserver/static/app.js that polls them.
pub mod Ring
pub mod Status
pub mod Auth
pub mod Server
pub mod Page
mod Tests
