-- ===== src/Server.antt =====
-- src/server: the push channel of the event transport.
pub mod Push
mod Tests
