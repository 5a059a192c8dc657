-- ===== src/Host.antt =====
-- src/host/credentials and the secrets of src/kernel/http-exchange.ts.
pub mod Credentials
pub mod Scope
pub mod Secrets
mod Tests
