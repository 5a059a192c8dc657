-- ===== src/Loader.antt =====
-- src/entities/loader/external-loader.ts: imports of .orb files. Node's `path` and `fs`, the packages'
-- manifests and the schema's parser are arguments. Messages are constructors, with what they name.
pub mod Chain
pub mod Browse
pub mod Errors
pub mod Search
pub mod Resolve
pub mod Load
mod Tests
