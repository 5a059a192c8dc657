-- ===== src/Composition.antt =====
-- src/effects/composition: behaviours composed into one schema. The records have the fields that
-- the composition reads or writes.
pub mod Wiring
pub mod Layout
pub mod Names
pub mod Compose
mod Tests
