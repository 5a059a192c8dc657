-- ===== src/Traits.antt =====
-- src/traits: the states of the traits on a page, and the payloads of their events.
pub mod StateBook
pub mod Payload
pub mod Shapes
pub mod Config
mod Tests
