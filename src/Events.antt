-- ===== src/Events.antt =====
-- src/events: the event bus, the emit stamp and the routing of listens.
pub mod Bus
pub mod Routing
pub mod Stamp
mod Tests
