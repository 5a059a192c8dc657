-- ===== src/Effects.antt =====
-- src/effects: the calls in flight and the effects that are delegated to the server.
pub mod InFlight
pub mod ServerLeg
mod Tests
