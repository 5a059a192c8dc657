-- ===== src/Evaluation.antt =====
-- src/evaluation: the circuit state of a client.
pub mod Circuit
mod Tests
