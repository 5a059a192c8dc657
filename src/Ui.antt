-- ===== src/Ui.antt =====
-- src/ui: the timing ring that the renderers read.
pub mod Perf
mod Tests
