-- ===== src/Time.antt =====
-- src/time: durations, cron expressions and the tick scheduler. Texts are lists of code units.
pub mod Digits
pub mod Duration
pub mod Cron
pub mod Scheduler
