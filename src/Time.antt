-- ===== src/Time.antt =====
-- zincio/src/time: sleeps, timeouts and intervals.
pub mod Sleep
pub mod Timeout
pub mod Interval
mod Tests
