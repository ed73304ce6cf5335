-- ===== src/Timer.antt =====
-- The timers: zysoft/zysoft/timer/ and the queue that zysoft/net/ builds on them.
pub mod Wheel
pub mod Basic
pub mod Clock
mod Tests
