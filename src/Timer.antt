-- ===== src/Timer.antt =====
-- The timers of the event loop: timer/Timer.h, timer/Timer.cc, timer/TimerQueue.h and
-- timer/TimerQueue.cc.
pub mod Queue
mod Tests
