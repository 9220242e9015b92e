-- ===== src/Loop.antt =====
-- The event loop of a thread: net/EventLoop.h and net/EventLoop.cc.
pub mod Pending
mod Tests
