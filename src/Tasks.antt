-- ===== src/Tasks.antt =====
-- The pool of threads that run tasks: base/ThreadPool.h and base/ThreadPool.cc.
pub mod Pool
mod Tests
