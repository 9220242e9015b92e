-- ===== src/Memory.antt =====
-- The memory pool: memory/MemoryPool.h and memory/MemoryPool.cc.
pub mod Pool
mod Tests
