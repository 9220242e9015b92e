-- ===== src/Database.antt =====
-- The pool of database connections: mysql/ConnectionPool.h and mysql/ConnectionPool.cc.
pub mod Pool
mod Tests
