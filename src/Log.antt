-- ===== src/Log.antt =====
-- The logger: the stream, the files and the writing thread (logger/).
pub mod Stream
pub mod File
pub mod Async
pub mod Logger
mod Tests
mod FileTests
mod LoggerTests
