-- ===== src/Tcp.antt =====
-- The connections of the server, the loops that they are given to, and the poller of a loop.
pub mod Connection
pub mod Dispatch
pub mod LoopPool
pub mod Poller
pub mod Server
mod DispatchTests
mod ServerTests
mod Tests
