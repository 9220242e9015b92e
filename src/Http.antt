-- ===== src/Http.antt =====
-- src/http: requests, their parser, responses and the plain HTTP server.
pub mod Headers
pub mod Request
pub mod Context
pub mod Response
pub mod Favicon
pub mod Server
pub mod FileServer
mod Tests
