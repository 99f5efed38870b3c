-- ===== src/Server.antt =====
-- The package pop3server.
pub mod Errors
pub mod Parse
pub mod Wire
pub mod Session
pub mod Conn
pub mod Maildrop
pub mod Extensions
pub mod Login
pub mod Dispatch
pub mod Serve
pub mod Setup
pub mod Accept
