-- ===== src/Client.antt =====
-- client.go: the connection to the master agent.
pub mod Replies
pub mod Reader
pub mod Requests
pub mod Dispatch
pub mod Sending
pub mod Transmitter
pub mod Errors
pub mod Connections
pub mod Options
pub mod Serving
