-- ===== src/Tests.antt =====
-- The theorems applied to concrete inputs.
mod Oids
mod Codec
mod Agent
mod Transactions
mod Exchange
mod Serving
mod Names
mod Table
mod Closing
mod Transmitter
mod Requests
mod Dispatch
mod Lifecycle
mod Connections
