-- ===== src/Server.antt =====
-- The parts of the server, in Go: where the requests of the client meet it, its bids and their settlement.
pub mod Hub
pub mod Bids
pub mod Listing
pub mod Redis
pub mod Auction
pub mod Contract
pub mod Settlement
pub mod Limiter
pub mod SignIn
pub mod Google
pub mod Placing
pub mod Relay
