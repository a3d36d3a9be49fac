-- ===== src/Terminal.antt =====
-- frontend/src/AuctionTerminal.jsx: the live screen of one auction.
pub mod Screen
pub mod Clock
pub mod Amount
pub mod Tape
pub mod Machine
pub mod Bidding
pub mod Payment
pub mod Live
pub mod Checkout
