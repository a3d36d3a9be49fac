-- ===== src/Tests.antt =====
-- Runs at small inputs, and the theorems at inputs that meet their hypotheses.
mod Session
mod Auth
mod Terminal
mod Lists
pub mod SignIn
mod Stream
mod Payment
mod Script
mod View
mod Live
mod App
mod Sale
mod Checkout
mod Mount
mod Server
mod Placing
mod Relay
