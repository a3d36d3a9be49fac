-- ===== src/Js.antt =====
-- The part of JavaScript's values and of its standard library that the client computes with.
pub mod Number
pub mod Text
pub mod Decimal
pub mod Double
pub mod Value
