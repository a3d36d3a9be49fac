-- ===== src/Auth.antt =====
-- frontend/src/AuthScreen.jsx: the sign-in screen.
pub mod Screen
pub mod Describe
pub mod Validate
pub mod Login
pub mod Captcha
pub mod Google
pub mod Machine
pub mod Script
pub mod LockClock
pub mod View
pub mod Mount
