-- ===== src/App.antt =====
-- frontend/src/main.jsx and frontend/src/Layout.jsx: the routes and the frame of the pages.
pub mod Layout
pub mod Routes
pub mod Visit
pub mod Arrival
pub mod Links
