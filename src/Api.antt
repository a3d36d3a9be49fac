-- ===== src/Api.antt =====
-- frontend/src/api.js: the session in sessionStorage, the requests to the server and the stream of
-- price updates.
pub mod Base
pub mod Session
pub mod Request
pub mod Stream
