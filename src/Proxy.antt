-- ===== src/Proxy.antt =====
-- proxy.rs: the reverse proxy.
pub mod Recording
pub mod Retry
pub mod Headers
pub mod Handler
pub mod Connector
pub mod Upstream
