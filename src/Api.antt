-- ===== src/Api.antt =====
-- crates/hub-api
pub mod State
pub mod Handlers
pub mod Routes
pub mod Server
pub mod Main
