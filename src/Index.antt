-- ===== src/Index.antt =====
-- crates/hub-index: the repository over Postgres.
pub mod Json
pub mod Tables
pub mod Postgres
pub mod Queries
pub mod Registry
pub mod Migrations
