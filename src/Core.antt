-- ===== src/Core.antt =====
-- crates/hub-core: the data model, errors, authorization, validation and the publishing service.
pub mod Model
pub mod Error
pub mod Crates
pub mod Auth
pub mod FilePath
pub mod Validation
pub mod Service
