-- ===== src/Search.antt =====
-- crates/hub-search
pub mod Lexical
pub mod Vector
