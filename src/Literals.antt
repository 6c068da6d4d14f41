-- ===== src/Literals.antt =====
-- Values in the text of a statement: src/sql/engine/values.rs and src/sql/engine/mod.rs.
pub mod Parameters
pub mod ParameterLaws
pub mod Tests
