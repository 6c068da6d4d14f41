-- ===== src/Wire.antt =====
-- The MySQL wire protocol's texts and binary values (src/server/mysql_wire.rs).
pub mod Errors
pub mod ErrorLaws
pub mod Temporal
pub mod TemporalLaws
pub mod Rounding
pub mod Tests
