-- ===== src/Constraints.antt =====
-- Keys, constraints and references of the tables: src/sql/engine/dml.rs, src/sql/engine/values.rs and src/schema/mod.rs.
pub mod Schema
pub mod UniqueKeys
pub mod UniqueLookup
pub mod LookupLaws
pub mod IndexLaws
pub mod Indexes
pub mod Storing
pub mod Insert
pub mod ConflictLaws
pub mod IndexedSteps
pub mod IndexedLaws
pub mod InsertLaws
pub mod Cascade
pub mod Visits
pub mod Outcomes
pub mod CascadeLaws
pub mod Termination
pub mod Validate
pub mod ValidateLaws
pub mod References
pub mod ReferenceLaws
pub mod Tests
