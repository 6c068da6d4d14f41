-- ===== src/Coordinator.antt =====
-- Who may write, and what becomes visible: `Coordinator` of src/sql/engine/transaction.rs.
pub mod Leases
pub mod LeaseLaws
pub mod Advisory
pub mod AdvisoryLaws
pub mod Publication
pub mod PublicationLaws
pub mod Tests
