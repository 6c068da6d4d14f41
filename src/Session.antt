-- ===== src/Session.antt =====
-- Transactions of one connection: `SessionState` of src/sql/engine/transaction.rs.
pub mod Transactions
pub mod TransactionLaws
pub mod SavepointLaws
pub mod Tests
