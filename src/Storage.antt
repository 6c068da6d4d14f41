-- ===== src/Storage.antt =====
-- The storage contract and the changes sent to it (src/storage).
pub mod Contract
pub mod Delta
pub mod Folds
pub mod Images
pub mod RowLaws
pub mod DeltaLaws
pub mod CatalogLaws
pub mod Mutations
pub mod Refinement
pub mod Rocks
pub mod RocksLaws
pub mod ScanLaws
pub mod CounterLaws
pub mod RocksBackend
pub mod RocksBackendLaws
pub mod Tests
