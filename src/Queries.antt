-- ===== src/Queries.antt =====
-- Pieces of query execution (src/sql/engine/query.rs): set operations, window frames, and FETCH ... WITH TIES.
pub mod SetOperations
pub mod SetLaws
pub mod Frames
pub mod FrameLaws
pub mod FrameExactness
pub mod Ties
pub mod TiesLaws
pub mod Tests
