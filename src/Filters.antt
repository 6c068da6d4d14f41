-- ===== src/Filters.antt =====
-- The pipelines of query and result filters (src/filters.rs).
pub mod Pipeline
pub mod PipelineLaws
pub mod Tests
