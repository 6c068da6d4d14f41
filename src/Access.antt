-- ===== src/Access.antt =====
-- Accounts, grants and scopes: src/sql/engine/catalog.rs up to `apply`, without the SQL visitors.
pub mod Scope
pub mod Accounts
pub mod Admin
pub mod ScopeLaws
pub mod AdminLaws
pub mod Revocation
pub mod Passwords
pub mod Tests
