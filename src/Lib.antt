-- ===== src/Lib.antt =====
-- Verification of my-sqweel, a MySQL-compatible SQL server that can be embedded.
--
-- The program keeps one committed state, an account catalog and an engine for each database, behind a
-- coordinator (src/sql/engine/transaction.rs). A connection has a session; the session asks the catalog
-- (src/sql/engine/catalog.rs) what it may do, takes a writer lease on its database before it writes, works on a
-- snapshot, and publishes its database when it commits. A publication sends the difference of two states to
-- storage (src/storage/). Around this, filters of the application see requests and results (src/filters.rs), and the
-- wire protocol turns values and errors into MySQL's (src/server/mysql_wire.rs). Paths are from the root of the
-- repository.
--
-- Prelude: lists, maps with `Eq` keys for BTreeMap and HashMap, results for `Result`, and their laws.
-- Access: src/sql/engine/catalog.rs. Scope has `AuthScope` and `ExternalAccess`, Accounts the catalog with
--   authentication and the checks, Admin `Catalog::apply`. A set is a list, a map an association list; SHA-1
--   is a parameter, and the UUID of a new account an argument.
-- Coordinator: src/sql/engine/transaction.rs. Leases has `acquire_scope` and the drop of `WriterLease`,
--   Advisory the calls on advisory locks, Publication `publish_database` and `publish_locked`. A wait on a
--   condition variable is a list of what the thread finds at each wake-up; threads that take and drop leases
--   are a step relation, in LeaseLaws.
-- Session: `SessionState` of the same file: transactions, savepoints and the upgrade to a writer, for a
--   session without temporary tables. The engine of a database is a type `Raw`; the comparison of two
--   engines and what a statement makes of an engine are functions. `write` is a statement of a transaction
--   that writes: the upgrade, the statement and the new pending state.
-- Storage: src/storage/async_store.rs, src/storage/delta.rs and src/storage/mod.rs. Contract has the mutations
--   and what a backend holds by the documented contract, Delta `storage_batch`, Rocks `RocksDbStore` over
--   a key-value database as an interface, RocksBackend the commit of `RocksDbStorage`, with the JSON of
--   names and values as an interface.
-- Wire: src/server/mysql_wire.rs. Errors has `mysql_error_kind`, Temporal the TIME values and temporal
--   parameters, Rounding `increment_decimal_digits`.
-- Filters: src/filters.rs.
-- Constraints: src/sql/engine/dml.rs, src/sql/engine/values.rs, src/schema/mod.rs and src/model.rs. Schema has rows and
--   schemas, UniqueKeys the text of a row's key under a constraint, UniqueLookup the index of keys of a
--   running INSERT and the search for conflicts, Indexes the directories by column, Storing the storing
--   and the removing of one row, Insert the placing of prepared rows, Validate and References the checks
--   of keys and references, Cascade what a DELETE does to the rows that refer to its own. JSON's numbers, documents and texts, and the parts of the engine
--   that these call (rows as the schema shows them, assignments, SQL equality), are parameters.
-- Literals: src/sql/engine/values.rs and src/sql/engine/mod.rs: the literal of a parameter and its reading.
-- Queries: src/sql/engine/query.rs: SetOperations, Frames, and Ties for FETCH ... WITH TIES.
--
-- Numbers: `u32` and `u64` fields are natural numbers with their bound where the code depends on it: the
-- count of an advisory lock stops at 2 ^ 32 - 1 with an error, `to_le_bytes` keeps four bytes. Decimal digits
-- are printed with fuel 20, which is enough for `u64`. The actions on referring rows recurse on fuel, which bounds
-- the depth: one more than the rows of the engine, and one, is enough. Every other recursion is structural.
-- The bounds of a window frame are signed numbers of 64 bits with wrap-around, as in a build without
-- overflow checks.
--
-- Not modelled: parsing of SQL, planning and the evaluation of expressions, UPDATE, temporary tables, change hooks, the vendored protocol library,
-- sockets and threads, and RocksDB itself.
pub mod Prelude
pub mod Access
pub mod Coordinator
pub mod Session
pub mod Storage
pub mod Wire
pub mod Constraints
pub mod Queries
pub mod Literals
pub mod Filters
