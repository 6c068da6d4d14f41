-- ===== src/Coordinator/Publication.antt =====
-- Publication of committed states: `Committed`, `publish_database_with_events`, `publish` and
-- `publish_locked` of src/sql/engine/transaction.rs, without the change hooks. A failed write poisons the
-- storage in `Persistence::commit` of src/sql/engine/transaction/persistence.rs. The copying of an engine
-- by `fork` does not fail.
use my_sqweel.Prelude.{
  Text, none, some, Bool, true, false, ◌&&◌, Map, lookup, insert, is_some_and, map, Result, ok, err,
  if◌then◌else◌, nat_eq, list_eq,
}
use my_sqweel.Access.Accounts.{Catalog}
use my_sqweel.Coordinator.Leases.{EngineError, check, unknown_database, commit_failed}

-- A committed state over engines `Raw`, one for each database.
pub record Committed (Raw : Type 0) : Type 0 where
  pub catalog : Catalog
  pub databases : Map Text Raw

-- The storage of an engine: none in memory, RocksDB, or a backend of the embedder.
pub data Backend : Type 0 where
  memory native custom : Backend

-- How `Persistence::commit` ends: stored, refused before the write, or failed in the write.
pub data CommitOutcome : Type 0 where
  stored refused_before failed_write : CommitOutcome

-- The committed state of `Coordinator`, and whether its storage is poisoned.
pub record Shared (Raw : Type 0) : Type 0 where
  pub committed : Committed Raw
  pub poisoned : Bool

unfoldable pub has_storage : Backend → Bool
has_storage memory = false
has_storage native = true
has_storage custom = true

-- The new state and the result of a fallible method.
abbrev pub Outcome : Type 0 → Type 0
Outcome Raw = Shared Raw × Result EngineError (Unit {0})

-- `same` is `Arc::ptr_eq`; `strip` forks an engine and clears its rows, baseline rows and indexes.
module _ {Raw : Type 0} (same : Raw → Raw → Bool) (strip : Raw → Raw) where
  unfoldable pub strip_changed : Map Text Raw → Text × Raw → Text × Raw
  strip_changed previous (name, raw) =
      (name, if is_some_and (lookup name previous) (λ old. same old raw) then raw else strip raw)

  -- What becomes visible of `state`: with RocksDB the rows of changed databases stay on disk.
  unfoldable pub published : Backend → Committed Raw → Committed Raw → Committed Raw
  published native before state = record state {
    databases = map (strip_changed before.databases) state.databases;
  }
  published memory before state = state
  published custom before state = state

  unfoldable pub store : Backend → CommitOutcome → Shared Raw → Committed Raw → Outcome Raw
  store memory outcome s state =
      (record s { committed = published memory s.committed state }, ok tt)
  store native stored s state = (record s { committed = published native s.committed state }, ok tt)
  store native refused_before s state = (s, err commit_failed)
  store native failed_write s state = (record s { poisoned = true }, err commit_failed)
  store custom stored s state = (record s { committed = published custom s.committed state }, ok tt)
  store custom refused_before s state = (s, err commit_failed)
  store custom failed_write s state = (record s { poisoned = true }, err commit_failed)

  unfoldable pub publish_locked :
      Backend → Bool → CommitOutcome → Shared Raw → Committed Raw → Outcome Raw
  publish_locked backend in_callback outcome s state =
      elim (check in_callback (has_storage backend && s.poisoned)) [
        | err e ↦ (s, err e)
        | ok u ↦ store backend outcome s state
      ]

  -- Only the database of the lease is taken from the pending state.
  unfoldable pub publish_database :
      Backend → Bool → CommitOutcome → Shared Raw → Text → Committed Raw → Outcome Raw
  publish_database backend in_callback outcome s database pending =
      elim (lookup database pending.databases) [
        | none ↦ (s, err unknown_database)
        | some raw ↦
            publish_locked backend in_callback outcome s
              (record s.committed { databases = insert database raw s.committed.databases })
      ]
