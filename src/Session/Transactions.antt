-- ===== src/Session/Transactions.antt =====
-- BEGIN, COMMIT, ROLLBACK, savepoints and the upgrade of a snapshot to a writer (`begin`, `commit`,
-- `rollback`, `use_database` and parts of `execute` in src/sql/engine/transaction.rs), for a session
-- without temporary tables: `publish_state` then is `publish_database`. An engine has all its tables: their
-- hydration from RocksDB before two engines are compared is left out.
use my_sqweel.Prelude.{
  Text, List, [], ◌∷◌, Option, none, some, Bool, true, false, ◌&&◌, not, lookup, insert, map,
  retain, is_some, is_some_and, is_empty, ◌++◌, ◌==◌, Result, ok, err, ok_or, ◌>>=◌, if◌then◌else◌,
  nat_eq, list_eq,
}
use mathlib.Core.Option
use my_sqweel.Access.Scope.{Identity}
use my_sqweel.Access.Accounts.{Catalog, check_database}
use my_sqweel.Coordinator.Leases.{EngineError}
use my_sqweel.Coordinator.Publication.{Committed, Backend, CommitOutcome, Shared, publish_database}

pub data SessionError : Type 0 where
  engine_error : EngineError → SessionError
  access_denied cannot_switch_database read_only_transaction snapshot_changed : SessionError
  no_active_transaction savepoint_does_not_exist unknown_session_database : SessionError

-- The fields of `SessionState` that its transactions and `use_database` use.
pub record Session (Raw : Type 0) : Type 0 where
  pub database : Text
  pub user : Identity
  -- Whether a writer lease is held, and the state that the transaction sees.
  pub transaction : Option (Bool × Committed Raw)
  pub transaction_read : Bool
  pub transaction_read_only : Bool
  pub next_transaction_read_only : Bool
  -- The last savepoint comes last.
  pub savepoints : List (Text × Committed Raw)
  pub autocommit : Bool

-- The tables that the transaction read are part of the test `unchanged`, below.
module _ {Raw : Type 0} where
  unfoldable pub new_session : Identity → Text → Session Raw
  new_session user app = record {
    database = app;
    user = user;
    transaction = none;
    transaction_read = false;
    transaction_read_only = false;
    next_transaction_read_only = false;
    savepoints = [];
    autocommit = true;
  }

  unfoldable pub rollback : Session Raw → Session Raw
  rollback s = record s {
    transaction = none;
    transaction_read = false;
    transaction_read_only = false;
    savepoints = [];
  }

  unfoldable pub use_database : Session Raw → Catalog → Text → Result SessionError (Session Raw)
  use_database s c database =
      if is_some s.transaction && not (database == s.database)
      then err cannot_switch_database
      else elim (check_database c s.user database) [
        | err e ↦ err access_denied
        | ok u ↦ ok (record s { database = database })
      ]

  unfoldable pub find_savepoint : Text → List (Text × Committed Raw) → Option (Committed Raw)
  find_savepoint name [] = none
  find_savepoint name ((key, state) ∷ rest) = elim (find_savepoint name rest) [
    | some later ↦ some later
    | none ↦ if key == name then some state else none
  ]

  -- `truncate(position + 1)` at the last savepoint of the name.
  unfoldable pub truncate_after : Text → List (Text × Committed Raw) → List (Text × Committed Raw)
  truncate_after name [] = []
  truncate_after name ((key, state) ∷ rest) =
      if is_some (find_savepoint name rest)
      then (key, state) ∷ truncate_after name rest
      else (if key == name then (key, state) ∷ [] else [])

  unfoldable pub savepoint : Session Raw → Text → Result SessionError (Session Raw)
  savepoint s name = elim s.transaction [
    | none ↦ err no_active_transaction
    | some (lease, state) ↦ ok (record s {
      savepoints =
          retain (λ (p : Text × Committed Raw). not (p.0 == name)) s.savepoints
          ++ ((name, state) ∷ []);
    })
  ]

  -- Only the session's database goes back.
  unfoldable pub restore_database :
      Session Raw → Text → Bool → Committed Raw → Committed Raw → Result SessionError (Session Raw)
  restore_database s name lease pending snapshot = elim (lookup s.database snapshot.databases) [
    | none ↦ err unknown_session_database
    | some raw ↦ ok (record s {
      transaction =
          some (lease, record pending { databases = insert s.database raw pending.databases });
      savepoints = truncate_after name s.savepoints;
    })
  ]

  unfoldable pub rollback_to : Session Raw → Text → Result SessionError (Session Raw)
  rollback_to s name = elim (find_savepoint name s.savepoints) [
    | none ↦ err savepoint_does_not_exist
    | some snapshot ↦ elim s.transaction [
      | none ↦ err no_active_transaction
      | some (lease, pending) ↦ restore_database s name lease pending snapshot
    ]
  ]

  -- `remove(position)` at the first savepoint of the name.
  unfoldable pub remove_first : Text → List (Text × Committed Raw) → List (Text × Committed Raw)
  remove_first name [] = []
  remove_first name ((key, state) ∷ rest) =
      if key == name then rest else (key, state) ∷ remove_first name rest

  unfoldable pub release_savepoint : Session Raw → Text → Result SessionError (Session Raw)
  release_savepoint s name =
      if is_some (find_savepoint name s.savepoints)
      then ok (record s { savepoints = remove_first name s.savepoints })
      else err savepoint_does_not_exist

  -- Each savepoint gets the session's database of `current`.
  unfoldable pub refresh_savepoints :
      Text → Raw → List (Text × Committed Raw) → List (Text × Committed Raw)
  refresh_savepoints database raw = map (λ (p : Text × Committed Raw).
      (p.0, record p.1 { databases = insert database raw p.1.databases }))

  -- The first read of a transaction takes its snapshot; later reads keep it. The session is returned
  -- also with an error.
  unfoldable pub take_snapshot :
      Session Raw → Committed Raw → Session Raw × Result SessionError (Unit {0})
  take_snapshot s current = elim s.transaction [
    | some (false, old) ↦
        if s.transaction_read then (s, ok tt) else elim (lookup s.database current.databases) [
          | none ↦ (
            record s { transaction = some (false, current) },
            if is_empty s.savepoints then ok tt else err unknown_session_database,
          )
          | some raw ↦ (
            record s {
              transaction = some (false, current);
              savepoints = refresh_savepoints s.database raw s.savepoints;
            },
            ok tt,
          )
        ]
    | _ ↦ (s, ok tt)
  ]

  -- What a read of the session sees.
  unfoldable pub read_state : Session Raw → Committed Raw → Committed Raw
  read_state s current = elim s.transaction [ none ↦ current | some (lease, state) ↦ state ]

  -- `unchanged` compares the session's database in the snapshot and in the current state: by pointer, or
  -- on the tables and columns that the transaction read.
  module _ (unchanged : Raw → Raw → Bool) where
    unfoldable pub same_database : Text → Committed Raw → Committed Raw → Bool
    same_database database old current = is_some_and (lookup database old.databases) (λ before.
        is_some_and (lookup database current.databases) (λ after. unchanged before after))

    -- The first write of a transaction, once the writer lease is granted. The session is returned also
    -- with an error.
    unfoldable pub upgrade :
        Session Raw → Committed Raw → Session Raw × Result SessionError (Committed Raw)
    upgrade s current = elim s.transaction [
      | none ↦ (s, ok current)
      | some (true, state) ↦ (s, ok state)
      | some (false, old) ↦
          if not (same_database s.database old current) && s.transaction_read
          then (rollback s, err snapshot_changed)
          else elim (lookup s.database current.databases) [
            | none ↦
                if is_empty s.savepoints
                then (record s { transaction = some (true, current) }, ok current)
                else (s, err unknown_session_database)
            | some raw ↦ (
              record s {
                transaction = some (true, current);
                savepoints = refresh_savepoints s.database raw s.savepoints;
              },
              ok current,
            )
          ]
    ]

  -- The end of a write inside a transaction: the executed engine becomes the pending one.
  unfoldable pub write_pending : Session Raw → Committed Raw → Raw → Session Raw
  write_pending s state raw = record s {
    transaction =
        Option.map
          (λ (t : Bool × Committed Raw).
            (t.0, record state { databases = insert s.database raw state.databases }))
          s.transaction;
  }

  -- A write that fails leaves the pending state. The session is returned also with an error.
  unfoldable pub keep_executed :
      Session Raw
      → Committed Raw
      → Result SessionError Raw
      → Session Raw × Result SessionError (Unit {0})
  keep_executed s state (err e) = (s, err e)
  keep_executed s state (ok raw) = (write_pending s state raw, ok tt)

  unfoldable pub run_statement :
      (Raw → Result SessionError Raw)
      → Session Raw
      → Committed Raw
      → Session Raw × Result SessionError (Unit {0})
  run_statement statement s state =
      keep_executed s state
        (ok_or (lookup s.database state.databases) unknown_session_database >>= statement)

  unfoldable pub write_upgraded :
      (Raw → Result SessionError Raw)
      → Session Raw × Result SessionError (Committed Raw)
      → Session Raw × Result SessionError (Unit {0})
  write_upgraded statement (s, err e) = (s, err e)
  write_upgraded statement (s, ok state) = run_statement statement s state

  -- A statement inside a transaction that changes the session's engine: the upgrade comes first.
  unfoldable pub write :
      (Raw → Raw → Bool)
      → (Raw → Result SessionError Raw)
      → Session Raw
      → Committed Raw
      → Session Raw × Result SessionError (Unit {0})
  write unchanged statement s current = write_upgraded statement (upgrade unchanged s current)

  module _ (same : Raw → Raw → Bool) (strip : Raw → Raw) where
    unfoldable pub after_commit : Session Raw → Session Raw
    after_commit s = record s {
      transaction = none;
      transaction_read = false;
      transaction_read_only = false;
      savepoints = [];
    }

    -- `take()` ends the transaction also when publication fails.
    unfoldable pub commit :
        Backend
        → CommitOutcome
        → Shared Raw
        → Session Raw
        → Shared Raw × Session Raw × Result SessionError (Unit {0})
    commit backend outcome shared s = elim s.transaction [
      | some (true, state) ↦
          let r = publish_database same strip backend false outcome shared s.database state in
          elim r.1 [
            | ok u ↦ (r.0, after_commit s, ok tt)
            | err e ↦ (r.0, record s { transaction = none }, err (engine_error e))
          ]
      | _ ↦ (shared, after_commit s, ok tt)
    ]

    unfoldable pub start_transaction : Shared Raw → Session Raw → Session Raw
    start_transaction shared s = record s {
      transaction = some (false, shared.committed);
      transaction_read = false;
      transaction_read_only = s.next_transaction_read_only;
      next_transaction_read_only = false;
    }

    unfoldable pub begin :
        Backend
        → CommitOutcome
        → Shared Raw
        → Session Raw
        → Shared Raw × Session Raw × Result SessionError (Unit {0})
    begin backend outcome shared s =
        let r = commit backend outcome shared s in
        elim r.2 [
          | err e ↦ r
          | ok u ↦ elim (check_database r.0.committed.catalog r.1.user r.1.database) [
            | err e ↦ (r.0, r.1, err access_denied)
            | ok v ↦ (r.0, start_transaction r.0 r.1, ok tt)
          ]
        ]
