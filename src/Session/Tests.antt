-- ===== src/Session/Tests.antt =====
-- The theorems on transactions at concrete inputs: engines are numbers, which agree when they are equal.
use my_sqweel.Prelude.{
  ℕ, ◌+◌, Text, List, Result, [], ◌∷◌, ◌++◌, none, some, true, false, not, ◌≡◌, refl, retain,
  lookup, ok, err, eqb, ◌==◌, nat_eq, list_eq, if◌then◌else◌,
}
use my_sqweel.Access.Scope.{Identity}
use my_sqweel.Access.Accounts.{Catalog}
use my_sqweel.Coordinator.Publication.{Committed, memory, stored, Shared}
use my_sqweel.Session.Transactions.{
  SessionError, access_denied, refresh_savepoints, snapshot_changed, Session, rollback, savepoint,
  rollback_to, release_savepoint, same_database, upgrade, commit, find_savepoint, remove_first,
}
use my_sqweel.Session.TransactionLaws.{commit-databases}
use my_sqweel.Session.SavepointLaws.{run_writes, rollback_to-savepoint, rollback_to-first_write}

abbrev app : Text
app = b'a' ∷ []

abbrev other : Text
other = b'o' ∷ []

abbrev mark_name : Text
mark_name = b'm' ∷ []

abbrev no_accounts : Catalog
no_accounts = record { databases = []; users = []; database_charsets = []; sql_functions = [] }

abbrev state_of : ℕ → ℕ → Committed ℕ
state_of x y = record { catalog = no_accounts; databases = (app, x) ∷ (other, y) ∷ [] }

abbrev user : Identity
user = record { username = app; incarnation = []; external_access = none; ceiling = none }

abbrev idle : Session ℕ
idle = record {
  database = app;
  user = user;
  transaction = none;
  transaction_read = false;
  transaction_read_only = false;
  next_transaction_read_only = false;
  savepoints = [];
  autocommit = true;
}

-- A transaction that read, before another commit changed 1 into 2.
abbrev reader : Session ℕ
reader = record idle { transaction = some (false, state_of 1 5); transaction_read = true }

abbrev writer : Session ℕ
writer = record idle { transaction = some (true, state_of 3 5) }

known_app : lookup app (state_of 2 5).databases ≡ some 2
unfolding lookup
known_app = refl

pending_app : lookup app (state_of 3 5).databases ≡ some 3
unfolding lookup
pending_app = refl

reader_fails : upgrade eqb reader (state_of 2 5) ≡ (rollback reader, err snapshot_changed)
unfolding upgrade same_database lookup
reader_fails = refl

abbrev shared : Shared ℕ
shared = record { committed = state_of 2 9; poisoned = false }

commit-databases_example :
    let r = commit eqb (λ x. x) memory stored shared writer in
    ((d : Text)
      → lookup d r.0.committed.databases
        ≡ (if app == d then some 3 else lookup d shared.committed.databases))
    × (r.1.transaction ≡ none)
    × (r.2 ≡ ok tt)
commit-databases_example =
    commit-databases eqb (λ x. x) shared writer (state_of 3 5) 3 refl pending_app

-- A statement that adds 4, and one that fails.
abbrev add_four : ℕ → Result SessionError ℕ
add_four x = ok (x + 4)

abbrev failing : ℕ → Result SessionError ℕ
failing x = err access_denied

abbrev two_writes : List (Committed ℕ × (ℕ → Result SessionError ℕ))
two_writes = (state_of 9 9, add_four) ∷ (state_of 9 9, failing) ∷ []

rollback_to-savepoint_example :
    let saved = record writer {
      savepoints =
          retain (λ (p : Text × Committed ℕ). not (p.0 == mark_name)) writer.savepoints
          ++ ((mark_name, state_of 3 5) ∷ []);
    } in
    (savepoint writer mark_name ≡ ok saved)
    × ((t : Session ℕ) × (pending : Committed ℕ) × (rollback_to
            (run_writes eqb saved two_writes)
            mark_name
          ≡ ok t)
        × (t.transaction ≡ some (true, pending))
        × ((d : Text) → lookup d pending.databases ≡ lookup d (state_of 3 5).databases)
        × (t.savepoints ≡ saved.savepoints))
rollback_to-savepoint_example =
    rollback_to-savepoint eqb writer mark_name (state_of 3 5) 3 two_writes refl pending_app

-- A transaction that has read nothing, before another commit changed 1 into 2.
abbrev unread : Session ℕ
unread = record idle { transaction = some (false, state_of 1 5) }

rollback_to-first_write_example :
    let saved = record unread {
      savepoints =
          retain (λ (p : Text × Committed ℕ). not (p.0 == mark_name)) unread.savepoints
          ++ ((mark_name, state_of 1 5) ∷ []);
    } in
    (savepoint unread mark_name ≡ ok saved)
    × ((t : Session ℕ) × (pending : Committed ℕ) × (rollback_to
            (run_writes eqb saved ((state_of 2 5, add_four) ∷ two_writes))
            mark_name
          ≡ ok t)
        × (t.transaction ≡ some (true, pending))
        × ((d : Text) → lookup d pending.databases ≡ lookup d (state_of 2 5).databases)
        × (t.savepoints ≡ refresh_savepoints app 2 saved.savepoints))
rollback_to-first_write_example =
    rollback_to-first_write eqb unread mark_name (state_of 1 5) (state_of 2 5) 2 add_four two_writes
      refl refl known_app

-- RELEASE removes one savepoint, not the ones after it.
releases_one :
    release_savepoint
      (record writer { savepoints = (app, state_of 1 1) ∷ (other, state_of 2 2) ∷ [] })
      app
    ≡ ok (record writer { savepoints = (other, state_of 2 2) ∷ [] })
unfolding release_savepoint find_savepoint remove_first
releases_one = refl
