-- ===== src/Session/TransactionLaws.antt =====
-- Conflicts and commits of a session (src/sql/engine/transaction.rs).
use my_sqweel.Prelude.{
  Text, none, some, Bool, true, false, ◌≡◌, arith, lookup, lookup-insert, ◌==◌, ok, if◌then◌else◌,
  nat_eq, list_eq, ◌⊎◌, All,
}
use my_sqweel.Coordinator.Leases.{check}
use my_sqweel.Coordinator.Publication.{
  Committed, memory, stored, Shared, has_storage, store, published, publish_locked,
  publish_database,
}
use my_sqweel.Session.Transactions.{Session, same_database, upgrade, after_commit, commit}

module _ {Raw : Type 0} (unchanged : Raw → Raw → Bool) where
  -- Where a write starts after an upgrade that succeeds.
  Start : Session Raw → Committed Raw → Committed Raw → Raw → Type 0
  Start s old current raw =
      ((s.transaction_read ≡ false) ⊎ (same_database unchanged s.database old current ≡ true))
      × ((upgrade unchanged s current).1 ≡ ok current)
      × ((upgrade unchanged s current).0.transaction ≡ some (true, current))
      × All (λ (p : Text × Committed Raw). lookup s.database p.1.databases ≡ some raw)
          (upgrade unchanged s current).0.savepoints

-- A transaction with the writer lease that commits in memory replaces its own database by the pending
-- engine, keeps every other database as the last commits left it, and ends.
pub commit-databases :
    {Raw : Type 0} (same : Raw → Raw → Bool) (strip : Raw → Raw) (shared : Shared Raw)
    (s : Session Raw) (state : Committed Raw) (raw : Raw)
    → s.transaction ≡ some (true, state)
    → lookup s.database state.databases ≡ some raw
    → let r = commit same strip memory stored shared s in
      ((d : Text)
        → lookup d r.0.committed.databases
          ≡ (if s.database == d then some raw else lookup d shared.committed.databases))
      × (r.1.transaction ≡ none)
      × (r.2 ≡ ok tt)
unfolding commit publish_database publish_locked check has_storage store published after_commit
commit-databases same strip shared s state raw open_ known = (
  λ d. ground (arith, lookup-insert s.database d raw shared.committed.databases),
  ground arith,
  ground arith,
)
