-- ===== src/Coordinator/Leases.antt =====
-- Writer leases: `Writers`, `WriterLease`, `check` and `acquire_scope` of src/sql/engine/transaction.rs.
use my_sqweel.Prelude.{
  Text, List, [], ◌∷◌, Option, none, some, Bool, true, false, ◌||◌, not, ◌==◌, is_empty, contains,
  add, retain, Result, ok, err, ensure, ◌>>=◌, ◌>>◌, if◌then◌else◌, nat_eq, list_eq,
}

pub data EngineError : Type 0 where
  callback_reentry commit_outcome_uncertain lock_wait_timeout unknown_database commit_failed :
      EngineError

-- `check`: `in_callback` is the runtime's mark of a callback, `poisoned` that of the storage.
unfoldable pub check : Bool → Bool → Result EngineError (Unit {0})
check in_callback poisoned = do
  ensure (not in_callback) callback_reentry
  ensure (not poisoned) commit_outcome_uncertain

pub record Writers : Type 0 where
  pub administrative : Bool
  pub databases : List Text

-- A lease on one database, or the administrative lease, `none`.
abbrev pub Scope : Type 0
Scope = Option Text

unfoldable pub must_wait : Writers → Scope → Bool
must_wait w (some database) = w.administrative || contains w.databases database
must_wait w none = w.administrative || not (is_empty w.databases)

-- What a waiting thread finds when `wait_until` returns: its deadline passed, or the writers as they
-- are at that time.
pub data Wake : Type 0 where
  timed_out : Wake
  notified : Writers → Wake

-- The `while` loop; `none` if the thread still waits when the observations end.
unfoldable pub wait_turn : Scope → Writers → List Wake → Result EngineError (Option Writers)
wait_turn scope w [] = if must_wait w scope then ok none else ok (some w)
wait_turn scope w (timed_out ∷ wakes) =
    if must_wait w scope then err lock_wait_timeout else ok (some w)
wait_turn scope w (notified w' ∷ wakes) =
    let again = wait_turn scope w' wakes in if must_wait w scope then again else ok (some w)

unfoldable pub mark : Writers → Scope → Writers
mark w (some database) = record w { databases = add database w.databases }
mark w none = record w { administrative = true }

unfoldable pub mark_granted :
    Result EngineError (Unit {0}) → Scope → Option Writers → Result EngineError (Option Writers)
mark_granted checked scope none = ok none
mark_granted checked scope (some w) = checked >> ok (some (mark w scope))

-- `first` and `second` are the results of `check` before and after the wait.
unfoldable pub acquire_scope :
    Result EngineError (Unit {0})
    → Result EngineError (Unit {0})
    → Scope
    → Writers
    → List Wake
    → Result EngineError (Option Writers)
acquire_scope first second scope w wakes = do
  first
  turn ← wait_turn scope w wakes
  mark_granted second scope turn

-- `WriterLease::drop`.
unfoldable pub release : Writers → Scope → Writers
release w (some database) = record w {
  databases = retain (λ (d : Text). not (d == database)) w.databases;
}
release w none = record w { administrative = false }
