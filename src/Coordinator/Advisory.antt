-- ===== src/Coordinator/Advisory.antt =====
-- Advisory locks: GET_LOCK, RELEASE_LOCK and IS_FREE_LOCK of `advisory_query`, and
-- `release_advisory_locks`, in src/sql/engine/transaction.rs. A session is a number, its UUID.
use my_sqweel.Prelude.{
  ℕ, ◌+◌, ◌-◌, ◌^◌, Text, List, [], ◌∷◌, Option, none, some, ◌||◌, not, Map, lookup, insert, remove,
  retain, is_some, is_empty, length, ltb, eqb, Result, ok, err, if◌then◌else◌, nat_eq, list_eq,
}

-- The owner of each lock, and how often it took it.
abbrev pub Locks : Type 0
Locks = Map Text (ℕ × ℕ)

pub data LockError : Type 0 where
  invalid_name recursion_limit : LockError

-- A lock's name has 1 to 64 characters.
unfoldable pub check_name : Text → Result LockError (Unit {0})
check_name key = if is_empty key || ltb 64 (length key) then err invalid_name else ok tt

-- The value that IS_FREE_LOCK returns.
unfoldable pub is_free_lock : Locks → Text → ℕ
is_free_lock locks key = if is_some (lookup key locks) then 0 else 1

-- The new locks, and the value that RELEASE_LOCK returns; `none` is NULL.
unfoldable pub release_lock : ℕ → Locks → Text → Locks × Option ℕ
release_lock session locks key = elim (lookup key locks) [
  | none ↦ (locks, none)
  | some (owner, depth) ↦
      if eqb owner session
      then (if eqb (depth - 1) 0
          then (remove key locks, some 1)
          else (insert key (owner, depth - 1) locks, some 1))
      else (locks, some 0)
]

-- How `wait_until` returns: at the deadline or before it, in each case with the locks as they are then.
pub data LockWake : Type 0 where
  deadline : Locks → LockWake
  changed : Locks → LockWake

pub data Acquired : Type 0 where
  -- The new locks, and the value that GET_LOCK returns.
  returned : Locks → ℕ → Acquired
  limit_reached : Acquired
  waiting : Acquired

unfoldable pub take_lock : ℕ → Text → Locks → Acquired → Acquired
take_lock session key locks wait = elim (lookup key locks) [
  | none ↦ returned (insert key (session, 1) locks) 1
  | some (owner, depth) ↦
      if eqb owner session
      then (if ltb (depth + 1) (2 ^ 32)
          then returned (insert key (owner, depth + 1) locks) 1
          else limit_reached)
      else wait
]

-- The `loop` of GET_LOCK; `waiting` if the session still waits when the observations end.
unfoldable pub get_lock : ℕ → Text → Locks → List LockWake → Acquired
get_lock session key locks [] = take_lock session key locks waiting
get_lock session key locks (deadline seen ∷ wakes) = take_lock session key locks (returned seen 0)
get_lock session key locks (changed locks' ∷ wakes) =
    take_lock session key locks (get_lock session key locks' wakes)

unfoldable pub release_advisory_locks : ℕ → Locks → Locks
release_advisory_locks session locks =
    retain (λ (l : Text × (ℕ × ℕ)). not (eqb l.1.0 session)) locks
