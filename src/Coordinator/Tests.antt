-- ===== src/Coordinator/Tests.antt =====
-- The theorems on leases, advisory locks and publication at concrete inputs, and runs.
use my_sqweel.Prelude.{
  ℕ, ◌^◌, ◌≤◌, ◌<◌, Text, [], ◌∷◌, some, true, false, ◌≡◌, ◌≢◌, refl, arith, lookup, insert, add,
  ok, err, is_ok, eqb, nat_eq, list_eq, UniqueKeys,
}
use my_sqweel.Access.Accounts.{Catalog}
use my_sqweel.Coordinator.Leases.{
  Writers, must_wait, mark, timed_out, notified, wait_turn, mark_granted, acquire_scope, check,
  lock_wait_timeout, commit_failed, commit_outcome_uncertain,
}
use my_sqweel.Coordinator.LeaseLaws.{
  World, grant, Reach, start, next, IsExclusive, Reach-IsExclusive, Observed, acquire_scope-grants,
}
use my_sqweel.Coordinator.Advisory.{
  changed, Locks, release_lock, deadline, returned, waiting, take_lock, get_lock,
  release_advisory_locks,
}
use my_sqweel.Coordinator.AdvisoryLaws
use my_sqweel.Coordinator.AdvisoryLaws.{
  OwnedByOther, get_lock-IsValid, get_lock-excluded, release_lock-get_lock,
}
use my_sqweel.Coordinator.Publication.{
  Committed, native, stored, failed_write, Shared, store, has_storage, publish_locked,
  publish_database,
}
use my_sqweel.Coordinator.PublicationLaws.{
  shown, publish_database-other, publish_database-own, publish_database-failed,
  publish_locked-poisoned,
}

abbrev a : Text
a = b'a' ∷ []

abbrev b : Text
b = b'b' ∷ []

abbrev idle : World
idle = record { writers = record { administrative = false; databases = [] }; held = [] }

abbrev one_writer : World
one_writer = record {
  writers = record { administrative = false; databases = a ∷ [] };
  held = some a ∷ [];
}

idle_free : must_wait idle.writers (some a) ≡ false
unfolding must_wait
idle_free = refl

one_writer_reached : Reach (record { writers = mark idle.writers (some a); held = some a ∷ [] })
one_writer_reached = next start (grant idle (some a) idle_free)

one_writer-IsExclusive :
    IsExclusive (record { writers = mark idle.writers (some a); held = some a ∷ [] })
one_writer-IsExclusive = Reach-IsExclusive one_writer_reached

Reach-IsExclusive_example :
    IsExclusive (record { writers = mark idle.writers (some a); held = some a ∷ [] })
Reach-IsExclusive_example = Reach-IsExclusive one_writer_reached

abbrev busy : Writers
busy = record { administrative = true; databases = [] }

abbrev quiet : Writers
quiet = record { administrative = false; databases = [] }

abbrev b_writes : Writers
b_writes = record { administrative = false; databases = b ∷ [] }

granted_late :
    acquire_scope (ok tt) (ok tt) (some b) busy (notified quiet ∷ []) ≡ ok (some b_writes)
unfolding acquire_scope wait_turn must_wait mark_granted mark add
granted_late = refl

times_out : acquire_scope (ok tt) (ok tt) (some b) busy (timed_out ∷ []) ≡ err lock_wait_timeout
unfolding acquire_scope wait_turn must_wait
times_out = refl

acquire_scope-grants_example :
    (is_ok (check false false) ≡ true)
    × (is_ok (check false false) ≡ true)
    × ((v : Writers) × Observed v busy (notified quiet ∷ [])
        × (must_wait v (some b) ≡ false)
        × (b_writes ≡ mark v (some b)))
unfolding check
acquire_scope-grants_example =
    acquire_scope-grants (ok tt) (ok tt) (some b) busy (notified quiet ∷ []) b_writes granted_late

-- Session 7 owns the lock `a`, taken twice.
abbrev held_by_7 : Locks
held_by_7 = (a, (7, 2)) ∷ []

held_by_7-counted :
    (key : Text) (owner depth : ℕ)
    → lookup key held_by_7 ≡ some (owner, depth)
    → (1 ≤ depth) × (depth < 2 ^ 32)
unfolding lookup
held_by_7-counted key owner depth h = ground arith

held_by_7_unique : UniqueKeys held_by_7
unfolding lookup
held_by_7_unique = (refl, tt)

held_by_7-IsValid : AdvisoryLaws.IsValid held_by_7
held_by_7-IsValid = record { unique = held_by_7_unique; counted = held_by_7-counted }

abbrev held_thrice : Locks
held_thrice = (a, (7, 3)) ∷ []

taken_again : take_lock 7 a held_by_7 waiting ≡ returned held_thrice 1
unfolding take_lock lookup insert
taken_again = refl

got_again : get_lock 7 a held_by_7 [] ≡ returned held_thrice 1
unfolding get_lock take_lock lookup insert
got_again = refl

get_lock-IsValid_example : AdvisoryLaws.IsValid held_thrice
get_lock-IsValid_example =
    get_lock-IsValid 7 a held_by_7 [] held_thrice 1 held_by_7-IsValid tt got_again

thrice_owned_by_7 : OwnedByOther 8 a held_thrice
unfolding lookup
thrice_owned_by_7 = (7, 3, refl, omega arith)

owned_by_7 : OwnedByOther 8 a held_by_7
unfolding lookup
owned_by_7 = (7, 2, refl, omega arith)

get_lock-excluded_example :
    get_lock 8 a held_by_7 (changed held_thrice ∷ deadline held_by_7 ∷ []) ≡ returned held_by_7 0
get_lock-excluded_example =
    get_lock-excluded 8 a held_by_7 (changed held_thrice ∷ deadline held_by_7 ∷ []) owned_by_7
      (thrice_owned_by_7, tt)

release_lock-get_lock_example :
    ((release_lock 7 held_thrice a).1 ≡ some 1)
    × ((j : Text) → lookup j (release_lock 7 held_thrice a).0 ≡ lookup j held_by_7)
release_lock-get_lock_example =
    release_lock-get_lock 7 a held_by_7 waiting held_thrice held_by_7-IsValid (λ e. cc) taken_again

-- The locks of a session that ends are free.
released_at_end : release_advisory_locks 7 held_by_7 ≡ []
unfolding release_advisory_locks
released_at_end = refl

abbrev no_accounts : Catalog
no_accounts = record {
  databases = a ∷ b ∷ [];
  users = [];
  database_charsets = [];
  sql_functions = [];
}

-- Engines as numbers: the hundreds are rows, which `strip` clears.
abbrev keep_schema : ℕ → ℕ
keep_schema n = 1

abbrev visible_state : Shared ℕ
visible_state = record {
  committed = record { catalog = no_accounts; databases = (a, 101) ∷ (b, 201) ∷ [] };
  poisoned = false;
}

abbrev pending_state : Committed ℕ
pending_state = record { catalog = no_accounts; databases = (a, 301) ∷ (b, 5) ∷ [] }

same_refl : (n : ℕ) → eqb n n ≡ true
same_refl n = ground arith

a_ne_b : a ≢ b
a_ne_b e = ground arith

publish_database-other_example :
    (lookup b
        (publish_database eqb keep_schema native false stored visible_state a
          pending_state).0.committed.databases
      ≡ lookup b visible_state.committed.databases)
    × ((publish_database eqb keep_schema native false stored visible_state a
          pending_state).0.committed.catalog
        ≡ no_accounts)
publish_database-other_example =
    publish_database-other eqb keep_schema same_refl native false stored visible_state a b
      pending_state a_ne_b

published_ok :
    (publish_database eqb keep_schema native false stored visible_state a pending_state).1 ≡ ok tt
unfolding publish_database publish_locked check store lookup has_storage
published_ok = refl

publish_database-own_example :
    (raw : ℕ) × (lookup a pending_state.databases ≡ some raw)
    × (lookup a
          (publish_database eqb keep_schema native false stored visible_state a
            pending_state).0.committed.databases
        ≡ some (shown eqb keep_schema native (lookup a visible_state.committed.databases) raw))
publish_database-own_example =
    publish_database-own eqb keep_schema native false stored visible_state a pending_state
      published_ok

write_failed :
    (publish_database eqb keep_schema native false failed_write visible_state a pending_state).1
    ≡ err commit_failed
unfolding publish_database publish_locked check store lookup has_storage
write_failed = refl

publish_database-failed_example :
    (publish_database eqb keep_schema native false failed_write visible_state a
      pending_state).0.committed
    ≡ visible_state.committed
publish_database-failed_example =
    publish_database-failed eqb keep_schema native false failed_write visible_state a pending_state
      commit_failed write_failed

not_stored :
    (publish_locked eqb keep_schema native false failed_write visible_state pending_state).1 ≢ ok tt
unfolding publish_locked check store has_storage
not_stored e = cc

publish_locked-poisoned_example :
    let s' =
      (publish_locked eqb keep_schema native false failed_write visible_state pending_state).0 in
    (s'.committed ≡ visible_state.committed)
    × (publish_locked eqb keep_schema native false stored s' pending_state
        ≡ (s', err commit_outcome_uncertain))
publish_locked-poisoned_example =
    publish_locked-poisoned eqb keep_schema native stored visible_state pending_state pending_state
      not_stored
