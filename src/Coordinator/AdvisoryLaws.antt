-- ===== src/Coordinator/AdvisoryLaws.antt =====
-- Ownership of advisory locks (GET_LOCK and RELEASE_LOCK in src/sql/engine/transaction.rs).
use my_sqweel.Prelude.{
  ℕ, ◌+◌, ◌-◌, ◌^◌, ◌≤◌, ◌<◌, Text, List, [], ◌∷◌, none, some, ◌≡◌, ◌≢◌, arith, lookup, insert,
  remove, lookup-insert, lookup-remove, UniqueKeys, UniqueKeys-insert, UniqueKeys-remove,
  list_beq_iff, eqb, eqb_iff, nat_eq, list_eq, Option-cases, inl, inr, ◌⊎◌, Bool-cases,
}
use mathlib.Core.Path.{subst}
use my_sqweel.Coordinator.Advisory.{
  Locks, release_lock, LockWake, deadline, changed, Acquired, returned, waiting, take_lock,
  get_lock,
}

-- Each name has one entry, and each owner took its lock at least once and below the limit of a u32.
pub record IsValid (locks : Locks) : Type 0 where
  pub unique : UniqueKeys locks
  pub counted :
      (key : Text) (owner depth : ℕ)
      → lookup key locks ≡ some (owner, depth)
      → (1 ≤ depth) × (depth < 2 ^ 32)

insert-IsValid :
    (locks : Locks) (key : Text) (owner depth : ℕ)
    → IsValid locks
    → 1 ≤ depth
    → depth < 2 ^ 32
    → IsValid (insert key (owner, depth) locks)
insert-IsValid locks key owner depth v lo hi = record {
  unique = UniqueKeys-insert key (owner, depth) locks v.unique;
  counted = λ j o d h. ground (arith, lookup-insert key j (owner, depth) locks, v.counted j o d);
}

remove-IsValid : (locks : Locks) (key : Text) → IsValid locks → IsValid (remove key locks)
remove-IsValid locks key v = record {
  unique = UniqueKeys-remove key locks v.unique;
  counted = λ j o d h. ground (arith, lookup-remove key j locks, v.counted j o d);
}

-- How an attempt can return: it takes a free lock, takes its own lock once more, or finds another's.
TakeCases : ℕ → Text → Locks → Acquired → Locks → ℕ → Type 0
TakeCases session key locks wait locks' value =
    ((lookup key locks ≡ none) × (locks' ≡ insert key (session, 1) locks) × (value ≡ 1))
    ⊎ (((d : ℕ) × (lookup key locks ≡ some (session, d))
          × (d + 1 < 2 ^ 32)
          × (locks' ≡ insert key (session, d + 1) locks)
          × (value ≡ 1))
        ⊎ (wait ≡ returned locks' value))

take_lock_cases :
    (session : ℕ) (key : Text) (locks : Locks) (wait : Acquired) (locks' : Locks) (value : ℕ)
    → take_lock session key locks wait ≡ returned locks' value
    → TakeCases session key locks wait locks' value
unfolding take_lock TakeCases
take_lock_cases session key locks wait locks' value h = elim (Option-cases (lookup key locks)) [
  | inl free ↦ inl (free, ground arith, ground arith)
  | inr ((o, d), held) ↦ elim (Bool-cases (eqb o session)) [
    | inl own ↦ inr (inl (d, ground arith, ground arith, ground arith, ground arith))
    | inr other ↦ inr (inr (ground arith))
  ]
]

take_lock-IsValid :
    (session : ℕ) (key : Text) (locks : Locks) (wait : Acquired) (locks' : Locks) (value : ℕ)
    → IsValid locks
    → (wait ≡ returned locks' value → IsValid locks')
    → take_lock session key locks wait ≡ returned locks' value
    → IsValid locks'
unfolding TakeCases
take_lock-IsValid session key locks wait locks' value v later h =
    elim (take_lock_cases session key locks wait locks' value h) [
      | inl (free, same, one) ↦
          rw same (insert-IsValid locks key session 1 v (omega arith) (omega arith))
      | inr (inl (d, held, fits, same, one)) ↦
          rw same (insert-IsValid locks key session (d + 1) v (omega arith) fits)
      | inr (inr waits) ↦ later waits
    ]

abbrev pub AllValid : List LockWake → Type 0
AllValid [] = Unit
AllValid (deadline locks ∷ wakes) = IsValid locks × AllValid wakes
AllValid (changed locks ∷ wakes) = IsValid locks × AllValid wakes

-- GET_LOCK keeps the table of locks valid, however long it waits and whatever others do meanwhile.
pub get_lock-IsValid :
    (session : ℕ) (key : Text) (locks : Locks) (wakes : List LockWake) (locks' : Locks) (value : ℕ)
    → IsValid locks
    → AllValid wakes
    → get_lock session key locks wakes ≡ returned locks' value
    → IsValid locks'
unfolding get_lock
get_lock-IsValid session key locks [] locks' value v all h =
    take_lock-IsValid session key locks waiting locks' value v (λ e. cc) h
get_lock-IsValid session key locks (deadline seen ∷ wakes) locks' value v (w, all) h =
    take_lock-IsValid session key locks (returned seen 0) locks' value v
      (λ e. subst IsValid (returned_inj seen locks' 0 value e) w) h
  where
    returned_inj : (a b : Locks) (x y : ℕ) → returned a x ≡ returned b y → a ≡ b
    returned_inj a b x y e = cc
get_lock-IsValid session key locks (changed next ∷ wakes) locks' value v (w, all) h =
    take_lock-IsValid session key locks (get_lock session key next wakes) locks' value v
      (get_lock-IsValid session key next wakes locks' value w all) h

-- Another session owns the lock in all that the session sees.
abbrev pub OwnedByOther : ℕ → Text → Locks → Type 0
OwnedByOther session key locks =
    (owner : ℕ) × (depth : ℕ) × (lookup key locks ≡ some (owner, depth)) × (owner ≢ session)

abbrev pub AllOwned : ℕ → Text → List LockWake → Type 0
AllOwned session key [] = Unit
AllOwned session key (deadline locks ∷ wakes) = Unit
AllOwned session key (changed locks ∷ wakes) =
    OwnedByOther session key locks × AllOwned session key wakes

owned_waits :
    (session : ℕ) (key : Text) (locks : Locks) (wait : Acquired)
    → OwnedByOther session key locks
    → take_lock session key locks wait ≡ wait
unfolding take_lock
owned_waits session key locks wait (o, d, held, other) = ground (arith, eqb_iff o session)

-- The outcome of a call that gets no lock: 0 with the locks as they are at the deadline, or none yet.
abbrev pub not_granted : List LockWake → Acquired
not_granted [] = waiting
not_granted (deadline seen ∷ wakes) = returned seen 0
not_granted (changed locks ∷ wakes) = not_granted wakes

-- While another session owns the lock, at the call and at each wake-up before the deadline, GET_LOCK
-- does not grant it: at the deadline it returns 0 and leaves the locks exactly as they are then, and
-- before it waits on.
pub get_lock-excluded :
    (session : ℕ) (key : Text) (locks : Locks) (wakes : List LockWake)
    → OwnedByOther session key locks
    → AllOwned session key wakes
    → get_lock session key locks wakes ≡ not_granted wakes
unfolding get_lock
get_lock-excluded session key locks [] held all = owned_waits session key locks waiting held
get_lock-excluded session key locks (deadline seen ∷ wakes) held all =
    owned_waits session key locks (returned seen 0) held
get_lock-excluded session key locks (changed next ∷ wakes) held (then_held, all) =
    rw (owned_waits session key locks (get_lock session key next wakes) held)
      (get_lock-excluded session key next wakes then_held all)

-- RELEASE_LOCK undoes one GET_LOCK: after a call that granted the lock at once, releasing it returns 1
-- and every name has the owner and the count that it had before.
pub release_lock-get_lock :
    (session : ℕ) (key : Text) (locks : Locks) (wait : Acquired) (locks' : Locks)
    → IsValid locks
    → wait ≢ returned locks' 1
    → take_lock session key locks wait ≡ returned locks' 1
    → ((release_lock session locks' key).1 ≡ some 1)
      × ((j : Text) → lookup j (release_lock session locks' key).0 ≡ lookup j locks)
unfolding release_lock TakeCases
release_lock-get_lock session key locks wait locks' v granted h =
    elim (take_lock_cases session key locks wait locks' 1 h) [
      | inl (free, same, one) ↦ (
        ground (arith, lookup-insert key key (session, 1) locks, list_beq_iff key key),
        λ j. ground (
          arith,
          lookup-insert key key (session, 1) locks,
          lookup-insert key j (session, 1) locks,
          lookup-remove key j locks',
          list_beq_iff key key,
          list_beq_iff key j,
        ),
      )
      | inr (inl (d, held, fits, same, one)) ↦ (
        ground (arith, lookup-insert key key (session, d + 1) locks, list_beq_iff key key),
        λ j. ground (
          arith,
          v.counted key session d held,
          lookup-insert key key (session, d + 1) locks,
          lookup-insert key j (session, d + 1) locks,
          lookup-insert key j (session, d + 1 - 1) locks',
          list_beq_iff key key,
          list_beq_iff key j,
        ),
      )
      | inr (inr waits) ↦ absurd (granted waits)
    ]
