-- ===== src/Coordinator/PublicationLaws.antt =====
-- Isolation and atomicity of publication (`publish_database_with_events` and `publish_locked` of
-- src/sql/engine/transaction.rs).
use my_sqweel.Prelude.{
  Text, [], ◌∷◌, Option, none, some, Bool, true, false, ◌≡◌, ◌≢◌, refl, arith, Map, lookup, insert,
  lookup-insert, is_some_and, map, list_beq_iff, ◌==◌, ok, err, if◌then◌else◌, nat_eq, list_eq,
  Option-cases, inl, inr, beq_refl,
}
use my_sqweel.Coordinator.Leases.{EngineError, check, commit_outcome_uncertain}
use my_sqweel.Coordinator.Publication.{
  Committed, Backend, memory, native, custom, CommitOutcome, stored, refused_before, failed_write,
  Shared, has_storage, strip_changed, published, store, publish_locked, publish_database,
}

module _ {Raw : Type 0} (same : Raw → Raw → Bool) (strip : Raw → Raw) where
  visible : Option Raw → Raw → Raw
  visible old raw = if is_some_and old (λ o. same o raw) then raw else strip raw

  after_strip : Option Raw → Option Raw → Option Raw
  after_strip old none = none
  after_strip old (some raw) = some (visible old raw)

  lookup-strip :
      (previous m : Map Text Raw) (k : Text)
      → lookup k (map (strip_changed same strip previous) m)
        ≡ after_strip (lookup k previous) (lookup k m)
  unfolding lookup strip_changed visible after_strip
  lookup-strip previous [] k = refl
  lookup-strip previous ((j, raw) ∷ m) k =
      ground (arith, lookup-strip previous m k, list_beq_iff j k)

  pub shown : Backend → Option Raw → Raw → Raw
  shown memory old raw = raw
  shown custom old raw = raw
  shown native old raw = visible old raw

  store-own :
      (backend : Backend) (outcome : CommitOutcome) (s : Shared Raw) (database : Text) (raw : Raw)
      → (store same strip backend outcome s
          (record s.committed { databases = insert database raw s.committed.databases })).1
        ≡ ok tt
      → lookup database
          (store same strip backend outcome s (record s.committed {
            databases = insert database raw s.committed.databases;
          })).0.committed.databases
        ≡ some (shown backend (lookup database s.committed.databases) raw)
  unfolding store published shown after_strip visible
  store-own memory outcome s database raw h = ground (
    arith,
    lookup-insert database database raw s.committed.databases,
    list_beq_iff database database,
  )
  store-own custom stored s database raw h = ground (
    arith,
    lookup-insert database database raw s.committed.databases,
    list_beq_iff database database,
  )
  store-own custom refused_before s database raw h = cc
  store-own custom failed_write s database raw h = cc
  store-own native refused_before s database raw h = cc
  store-own native failed_write s database raw h = cc
  store-own native stored s database raw h = rw (
    lookup-strip s.committed.databases (insert database raw s.committed.databases) database,
    lookup-insert database database raw s.committed.databases,
    beq_refl database,
    after_strip,
  )

  store-failed :
      (backend : Backend) (outcome : CommitOutcome) (s : Shared Raw) (state : Committed Raw)
      (e : EngineError)
      → (store same strip backend outcome s state).1 ≡ err e
      → (store same strip backend outcome s state).0.committed ≡ s.committed
  unfolding store
  store-failed memory outcome s state e h = cc
  store-failed custom stored s state e h = cc
  store-failed native stored s state e h = cc
  store-failed custom refused_before s state e h = refl
  store-failed native refused_before s state e h = refl
  store-failed custom failed_write s state e h = refl
  store-failed native failed_write s state e h = refl

  store-catalog :
      (backend : Backend) (outcome : CommitOutcome) (s : Shared Raw) (m : Map Text Raw)
      → (store same strip backend outcome s
          (record s.committed { databases = m })).0.committed.catalog
        ≡ s.committed.catalog
  unfolding store published
  store-catalog memory outcome s m = refl
  store-catalog custom stored s m = refl
  store-catalog native stored s m = refl
  store-catalog custom refused_before s m = refl
  store-catalog native refused_before s m = refl
  store-catalog custom failed_write s m = refl
  store-catalog native failed_write s m = refl

  module _ (same_refl : (r : Raw) → same r r ≡ true) where
    kept : (o : Option Raw) → after_strip o o ≡ o
    unfolding visible after_strip
    kept none = refl
    kept (some raw) = ground (arith, same_refl raw)

    store-other :
        (backend : Backend) (outcome : CommitOutcome) (s : Shared Raw) (database other : Text)
        (raw : Raw)
        → database ≢ other
        → lookup other
            (store same strip backend outcome s (record s.committed {
              databases = insert database raw s.committed.databases;
            })).0.committed.databases
          ≡ lookup other s.committed.databases
    unfolding store published
    store-other memory outcome s database other raw ne =
        ground (
          arith,
          lookup-insert database other raw s.committed.databases,
          list_beq_iff database other,
        )
    store-other custom stored s database other raw ne =
        ground (
          arith,
          lookup-insert database other raw s.committed.databases,
          list_beq_iff database other,
        )
    store-other custom refused_before s database other raw ne = refl
    store-other custom failed_write s database other raw ne = refl
    store-other native refused_before s database other raw ne = refl
    store-other native failed_write s database other raw ne = refl
    store-other native stored s database other raw ne =
        rw
          (
            lookup-strip s.committed.databases (insert database raw s.committed.databases) other,
            lookup-insert database other raw s.committed.databases,
            different,
          )
          (kept (lookup other s.committed.databases))
      where
        different : (database == other) ≡ false
        different = ground (arith, list_beq_iff database other)

    -- Publishing one database leaves every other database as the last commits left it, however old the
    -- pending state's copy of it is, and leaves the catalog; so it does when it fails.
    pub publish_database-other :
        (backend : Backend) (in_callback : Bool) (outcome : CommitOutcome) (s : Shared Raw)
        (database other : Text) (pending : Committed Raw)
        → database ≢ other
        → (lookup other
              (publish_database same strip backend in_callback outcome s database
                pending).0.committed.databases
            ≡ lookup other s.committed.databases)
          × ((publish_database same strip backend in_callback outcome s database
                pending).0.committed.catalog
              ≡ s.committed.catalog)
    unfolding publish_database publish_locked
    publish_database-other backend in_callback outcome s database other pending ne =
        elim (Option-cases (lookup database pending.databases)) [
          | inl missing ↦ ground arith
          | inr (raw, found) ↦ ground (
            arith,
            store-other backend outcome s database other raw ne,
            store-catalog backend outcome s (insert database raw s.committed.databases),
          )
        ]

  -- What a publication that succeeds makes visible of its own database: the pending state's engine, with
  -- RocksDB stripped of its rows unless it is the very engine that was visible before.
  pub publish_database-own :
      (backend : Backend) (in_callback : Bool) (outcome : CommitOutcome) (s : Shared Raw)
      (database : Text) (pending : Committed Raw)
      → (publish_database same strip backend in_callback outcome s database pending).1 ≡ ok tt
      → (raw : Raw) × (lookup database pending.databases ≡ some raw)
        × (lookup database
              (publish_database same strip backend in_callback outcome s database
                pending).0.committed.databases
            ≡ some (shown backend (lookup database s.committed.databases) raw))
  unfolding publish_database publish_locked
  publish_database-own backend in_callback outcome s database pending h =
      elim (Option-cases (lookup database pending.databases)) [
        | inl missing ↦ ground arith
        | inr (raw, found) ↦ (raw, found, ground (arith, store-own backend outcome s database raw))
      ]

  -- A publication that fails changes nothing that is visible.
  pub publish_database-failed :
      (backend : Backend) (in_callback : Bool) (outcome : CommitOutcome) (s : Shared Raw)
      (database : Text) (pending : Committed Raw) (e : EngineError)
      → (publish_database same strip backend in_callback outcome s database pending).1 ≡ err e
      → (publish_database same strip backend in_callback outcome s database pending).0.committed
        ≡ s.committed
  unfolding publish_database publish_locked
  publish_database-failed backend in_callback outcome s database pending e h =
      elim (Option-cases (lookup database pending.databases)) [
        | inl missing ↦ ground arith
        | inr (raw, found) ↦ ground (
          arith,
          store-failed backend outcome s
              (record s.committed { databases = insert database raw s.committed.databases }) e,
        )
      ]

  -- After a publication outside callbacks that failed because the outcome of its write is unknown, the
  -- engine shows its old state and refuses every later publication outside callbacks.
  pub publish_locked-poisoned :
      (backend : Backend) (outcome : CommitOutcome) (s : Shared Raw) (state later : Committed Raw)
      → (publish_locked same strip backend false failed_write s state).1 ≢ ok tt
      → let s' = (publish_locked same strip backend false failed_write s state).0 in
        (s'.committed ≡ s.committed)
        × (publish_locked same strip backend false outcome s' later
            ≡ (s', err commit_outcome_uncertain))
  unfolding publish_locked check has_storage store
  publish_locked-poisoned memory outcome s state later h = absurd (h (ground arith))
  publish_locked-poisoned native outcome s state later h = ground arith
  publish_locked-poisoned custom outcome s state later h = ground arith
