-- ===== src/Session/SavepointLaws.antt =====
-- What ROLLBACK TO a savepoint brings back after writes (src/sql/engine/transaction.rs).
use my_sqweel.Prelude.{
  Text, List, [], ◌∷◌, ◌++◌, some, Bool, true, false, not, ◌≡◌, ◌≢◌, refl, sym, ap, ◌∙◌, arith,
  lookup, insert, lookup-insert, list_beq_iff, retain, ◌==◌, Result, ok, err, ok_or, ◌>>=◌, nat_eq,
  list_eq,
}
use mathlib.Core.List.{map-append}
use mathlib.Core.Path.{subst}
use my_sqweel.Coordinator.Publication.{Committed}
use my_sqweel.Session.Transactions.{
  SessionError, unknown_session_database, Session, find_savepoint, truncate_after, savepoint,
  restore_database, rollback_to, refresh_savepoints, upgrade, write_pending, keep_executed,
  run_statement, write_upgraded, write,
}

module _ {Raw : Type 0} where
  find_last :
      (name : Text) (xs : List (Text × Committed Raw)) (state : Committed Raw)
      → find_savepoint name (xs ++ ((name, state) ∷ [])) ≡ some state
  unfolding find_savepoint
  find_last name [] state = ground (arith, list_beq_iff name name)
  find_last name ((key, st) ∷ xs) state = rw (find_last name xs state)

  truncate_last :
      (name : Text) (xs : List (Text × Committed Raw)) (state : Committed Raw)
      → truncate_after name (xs ++ ((name, state) ∷ [])) ≡ xs ++ ((name, state) ∷ [])
  unfolding truncate_after
  truncate_last name [] state = unfold find_savepoint in ground (arith, list_beq_iff name name)
  truncate_last name ((key, st) ∷ xs) state =
      rw (find_last name xs state, truncate_last name xs state)

  module _ (unchanged : Raw → Raw → Bool) where
    -- Writes one after another, each with the state that is current then; the client goes on also after
    -- one that fails.
    unfoldable pub run_writes :
        Session Raw → List (Committed Raw × (Raw → Result SessionError Raw)) → Session Raw
    run_writes s [] = s
    run_writes s ((current, statement) ∷ writes) =
        run_writes (write unchanged statement s current).0 writes

    -- A session that holds the writer lease, like `s` but for the pending engine of its database.
    abbrev Continues : Session Raw → Committed Raw → Session Raw → Type 0
    Continues s state t =
        (t.database ≡ s.database)
        × (t.savepoints ≡ s.savepoints)
        × ((pending : Committed Raw) × (t.transaction ≡ some (true, pending))
            × ((d : Text) → s.database ≢ d → lookup d pending.databases ≡ lookup d state.databases))

    keep_executed-Continues :
        (s : Session Raw) (state : Committed Raw) (executed : Result SessionError Raw)
        → s.transaction ≡ some (true, state)
        → Continues s state (keep_executed s state executed).0
    unfolding keep_executed write_pending
    keep_executed-Continues s state (err e) open_ = (refl, refl, (state, open_, λ d ne. refl))
    keep_executed-Continues s state (ok raw) open_ = (
      refl,
      refl,
      (
        record state { databases = insert s.database raw state.databases },
        rw open_ refl,
        λ d ne.
            ground
              (arith, lookup-insert s.database d raw state.databases, list_beq_iff s.database d),
      ),
    )

    write-Continues :
        (statement : Raw → Result SessionError Raw) (s : Session Raw)
        (state current : Committed Raw)
        → s.transaction ≡ some (true, state)
        → Continues s state (write unchanged statement s current).0
    unfolding write run_statement
    write-Continues statement s state current open_ =
        let held : upgrade unchanged s current ≡ (s, ok state) = unfold upgrade in ground arith in
        subst (λ r. Continues s state (write_upgraded statement r).0) (sym held)
          (unfold write_upgraded in
            keep_executed-Continues s state
              (ok_or (lookup s.database state.databases) unknown_session_database >>= statement)
              open_)

    run_writes-Continues :
        (writes : List (Committed Raw × (Raw → Result SessionError Raw))) (s : Session Raw)
        (state : Committed Raw)
        → s.transaction ≡ some (true, state)
        → Continues s state (run_writes s writes)
    unfolding run_writes
    run_writes-Continues [] s state open_ = (refl, refl, (state, open_, λ d ne. refl))
    run_writes-Continues ((current, statement) ∷ writes) s state open_ =
        let next = (write unchanged statement s current).0 in
        let (same, kept, (between, open', others)) =
          write-Continues statement s state current open_ in
        let (same', kept', (pending, open'', others')) =
          run_writes-Continues writes next between open' in
        (
          same' ∙ same,
          kept' ∙ kept,
          (pending, open'', λ d ne. others' d (λ e. ne (sym same ∙ e)) ∙ others d ne),
        )

    -- ROLLBACK TO the last savepoint after writes under the lease.
    rollback_to-last :
        (s : Session Raw) (name : Text) (kept : List (Text × Committed Raw))
        (snapshot state : Committed Raw) (raw : Raw)
        (writes : List (Committed Raw × (Raw → Result SessionError Raw)))
        → s.transaction ≡ some (true, state)
        → s.savepoints ≡ kept ++ ((name, snapshot) ∷ [])
        → lookup s.database snapshot.databases ≡ some raw
        → lookup s.database state.databases ≡ some raw
        → (t : Session Raw) × (pending : Committed Raw) × (rollback_to (run_writes s writes) name
            ≡ ok t)
          × (t.transaction ≡ some (true, pending))
          × ((d : Text) → lookup d pending.databases ≡ lookup d state.databases)
          × (t.savepoints ≡ s.savepoints)
    unfolding rollback_to restore_database
    rollback_to-last s name kept snapshot state raw writes open_ saved there known =
        let (same, unmoved, (pending, now, others)) = run_writes-Continues writes s state open_ in
        let back : Committed Raw = record pending {
          databases = insert s.database raw pending.databases;
        } in
        let t : Session Raw = record (run_writes s writes) {
          transaction = some (true, back);
          savepoints = kept ++ ((name, snapshot) ∷ []);
        } in
        (
          t,
          back,
          ground (
            arith,
            same,
            unmoved,
            saved,
            now,
            there,
            find_last name kept snapshot,
            truncate_last name kept snapshot,
          ),
          refl,
          λ d. ground (
            arith,
            lookup-insert s.database d raw pending.databases,
            list_beq_iff s.database d,
            known,
            others d,
          ),
          sym saved,
        )

    -- ROLLBACK TO undoes everything since the savepoint: if the session has the writer lease, then after
    -- SAVEPOINT and any number of writes, failed ones included, it succeeds, each database of the pending
    -- state is the one at the savepoint, and the savepoint is still there, with those before it.
    pub rollback_to-savepoint :
        (s : Session Raw) (name : Text) (state : Committed Raw) (raw : Raw)
        (writes : List (Committed Raw × (Raw → Result SessionError Raw)))
        → s.transaction ≡ some (true, state)
        → lookup s.database state.databases ≡ some raw
        → let saved = record s {
          savepoints =
              retain (λ (p : Text × Committed Raw). not (p.0 == name)) s.savepoints
              ++ ((name, state) ∷ []);
        } in
          (savepoint s name ≡ ok saved)
          × ((t : Session Raw) × (pending : Committed Raw) × (rollback_to
                  (run_writes saved writes)
                  name
                ≡ ok t)
              × (t.transaction ≡ some (true, pending))
              × ((d : Text) → lookup d pending.databases ≡ lookup d state.databases)
              × (t.savepoints ≡ saved.savepoints))
    unfolding savepoint
    rollback_to-savepoint s name state raw writes open_ known =
        let kept = retain (λ (p : Text × Committed Raw). not (p.0 == name)) s.savepoints in
        let saved : Session Raw = record s { savepoints = kept ++ ((name, state) ∷ []) } in
        (
          ground arith,
          rollback_to-last saved name kept state state raw writes open_ refl known known,
        )

    -- The first write of a transaction that has read nothing brings its savepoints up to date: after
    -- SAVEPOINT and at least one write, ROLLBACK TO succeeds, each database of the pending state is the
    -- one that was current at the first write, and the savepoints stay, with the session's database as it
    -- was then.
    pub rollback_to-first_write :
        (s : Session Raw) (name : Text) (old current : Committed Raw) (raw : Raw)
        (statement : Raw → Result SessionError Raw)
        (writes : List (Committed Raw × (Raw → Result SessionError Raw)))
        → s.transaction ≡ some (false, old)
        → s.transaction_read ≡ false
        → lookup s.database current.databases ≡ some raw
        → let saved = record s {
          savepoints =
              retain (λ (p : Text × Committed Raw). not (p.0 == name)) s.savepoints
              ++ ((name, old) ∷ []);
        } in
          (savepoint s name ≡ ok saved)
          × ((t : Session Raw) × (pending : Committed Raw) × (rollback_to
                  (run_writes saved ((current, statement) ∷ writes))
                  name
                ≡ ok t)
              × (t.transaction ≡ some (true, pending))
              × ((d : Text) → lookup d pending.databases ≡ lookup d current.databases)
              × (t.savepoints ≡ refresh_savepoints s.database raw saved.savepoints))
    unfolding savepoint
    rollback_to-first_write s name old current raw statement writes open_ blind known =
        let kept = retain (λ (p : Text × Committed Raw). not (p.0 == name)) s.savepoints in
        let snapshot : Committed Raw = record old {
          databases = insert s.database raw old.databases;
        } in
        let saved : Session Raw = record s { savepoints = kept ++ ((name, old) ∷ []) } in
        let upgraded : Session Raw = record saved {
          transaction = some (true, current);
          savepoints = refresh_savepoints s.database raw saved.savepoints;
        } in
        let began : upgrade unchanged saved current ≡ (upgraded, ok current) =
          unfold upgrade in ground arith in
        let again : upgrade unchanged upgraded current ≡ (upgraded, ok current) =
          unfold upgrade in refl in
        let first : write unchanged statement saved current
            ≡ write unchanged statement upgraded current =
          unfold write in ap (write_upgraded statement) (began ∙ sym again) in
        let same : run_writes saved ((current, statement) ∷ writes)
            ≡ run_writes upgraded ((current, statement) ∷ writes) =
          unfold run_writes in
          ap (λ (r : Session Raw × Result SessionError (Unit {0})). run_writes r.0 writes) first in
        (
          ground arith,
          rw same (
              rollback_to-last upgraded name (refresh_savepoints s.database raw kept) snapshot
                current raw ((current, statement) ∷ writes) refl
                (unfold refresh_savepoints in map-append _ kept ((name, old) ∷ []))
                (ground (
                  arith,
                  lookup-insert s.database s.database raw old.databases,
                  list_beq_iff s.database s.database,
                ))
                known),
        )
