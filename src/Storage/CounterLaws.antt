-- ===== src/Storage/CounterLaws.antt =====
-- Which counters the changes sent to a backend depend on (`storage_batch` of src/storage/delta.rs).
use my_sqweel.Prelude.{
  Text, List, [], ◌∷◌, ◌++◌, Option, none, some, true, ◌≡◌, refl, ap, ap₂, ◌∙◌, arith, All, Map,
  lookup, map, is_some, flat_map, Eq, nat_eq, list_eq, pair_eq, option_eq, Option-cases, inl, inr,
  if◌then◌else◌, ◌==◌,
}
use my_sqweel.Storage.Contract.{DatabaseMetadata, metadata_eq, catalog_eq, put_catalog}
use my_sqweel.Storage.Delta.{
  Snapshot, EngineState, storage_catalog, dropped_databases, catalog_change, database_tables,
  database_rows, storage_batch, table_changes, schema_changes, table_names, snapshot_tables,
  row_changes,
}

flat_map-same {ℓ κ} :
    {A : Type ℓ} {B : Type κ} (f g : A → List B) (xs : List A)
    → ((x : A) → f x ≡ g x)
    → flat_map f xs ≡ flat_map g xs
flat_map-same f g [] same = refl
flat_map-same f g (x ∷ xs) same = ap₂ (λ a b. a ++ b) (same x) (flat_map-same f g xs same)

abbrev metadata_of :
    {Schema Auto StoredRow : Type 0}
    → Text × Snapshot Schema Auto StoredRow
    → Text × DatabaseMetadata
metadata_of p = (p.0, record { views = p.1.views; index_comments = p.1.index_comments })

module _ {Schema Auto StoredRow : Type 0} (counters : Text → Map Text Auto) where
  abbrev recount_snapshot :
      Text × Snapshot Schema Auto StoredRow → Text × Snapshot Schema Auto StoredRow
  recount_snapshot (database, s) = (database, record s { auto_inc = counters database })

  -- The state with other counters in its databases.
  abbrev pub recount :
      {Value : Type 0}
      → EngineState Value Schema Auto StoredRow
      → EngineState Value Schema Auto StoredRow
  recount state = record state { databases = map recount_snapshot state.databases }

  -- In each database the counters agree with the former ones under the names of its tables.
  abbrev pub AgreeOnTables : {Value : Type 0} → EngineState Value Schema Auto StoredRow → Type 0
  AgreeOnTables state =
      All
        (λ (p : Text × Snapshot Schema Auto StoredRow).
          (table : Text)
          → is_some (lookup table p.1.schemas) ≡ true
          → lookup table (counters p.0) ≡ lookup table p.1.auto_inc)
        state.databases

  lookup-recount :
      (database : Text) (m : Map Text (Snapshot Schema Auto StoredRow))
      → is_some (lookup database (map recount_snapshot m)) ≡ is_some (lookup database m)
  unfolding lookup
  lookup-recount database [] = refl
  lookup-recount database ((name, s) ∷ m) = ground (arith, lookup-recount database m)

  table_names-recount :
      (previous : Option (Snapshot Schema Auto StoredRow)) (database : Text)
      (current : Snapshot Schema Auto StoredRow)
      → table_names previous (recount_snapshot (database, current)).1 ≡ table_names previous current
  unfolding table_names snapshot_tables
  table_names-recount none database current = refl
  table_names-recount (some p) database current = refl

  module _ {Value : Type 0} ⦃ev : Eq Value⦄ ⦃es : Eq Schema⦄ ⦃ea : Eq Auto⦄
      ⦃er : Eq StoredRow⦄ where
    table_changes-recount :
        (database : Text) (previous : Option (Snapshot Schema Auto StoredRow))
        (current : Snapshot Schema Auto StoredRow)
        → ((table : Text)
            → is_some (lookup table current.schemas) ≡ true
            → lookup table (counters database) ≡ lookup table current.auto_inc)
        → (table : Text)
        → table_changes {Value = Value} database previous
            (recount_snapshot (database, current)).1
            table
          ≡ table_changes database previous current table
    unfolding table_changes schema_changes
    table_changes-recount database previous current agree table =
        elim (Option-cases (lookup table current.schemas)) [
          | inl gone ↦ rw gone refl
          | inr (schema, here) ↦ rw (agree table (rw here refl)) refl
        ]

    dropped-recount :
        (m : Map Text (Snapshot Schema Auto StoredRow))
        (after : EngineState Value Schema Auto StoredRow)
        → flat_map (dropped_databases (recount after)) m ≡ flat_map (dropped_databases after) m
    unfolding dropped_databases
    dropped-recount m after =
        flat_map-same _ _ m (λ (name, s). rw (lookup-recount name after.databases) refl)

    databases-recount :
        (before : EngineState Value Schema Auto StoredRow)
        (m : Map Text (Snapshot Schema Auto StoredRow))
        → All
            (λ (p : Text × Snapshot Schema Auto StoredRow).
              (table : Text)
              → is_some (lookup table p.1.schemas) ≡ true
              → lookup table (counters p.0) ≡ lookup table p.1.auto_inc)
            m
        → (flat_map (database_tables before) (map recount_snapshot m)
            ≡ flat_map (database_tables before) m)
          × (flat_map (database_rows before) (map recount_snapshot m)
              ≡ flat_map (database_rows before) m)
          × (map metadata_of (map recount_snapshot m) ≡ map metadata_of m)
    unfolding database_tables database_rows row_changes
    databases-recount before [] agree = (refl, refl, refl)
    databases-recount before ((database, s) ∷ m) (here, agree) =
        let previous = lookup database before.databases in
        let (tables, rows, metadata) = databases-recount before m agree in
        let names = table_names-recount previous database s in
        (
          ap₂ (λ a b. a ++ b)
              (ap (flat_map (table_changes database previous (recount_snapshot (database, s)).1))
                  names
                ∙ flat_map-same _ _ (table_names previous s)
                    (table_changes-recount database previous s here))
              tables,
          ap₂ (λ a b. a ++ b)
              (ap (flat_map (row_changes database previous (recount_snapshot (database, s)).1))
                names)
              rows,
          ap (λ rest. metadata_of (database, s) ∷ rest) metadata,
        )

    -- Only the counters under the names of tables are stored: if the counters of the next state are
    -- replaced by others that agree with them under the name of each table with a schema, the changes that
    -- are sent to the backend are the same. So no counter under any other name is ever stored.
    pub storage_batch-recount :
        (before after : EngineState Value Schema Auto StoredRow)
        → AgreeOnTables after
        → storage_batch before (recount after) ≡ storage_batch before after
    unfolding storage_batch
    storage_batch-recount before after agree =
        let (tables, rows, metadata) = databases-recount before after.databases agree in
        let catalog : storage_catalog (recount after) ≡ storage_catalog after =
          unfold storage_catalog in
          ap (λ databases. record { version = 1; metadata = after.metadata; databases = databases })
            metadata in
        let change : catalog_change before (recount after) ≡ catalog_change before after =
          unfold catalog_change in
          ap (λ next. if storage_catalog before == next then [] else put_catalog next ∷ [])
            catalog in
        ap₂ (λ metadata rows. record { metadata = metadata; rows = rows })
          (ap₂ (λ a b. a ++ b) change
            (ap₂ (λ a b. a ++ b) (dropped-recount before.databases after) tables))
          rows
