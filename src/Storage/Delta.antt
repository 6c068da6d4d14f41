-- ===== src/Storage/Delta.antt =====
-- The mutations that lead from one engine state to the next (`storage_catalog` and `storage_batch` of
-- src/storage/delta.rs). A `BTreeSet` of table names is a list without order.
use my_sqweel.Prelude.{
  Text, List, [], ◌∷◌, ◌++◌, Option, none, some, ◌&&◌, not, Map, lookup, map, add, fold, flat_map,
  is_some, is_none_or, if◌then◌else◌, ◌==◌, Eq, nat_eq, list_eq, option_eq, pair_eq,
}
use my_sqweel.Storage.Contract.{
  metadata_eq, StorageCatalog, catalog_eq, RowMutation, put, delete, MetadataMutation, put_catalog,
  delete_database, put_table, delete_table, StorageBatch,
}

-- The parts of a database's image that storage reads or writes.
pub record Snapshot (Schema Auto StoredRow : Type 0) : Type 0 where
  pub schemas : Map Text Schema
  pub rows : Map Text (Map Text StoredRow)
  pub auto_inc : Map Text Auto
  pub views : Map Text Text
  pub index_comments : Map Text Text

pub record EngineState (Value Schema Auto StoredRow : Type 0) : Type 0 where
  pub metadata : Value
  pub databases : Map Text (Snapshot Schema Auto StoredRow)

unfoldable pub keys {ℓ} : {V : Type ℓ} → Map Text V → List Text
keys [] = []
keys ((k, v) ∷ m) = k ∷ keys m

-- `previous.and_then(|snapshot| ...get(key))`.
unfoldable pub get_in {ℓ κ} : {A : Type ℓ} {V : Type κ} → Option A → (A → Option V) → Option V
get_in none f = none
get_in (some a) f = f a

module _ {StoredRow : Type 0} where
  unfoldable pub row_delete :
      Text → Text → Option (Map Text StoredRow) → Text → List (RowMutation StoredRow)
  row_delete database table new_rows key =
      if is_none_or new_rows (λ rows. not (is_some (lookup key rows)))
      then delete database table key ∷ []
      else []

  unfoldable pub row_deletes :
      Text
      → Text
      → Option (Map Text StoredRow)
      → Option (Map Text StoredRow)
      → List (RowMutation StoredRow)
  row_deletes database table none new_rows = []
  row_deletes database table (some old_rows) new_rows =
      flat_map (row_delete database table new_rows) (keys old_rows)

  module _ ⦃er : Eq StoredRow⦄ where
    unfoldable pub row_put :
        Text → Text → Option (Map Text StoredRow) → Text × StoredRow → List (RowMutation StoredRow)
    row_put database table old_rows (key, row) =
        if get_in old_rows (λ rows. lookup key rows) == some row
        then []
        else put database table key row ∷ []

    unfoldable pub row_puts :
        Text
        → Text
        → Option (Map Text StoredRow)
        → Option (Map Text StoredRow)
        → List (RowMutation StoredRow)
    row_puts database table old_rows none = []
    row_puts database table old_rows (some new_rows) =
        flat_map (row_put database table old_rows) new_rows

module _ {Schema Auto StoredRow : Type 0} where
  unfoldable pub snapshot_tables : Snapshot Schema Auto StoredRow → List Text
  snapshot_tables s = keys s.schemas ++ keys s.rows

  unfoldable pub table_names :
      Option (Snapshot Schema Auto StoredRow) → Snapshot Schema Auto StoredRow → List Text
  table_names none current = fold (λ ts t. add t ts) [] (snapshot_tables current)
  table_names (some previous) current =
      fold (λ ts t. add t ts) [] (snapshot_tables previous ++ snapshot_tables current)

  module _ ⦃er : Eq StoredRow⦄ where
    unfoldable pub row_changes :
        Text
        → Option (Snapshot Schema Auto StoredRow)
        → Snapshot Schema Auto StoredRow
        → Text
        → List (RowMutation StoredRow)
    row_changes database previous current table =
        row_deletes database table (get_in previous (λ s. lookup table s.rows))
          (lookup table current.rows)
        ++ row_puts database table (get_in previous (λ s. lookup table s.rows))
            (lookup table current.rows)

module _ {Value Schema Auto : Type 0} ⦃es : Eq Schema⦄ ⦃ea : Eq Auto⦄ where
  -- `match (old_schema, new_schema)`.
  unfoldable pub schema_changes :
      Text
      → Text
      → Option Schema
      → Option Schema
      → Option Auto
      → Option Auto
      → List (MetadataMutation Value Schema Auto)
  schema_changes database table old none old_auto new_auto = delete_table database table ∷ []
  schema_changes database table old (some schema) old_auto new_auto =
      if (old == some schema) && (old_auto == new_auto)
      then []
      else put_table database table (record { schema = schema; auto_increment = new_auto }) ∷ []

  module _ {StoredRow : Type 0} where
    unfoldable pub table_changes :
        Text
        → Option (Snapshot Schema Auto StoredRow)
        → Snapshot Schema Auto StoredRow
        → Text
        → List (MetadataMutation Value Schema Auto)
    table_changes database previous current table =
        schema_changes database table (get_in previous (λ s. lookup table s.schemas))
          (lookup table current.schemas) (get_in previous (λ s. lookup table s.auto_inc))
          (lookup table current.auto_inc)

module _ {Value Schema Auto StoredRow : Type 0} where
  unfoldable pub storage_catalog : EngineState Value Schema Auto StoredRow → StorageCatalog Value
  storage_catalog state = record {
    version = 1;
    metadata = state.metadata;
    databases =
        map
          (λ (p : Text × Snapshot Schema Auto StoredRow).
            (p.0, record { views = p.1.views; index_comments = p.1.index_comments }))
          state.databases;
  }

  -- The loop over the databases of `before`.
  unfoldable pub dropped_databases :
      EngineState Value Schema Auto StoredRow
      → Text × Snapshot Schema Auto StoredRow
      → List (MetadataMutation Value Schema Auto)
  dropped_databases after (database, previous) =
      if is_some (lookup database after.databases)
      then []
      else delete_database database ∷ map (λ t. delete_table database t) (keys previous.schemas)

  module _ ⦃ev : Eq Value⦄ ⦃es : Eq Schema⦄ ⦃ea : Eq Auto⦄ ⦃er : Eq StoredRow⦄ where
    unfoldable pub database_tables :
        EngineState Value Schema Auto StoredRow
        → Text × Snapshot Schema Auto StoredRow
        → List (MetadataMutation Value Schema Auto)
    database_tables before (database, current) =
        let previous = lookup database before.databases in
        flat_map (table_changes database previous current) (table_names previous current)

    unfoldable pub database_rows :
        EngineState Value Schema Auto StoredRow
        → Text × Snapshot Schema Auto StoredRow
        → List (RowMutation StoredRow)
    database_rows before (database, current) =
        let previous = lookup database before.databases in
        flat_map (row_changes database previous current) (table_names previous current)

    unfoldable pub catalog_change :
        EngineState Value Schema Auto StoredRow
        → EngineState Value Schema Auto StoredRow
        → List (MetadataMutation Value Schema Auto)
    catalog_change before after =
        if storage_catalog before == storage_catalog after
        then []
        else put_catalog (storage_catalog after) ∷ []

    unfoldable pub storage_batch :
        EngineState Value Schema Auto StoredRow
        → EngineState Value Schema Auto StoredRow
        → StorageBatch Value Schema Auto StoredRow
    storage_batch before after = record {
      metadata =
          catalog_change before after
          ++ (flat_map (dropped_databases after) before.databases
              ++ flat_map (database_tables before) after.databases);
      rows = flat_map (database_rows before) after.databases;
    }
