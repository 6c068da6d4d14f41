-- ===== src/Storage/CatalogLaws.antt =====
-- Only `put_catalog` changes the stored catalog, and it is sent when the catalogs differ (src/storage/delta.rs).
use my_sqweel.Prelude.{
  Text, Option, none, some, true, ◌&&◌, ◌≡◌, refl, ◌⊎◌, inl, inr, All, All-flat_map, All-map,
  All-every, any, lookup, is_some, ◌==◌, Eq, nat_eq, list_eq, option_eq, pair_eq, Bool-cases,
}
use my_sqweel.Storage.Contract.{
  metadata_eq, catalog_eq, catalog_beq_iff, MetadataMutation, delete_table,
}
use my_sqweel.Storage.Delta.{
  Snapshot, EngineState, keys, storage_catalog, dropped_databases, table_names, schema_changes,
  table_changes, catalog_change, database_tables,
}
use my_sqweel.Storage.Folds.{writes_catalog, written_catalog}

module _ {Value Schema Auto StoredRow : Type 0} ⦃ev : Eq Value⦄ ⦃es : Eq Schema⦄ ⦃ea : Eq Auto⦄
    ⦃er : Eq StoredRow⦄ where
  -- The mutations other than `put_catalog` leave the catalog.
  abbrev pub KeepsCatalog :
      EngineState Value Schema Auto StoredRow → MetadataMutation Value Schema Auto → Type 0
  KeepsCatalog after m = written_catalog (storage_catalog after) m ≡ storage_catalog after

  schema_changes-catalog :
      (after : EngineState Value Schema Auto StoredRow) (d t : Text) (old new : Option Schema)
      (old_auto new_auto : Option Auto)
      → All (KeepsCatalog after) (schema_changes d t old new old_auto new_auto)
  unfolding schema_changes
  schema_changes-catalog after d t old none old_auto new_auto = (refl, tt)
  schema_changes-catalog after d t old (some schema) old_auto new_auto =
      elim (Bool-cases ((old == some schema) && (old_auto == new_auto))) [
        | inl same ↦ rw same tt
        | inr new ↦ rw new (refl, tt)
      ]

  pub database_tables-catalog :
      (before after : EngineState Value Schema Auto StoredRow)
      (p : Text × Snapshot Schema Auto StoredRow)
      → All (KeepsCatalog after) (database_tables before p)
  unfolding database_tables table_changes
  database_tables-catalog before after (db, cur) =
      let previous = lookup db before.databases in
      All-flat_map (λ (x : Text). Unit {0}) (KeepsCatalog after) (table_changes db previous cur)
        (table_names previous cur)
        (All-every (λ (x : Text). Unit {0}) (table_names previous cur) (λ x. tt))
        (λ x _. schema_changes-catalog after db x _ _ _ _)

  pub dropped_databases-catalog :
      (after : EngineState Value Schema Auto StoredRow) (p : Text × Snapshot Schema Auto StoredRow)
      → All (KeepsCatalog after) (dropped_databases after p)
  unfolding dropped_databases
  dropped_databases-catalog after (db, previous) =
      elim (Bool-cases (is_some (lookup db after.databases))) [
        | inl kept ↦ rw kept tt
        | inr gone ↦ rw gone (
          refl,
          All-map (KeepsCatalog after) (λ x. delete_table db x) (keys previous.schemas)
              (All-every _ (keys previous.schemas) (λ x. refl)),
        )
      ]

  pub catalog_change-catalog :
      (before after : EngineState Value Schema Auto StoredRow)
      → All (KeepsCatalog after) (catalog_change before after)
        × ((any writes_catalog (catalog_change before after) ≡ true)
            ⊎ (storage_catalog before ≡ storage_catalog after))
  unfolding catalog_change
  catalog_change-catalog before after =
      elim (Bool-cases (storage_catalog before == storage_catalog after)) [
        | inl same ↦ (
          rw same tt,
          inr ((catalog_beq_iff (storage_catalog before) (storage_catalog after)).0 same),
        )
        | inr new ↦ (rw new (refl, tt), inl (rw new refl))
      ]
