-- ===== src/Storage/Mutations.antt =====
-- The metadata mutations of a batch agree with the new engine state, and touch each table that differs
-- (src/storage/delta.rs).
use my_sqweel.Prelude.{
  Text, List, [], ◌∷◌, ◌++◌, Option, none, some, true, ◌&&◌, ◌||◌, ◌≡◌, refl, sym, arith, ◌⊎◌, inl,
  inr, All, All-append, All-flat_map, All-every, any, any-append, any-flat_map-contains,
  any-flat_map-lookup, All-lookup, lookup, contains, flat_map, ◌==◌, Eq, nat_eq, list_eq, option_eq,
  pair_eq, list_beq_iff, option_beq_iff, Option-cases, Bool-cases,
}
use my_sqweel.Storage.Contract.{
  metadata_eq, catalog_eq, MetadataMutation, put_catalog, delete_database, put_table, delete_table,
}
use my_sqweel.Storage.Delta.{
  Snapshot, EngineState, get_in, storage_catalog, dropped_databases, table_names, schema_changes,
  table_changes, catalog_change, database_tables,
}
use my_sqweel.Storage.Folds.{touches_table, deletes_table, written_catalog, deletes-touches}
use my_sqweel.Storage.Images.{table_of, IsConsistent, contains-table_names}
use my_sqweel.Storage.DeltaLaws.{SoundTable, database_tables_sound, dropped_databases_sound}
use my_sqweel.Storage.CatalogLaws.{
  KeepsCatalog, database_tables-catalog, dropped_databases-catalog, catalog_change-catalog,
}

module _ (Value : Type 0) {Schema Auto : Type 0} ⦃es : Eq Schema⦄ ⦃ea : Eq Auto⦄ where
  schema_changes_complete :
      (d t : Text) (old new : Option Schema) (old_auto new_auto : Option Auto)
      → (any (touches_table d t) (schema_changes {Value = Value} d t old new old_auto new_auto)
          ≡ true)
        ⊎ ((old ≡ new) × (old_auto ≡ new_auto))
  unfolding schema_changes
  schema_changes_complete d t old none old_auto new_auto =
      inl (ground (arith, list_beq_iff d d, list_beq_iff t t))
  schema_changes_complete d t old (some schema) old_auto new_auto =
      elim (Bool-cases ((old == some schema) && (old_auto == new_auto))) [
        | inl same ↦ inr (
          ground (arith, option_beq_iff old (some schema), same),
          ground (arith, option_beq_iff old_auto new_auto, same),
        )
        | inr new ↦ inl (rw new (ground (arith, list_beq_iff d d, list_beq_iff t t)))
      ]

module _ {Value Schema Auto StoredRow : Type 0} ⦃ev : Eq Value⦄ ⦃es : Eq Schema⦄ ⦃ea : Eq Auto⦄
    ⦃er : Eq StoredRow⦄ where
  -- Equal schemas and counters are equal stored tables.
  table_of-same :
      (before after : EngineState Value Schema Auto StoredRow)
      (cur : Snapshot Schema Auto StoredRow) (d t : Text)
      → lookup d after.databases ≡ some cur
      → get_in (lookup d before.databases) (λ s. lookup t s.schemas) ≡ lookup t cur.schemas
      → (get_in (lookup d before.databases) (λ s. lookup t s.auto_inc) ≡ lookup t cur.auto_inc)
        ⊎ (lookup t cur.schemas ≡ none)
      → table_of before d t ≡ table_of after d t
  unfolding get_in
  table_of-same before after cur d t here schemas autos =
      elim (Option-cases (lookup d before.databases)) [
        | inl never ↦ ground (arith, never, here, schemas, autos)
        | inr (s, was) ↦
            ground (arith, was, here, schemas, autos, Option-cases (lookup t cur.schemas))
      ]

  database_tables_complete :
      (before after : EngineState Value Schema Auto StoredRow)
      (cur : Snapshot Schema Auto StoredRow) (d t : Text)
      → lookup d after.databases ≡ some cur
      → (any (touches_table d t) (flat_map (database_tables before) after.databases) ≡ true)
        ⊎ (table_of before d t ≡ table_of after d t)
  database_tables_complete before after cur d t here =
      let previous = lookup d before.databases in
      let old = get_in previous (λ s. lookup t s.schemas) in
      let old_auto = get_in previous (λ s. lookup t s.auto_inc) in
      elim (Bool-cases (contains (table_names previous cur) t)) [
        | inl visited ↦
            elim (schema_changes_complete Value d t old (lookup t cur.schemas) old_auto
              (lookup t cur.auto_inc)) [
                | inl hit ↦ inl (
                    any-flat_map-lookup (touches_table d t) (database_tables before) after.databases
                      d cur here
                      (unfold database_tables table_changes in
                        any-flat_map-contains (touches_table d t) (table_changes d previous cur)
                          (table_names previous cur) t visited hit))
                | inr same ↦ inr (table_of-same before after cur d t here same.0 (inl same.1))
              ]
        | inr skipped ↦ inr (
            table_of-same before after cur d t here
              (ground (
                arith,
                contains-table_names previous cur t,
                skipped,
                Option-cases old,
                Option-cases (lookup t cur.schemas),
              ))
              (inr (
                ground (
                  arith,
                  contains-table_names previous cur t,
                  skipped,
                  Option-cases (lookup t cur.schemas),
                ))))
      ]

  pub dropped_databases_complete :
      (before after : EngineState Value Schema Auto StoredRow) (d t : Text)
      → lookup d after.databases ≡ none
      → (any (deletes_table d t) (flat_map (dropped_databases after) before.databases) ≡ true)
        ⊎ (lookup d before.databases ≡ none)
  dropped_databases_complete before after d t gone =
      elim (Option-cases (lookup d before.databases)) [
        | inl never ↦ inr never
        | inr (s, was) ↦ inl (
            any-flat_map-lookup (deletes_table d t) (dropped_databases after) before.databases d s
              was (unfold dropped_databases in ground (arith, gone, list_beq_iff d d)))
      ]

  abbrev pub mutations :
      EngineState Value Schema Auto StoredRow
      → EngineState Value Schema Auto StoredRow
      → List (MetadataMutation Value Schema Auto)
  mutations before after =
      catalog_change before after
      ++ (flat_map (dropped_databases after) before.databases
          ++ flat_map (database_tables before) after.databases)

  catalog_change_sound :
      (before after : EngineState Value Schema Auto StoredRow) (d t : Text)
      → All (SoundTable after d t) (catalog_change before after)
  unfolding catalog_change
  catalog_change_sound before after d t =
      elim (Bool-cases (storage_catalog before == storage_catalog after)) [
        | inl same ↦ rw same tt
        | inr new ↦ rw new (λ touched. cc, tt)
      ]

  pub mutations_sound :
      (before after : EngineState Value Schema Auto StoredRow) (d t : Text)
      → IsConsistent after
      → All (SoundTable after d t) (mutations before after)
  mutations_sound before after d t valid =
      All-append (SoundTable after d t) (catalog_change before after)
        (flat_map (dropped_databases after) before.databases
          ++ flat_map (database_tables before) after.databases)
        (catalog_change_sound before after d t)
        (All-append (SoundTable after d t) (flat_map (dropped_databases after) before.databases)
          (flat_map (database_tables before) after.databases)
          (All-flat_map (λ (p : Text × Snapshot Schema Auto StoredRow). Unit {0})
            (SoundTable after d t) (dropped_databases after) before.databases
            (All-every (λ (p : Text × Snapshot Schema Auto StoredRow). Unit {0}) before.databases
              (λ p. tt))
            (λ p _. dropped_databases_sound after p d t))
          (All-flat_map
            (λ (p : Text × Snapshot Schema Auto StoredRow). lookup p.0 after.databases ≡ some p.1)
            (SoundTable after d t) (database_tables before) after.databases
            (All-lookup after.databases valid.databases)
            (λ p here. database_tables_sound before after p d t here)))

  pub mutations-catalog :
      (before after : EngineState Value Schema Auto StoredRow)
      → All
          (λ m. written_catalog (storage_catalog after) m ≡ storage_catalog after)
          (mutations before after)
  mutations-catalog before after =
      All-append (KeepsCatalog after) (catalog_change before after)
        (flat_map (dropped_databases after) before.databases
          ++ flat_map (database_tables before) after.databases)
        (catalog_change-catalog before after).0
        (All-append (KeepsCatalog after) (flat_map (dropped_databases after) before.databases)
          (flat_map (database_tables before) after.databases)
          (All-flat_map (λ (p : Text × Snapshot Schema Auto StoredRow). Unit {0})
            (KeepsCatalog after) (dropped_databases after) before.databases
            (All-every (λ (p : Text × Snapshot Schema Auto StoredRow). Unit {0}) before.databases
              (λ p. tt))
            (λ p _. dropped_databases-catalog after p))
          (All-flat_map (λ (p : Text × Snapshot Schema Auto StoredRow). Unit {0})
            (KeepsCatalog after) (database_tables before) after.databases
            (All-every (λ (p : Text × Snapshot Schema Auto StoredRow). Unit {0}) after.databases
              (λ p. tt))
            (λ p _. database_tables-catalog before after p)))

  -- A deletion of the table is among the mutations that touch it.
  pub deletes_sound :
      (after : EngineState Value Schema Auto StoredRow) (d t : Text)
      (ms : List (MetadataMutation Value Schema Auto))
      → All (SoundTable after d t) ms
      → any (deletes_table d t) ms ≡ true
      → table_of after d t ≡ none
  deletes_sound after d t [] h hit = cc
  deletes_sound after d t (put_catalog c ∷ ms) (hm, h) hit = deletes_sound after d t ms h hit
  deletes_sound after d t (put_table db tb st ∷ ms) (hm, h) hit = deletes_sound after d t ms h hit
  deletes_sound after d t (delete_database db ∷ ms) (hm, h) hit = elim (Bool-cases (db == d)) [
    | inl this ↦ sym (hm this)
    | inr other ↦ deletes_sound after d t ms h (ground (arith, other, hit))
  ]
  deletes_sound after d t (delete_table db tb ∷ ms) (hm, h) hit =
      elim (Bool-cases ((db == d) && (tb == t))) [
        | inl this ↦ sym (hm this)
        | inr other ↦ deletes_sound after d t ms h (ground (arith, other, hit))
      ]

  pub mutations_complete :
      (before after : EngineState Value Schema Auto StoredRow) (d t : Text)
      → (any (touches_table d t) (mutations before after) ≡ true)
        ⊎ (table_of before d t ≡ table_of after d t)
  mutations_complete before after d t =
      let cat = catalog_change before after in
      let dropped = flat_map (dropped_databases after) before.databases in
      let changed = flat_map (database_tables before) after.databases in
      let split : any (touches_table d t) (mutations before after) ≡ (
          any (touches_table d t) cat
          || (any (touches_table d t) dropped || any (touches_table d t) changed)) =
        rw
          (
            any-append (touches_table d t) cat (dropped ++ changed),
            any-append (touches_table d t) dropped changed,
          )
          refl in
      elim (Option-cases (lookup d after.databases)) [
        | inl gone ↦ elim (dropped_databases_complete before after d t gone) [
          | inl hit ↦ inl (ground (arith, split, deletes-touches d t dropped hit))
          | inr never ↦ inr (unfold get_in in ground (arith, gone, never))
        ]
        | inr (cur, here) ↦ elim (database_tables_complete before after cur d t here) [
          | inl hit ↦ inl (ground (arith, split, hit))
          | inr same ↦ inr same
        ]
      ]
