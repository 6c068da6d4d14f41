-- ===== src/Storage/Refinement.antt =====
-- Committing the difference of two engine states turns the stored image of the first into the image of the
-- second (src/storage/delta.rs).
use my_sqweel.Prelude.{
  Text, ◌++◌, Option, none, some, true, ◌≡◌, refl, ◌∙◌, ap, arith, inl, inr, All, All-flat_map, any,
  any-append, All-lookup, lookup, fold, flat_map, if◌then◌else◌, Eq, nat_eq, list_eq, option_eq,
  pair_eq, Option-cases, Bool-cases,
}
use my_sqweel.Storage.Contract.{
  metadata_eq, catalog_eq, Contents, apply_metadata, apply_row, commit_batch,
}
use my_sqweel.Storage.Delta.{
  Snapshot, EngineState, get_in, storage_catalog, dropped_databases, catalog_change,
  database_tables, database_rows, storage_batch,
}
use my_sqweel.Storage.Folds.{
  touches_row, written_row, deletes_table, writes_catalog, fold-apply_row, fold-apply_row-metadata,
  fold-apply_metadata-tables, fold-apply_metadata-rows, fold-apply_metadata-catalog,
  commit_batch-fold,
}
use my_sqweel.Storage.Images.{table_of, row_of, IsConsistent, Holds}
use my_sqweel.Storage.DeltaLaws.{database_rows_sound, database_rows_complete}
use my_sqweel.Storage.CatalogLaws.{catalog_change-catalog}
use my_sqweel.Storage.Mutations.{
  dropped_databases_complete, mutations, mutations_sound, mutations-catalog, mutations_complete,
  deletes_sound,
}

module _ {Value Schema Auto StoredRow : Type 0} ⦃ev : Eq Value⦄ ⦃es : Eq Schema⦄ ⦃ea : Eq Auto⦄
    ⦃er : Eq StoredRow⦄ where
  catalog_kept :
      (before after : EngineState Value Schema Auto StoredRow)
      (c : Contents Value Schema Auto StoredRow)
      → c.catalog ≡ some (storage_catalog before)
      → (if any writes_catalog (mutations before after)
          then some (storage_catalog after)
          else c.catalog)
        ≡ some (storage_catalog after)
  catalog_kept before after c h =
      let rest =
        flat_map (dropped_databases after) before.databases
        ++ flat_map (database_tables before) after.databases in
      elim (catalog_change-catalog before after).1 [
        | inl new ↦
            ground (arith, any-append writes_catalog (catalog_change before after) rest, new)
        | inr same ↦ elim (Bool-cases (any writes_catalog (mutations before after))) [
          | inl wrote ↦ rw wrote refl
          | inr kept ↦ rw kept (h ∙ ap some same)
        ]
      ]

  rows_sound :
      (before after : EngineState Value Schema Auto StoredRow) (d t k : Text)
      → IsConsistent after
      → All
          (λ m. touches_row d t k m ≡ true → written_row m ≡ row_of after d t k)
          (flat_map (database_rows before) after.databases)
  rows_sound before after d t k valid =
      All-flat_map
        (λ (p : Text × Snapshot Schema Auto StoredRow). lookup p.0 after.databases ≡ some p.1)
        (λ m. touches_row d t k m ≡ true → written_row m ≡ row_of after d t k)
        (database_rows before) after.databases (All-lookup after.databases valid.databases)
        (λ p here. database_rows_sound before after p d t k valid here)

  -- A table that is not stored has no rows.
  row_of-none :
      (state : EngineState Value Schema Auto StoredRow) (d t k : Text)
      → IsConsistent state
      → table_of state d t ≡ none
      → row_of state d t k ≡ none
  unfolding get_in
  row_of-none state d t k valid gone = elim (Option-cases (lookup d state.databases)) [
    | inl no_database ↦ rw no_database refl
    | inr (s, here) ↦ elim (Option-cases (lookup t s.rows)) [
      | inl no_rows ↦ rw (here, no_rows) refl
      | inr (rs, there) ↦ ground (arith, valid.rows d s here t rs there, here, gone)
    ]
  ]

  rows_kept :
      (before after : EngineState Value Schema Auto StoredRow) (d t k : Text)
      → IsConsistent after
      → (old : Option StoredRow) → old ≡ row_of before d t k
      → (if any (touches_row d t k) (flat_map (database_rows before) after.databases)
          then row_of after d t k
          else (if any (deletes_table d t) (mutations before after) then none else old))
        ≡ row_of after d t k
  rows_kept before after d t k valid old was =
      let ms = mutations before after in
      let lost = λ (hit : any (deletes_table d t) ms ≡ true).
        row_of-none after d t k valid
          (deletes_sound after d t ms (mutations_sound before after d t valid) hit) in
      elim (Bool-cases (any (deletes_table d t) ms)) [
        | inl hit ↦ ground (arith, hit, lost hit)
        | inr kept ↦ elim (Option-cases (lookup d after.databases)) [
          | inr (cur, here) ↦
              ground (arith, kept, was, database_rows_complete before after cur d t k here)
          | inl gone ↦ elim (dropped_databases_complete before after d t gone) [
            | inl hit ↦
                let dropped = flat_map (dropped_databases after) before.databases in
                let changed = flat_map (database_tables before) after.databases in
                ground (
                  arith,
                  kept,
                  hit,
                  any-append (deletes_table d t) (catalog_change before after) (dropped ++ changed),
                  any-append (deletes_table d t) dropped changed,
                )
            | inr never ↦ unfold get_in in ground (arith, kept, was, never, gone)
          ]
        ]
      ]

  -- If a backend holds exactly one engine state, and the next one has each key once in its maps and rows
  -- only for tables with a schema, then the backend holds exactly the next state after it commits the
  -- difference of the two: the catalog, every table's schema, the number that `auto_inc` has under the bare
  -- name of the table, and every row. It says nothing of other entries of `auto_inc`; the engine's own
  -- counters, which stand under a table and a column, are such entries.
  pub commit_batch-storage_batch :
      (before after : EngineState Value Schema Auto StoredRow)
      (c : Contents Value Schema Auto StoredRow)
      → IsConsistent after
      → Holds before c
      → Holds after (commit_batch c (storage_batch before after))
  commit_batch-storage_batch before after c valid h =
      let ms = mutations before after in
      let rs = flat_map (database_rows before) after.databases in
      let r = fold-apply_row-metadata rs (fold apply_metadata c ms) in
      let run : commit_batch c (storage_batch before after)
          ≡ fold apply_row (fold apply_metadata c ms) rs =
        unfold storage_batch in commit_batch-fold c ms rs in
      rw run (record {
        catalog =
            r.0
            ∙ fold-apply_metadata-catalog (storage_catalog after) ms c
                (mutations-catalog before after)
            ∙ catalog_kept before after c h.catalog;
        tables = λ d t.
            ap (λ tables. tables d t) r.1
            ∙ fold-apply_metadata-tables d t (table_of after d t) ms c
                (mutations_sound before after d t valid)
            ∙ ground (arith, mutations_complete before after d t, h.tables d t);
        rows = λ d t k.
            fold-apply_row d t k (row_of after d t k) rs (fold apply_metadata c ms)
              (rows_sound before after d t k valid)
            ∙ rw (fold-apply_metadata-rows d t k ms c)
                (rows_kept before after d t k valid (c.rows d t k) (h.rows d t k));
      })
