-- ===== src/Storage/DeltaLaws.antt =====
-- The mutations of a whole batch agree with the new engine state, and touch each row that differs
-- (src/storage/delta.rs).
use my_sqweel.Prelude.{
  Text, Option, some, true, ◌&&◌, ◌≡◌, refl, arith, ◌⊎◌, inl, inr, All, All-flat_map, All-map,
  All-every, All-weaken, any, any-flat_map-contains, any-flat_map-lookup, lookup, contains,
  flat_map, ◌==◌, Eq, nat_eq, list_eq, option_eq, pair_eq, list_beq_iff, Option-cases, Bool-cases,
}
use my_sqweel.Storage.Contract.{metadata_eq, catalog_eq, MetadataMutation, delete_table}
use my_sqweel.Storage.Delta.{
  Snapshot, EngineState, keys, get_in, dropped_databases, table_names, schema_changes,
  table_changes, row_changes, database_tables, database_rows,
}
use my_sqweel.Storage.Folds.{touches_row, written_row, touches_table, written_table}
use my_sqweel.Storage.Images.{table_of, row_of, IsConsistent, contains-table_names}
use my_sqweel.Storage.RowLaws.{SoundRow, row_in, block_rows_sound, block_rows_complete}

module _ {Value Schema Auto StoredRow : Type 0} ⦃ev : Eq Value⦄ ⦃es : Eq Schema⦄ ⦃ea : Eq Auto⦄
    ⦃er : Eq StoredRow⦄ where
  pub row_of-row_in :
      (state : EngineState Value Schema Auto StoredRow) (d t k : Text)
      → row_of state d t k ≡ row_in k (get_in (lookup d state.databases) (λ s. lookup t s.rows))
  unfolding get_in
  row_of-row_in state d t k = elim (Option-cases (lookup d state.databases)) [
    | inl gone ↦ rw gone refl
    | inr (s, here) ↦ rw here refl
  ]

  pub database_rows_sound :
      (before after : EngineState Value Schema Auto StoredRow)
      (p : Text × Snapshot Schema Auto StoredRow) (d t k : Text)
      → IsConsistent after
      → lookup p.0 after.databases ≡ some p.1
      → All
          (λ m. touches_row d t k m ≡ true → written_row m ≡ row_of after d t k)
          (database_rows before p)
  unfolding database_rows row_changes
  database_rows_sound before after (db, cur) d t k valid here =
      let previous = lookup db before.databases in
      All-flat_map (λ (x : Text). Unit {0})
        (λ m. touches_row d t k m ≡ true → written_row m ≡ row_of after d t k)
        (row_changes db previous cur) (table_names previous cur)
        (All-every (λ (x : Text). Unit {0}) (table_names previous cur) (λ x. tt))
        (λ x _.
          All-weaken (SoundRow db x d t k (row_in k (lookup x cur.rows)))
            (λ m. touches_row d t k m ≡ true → written_row m ≡ row_of after d t k)
            (row_changes db previous cur x)
            (block_rows_sound db x (get_in previous (λ s. lookup x s.rows)) (lookup x cur.rows) d t
              k (λ m at_x. (valid.rows db cur here x m at_x).0))
            (λ m sound touched. unfold get_in in ground (arith, sound touched, here)))

  pub database_rows_complete :
      (before after : EngineState Value Schema Auto StoredRow)
      (cur : Snapshot Schema Auto StoredRow) (d t k : Text)
      → lookup d after.databases ≡ some cur
      → (any (touches_row d t k) (flat_map (database_rows before) after.databases) ≡ true)
        ⊎ (row_of before d t k ≡ row_of after d t k)
  database_rows_complete before after cur d t k here =
      let previous = lookup d before.databases in
      let old = get_in previous (λ s. lookup t s.rows) in
      elim (Bool-cases (contains (table_names previous cur) t)) [
        | inl visited ↦ elim (block_rows_complete d t old (lookup t cur.rows) k) [
          | inl hit ↦ inl (
              any-flat_map-lookup (touches_row d t k) (database_rows before) after.databases d cur
                here
                (unfold database_rows row_changes in
                  any-flat_map-contains (touches_row d t k) (row_changes d previous cur)
                    (table_names previous cur) t visited hit))
          | inr same ↦ inr (unfold get_in in ground (arith, row_of-row_in before d t k, same, here))
        ]
        | inr skipped ↦ inr (
            unfold get_in in
            ground (
              arith,
              row_of-row_in before d t k,
              here,
              contains-table_names previous cur t,
              skipped,
              Option-cases (lookup t cur.rows),
              Option-cases old,
            ))
      ]

  -- The table of a mutation, and what it writes there.
  abbrev pub SoundTable :
      EngineState Value Schema Auto StoredRow
      → Text
      → Text
      → MetadataMutation Value Schema Auto
      → Type 0
  SoundTable after d t m = touches_table d t m ≡ true → written_table m ≡ table_of after d t

  pub schema_changes_sound :
      (after : EngineState Value Schema Auto StoredRow) (cur : Snapshot Schema Auto StoredRow)
      (db x d t : Text) (old : Option Schema) (old_auto : Option Auto)
      → lookup db after.databases ≡ some cur
      → All
          (SoundTable after d t)
          (schema_changes db x old (lookup x cur.schemas) old_auto (lookup x cur.auto_inc))
  schema_changes_sound after cur db x d t old old_auto here =
      elim (Option-cases (lookup x cur.schemas)) [
        | inl gone ↦ rw gone (
            unfold schema_changes get_in in
            (λ touched. ground (arith, list_beq_iff db d, list_beq_iff x t, here, gone), tt))
        | inr (schema, there) ↦ rw there (
            unfold schema_changes get_in in
            elim (Bool-cases ((old == some schema) && (old_auto == lookup x cur.auto_inc))) [
              | inl same ↦ rw same tt
              | inr new ↦
                  rw new (
                    λ touched. ground (arith, list_beq_iff db d, list_beq_iff x t, here, there),
                    tt,
                  )
            ])
      ]

  pub database_tables_sound :
      (before after : EngineState Value Schema Auto StoredRow)
      (p : Text × Snapshot Schema Auto StoredRow) (d t : Text)
      → lookup p.0 after.databases ≡ some p.1
      → All (SoundTable after d t) (database_tables before p)
  unfolding database_tables table_changes
  database_tables_sound before after (db, cur) d t here =
      let previous = lookup db before.databases in
      All-flat_map (λ (x : Text). Unit {0}) (SoundTable after d t) (table_changes db previous cur)
        (table_names previous cur)
        (All-every (λ (x : Text). Unit {0}) (table_names previous cur) (λ x. tt))
        (λ x _.
          schema_changes_sound after cur db x d t (get_in previous (λ s. lookup x s.schemas))
            (get_in previous (λ s. lookup x s.auto_inc)) here)

  pub dropped_databases_sound :
      (after : EngineState Value Schema Auto StoredRow) (p : Text × Snapshot Schema Auto StoredRow)
      (d t : Text)
      → All (SoundTable after d t) (dropped_databases after p)
  unfolding dropped_databases
  dropped_databases_sound after (db, previous) d t =
      elim (Option-cases (lookup db after.databases)) [
        | inr (s, kept) ↦ rw kept tt
        | inl gone ↦ rw gone (
            unfold get_in in
            (
              λ touched. ground (arith, list_beq_iff db d, gone),
              All-map (SoundTable after d t) (λ x. delete_table db x) (keys previous.schemas)
                  (All-every _ (keys previous.schemas)
                    (λ x touched. ground (arith, list_beq_iff db d, gone))),
            ))
      ]
