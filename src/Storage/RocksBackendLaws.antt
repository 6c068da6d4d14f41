-- ===== src/Storage/RocksBackendLaws.antt =====
-- Which stored rows a commit to RocksDB can change (src/storage/async_store.rs).
use my_sqweel.Prelude.{
  Text, [], ◌∷◌, ◌++◌, Option, none, some, Bool, true, false, ◌&&◌, ◌≡◌, ◌≢◌, refl, arith, All,
  All-append, All-flat_map, All-every, flat_map, lookup, text, is_plain, starts_with,
  starts_with-append, list_beq_iff, ◌==◌, nat_eq, list_eq, Bool-cases, inl, inr,
}
use my_sqweel.Storage.Contract.{
  RowMutation, put, delete, MetadataMutation, put_catalog, delete_database, put_table, delete_table,
  StorageBatch, batch_is_empty,
}
use my_sqweel.Storage.Delta.{keys}
use my_sqweel.Storage.Folds.{deletes_table}
use my_sqweel.Storage.Rocks.{KeyValue, StorageWrite, field_key, hgetall}
use my_sqweel.Storage.RocksLaws.{write_key, write_batch-other}
use my_sqweel.Storage.RocksBackend.{
  Json, catalog_key, tables_key, rows_prefix, rows_key, table_deletes, deletes_of, row_writes,
  metadata_writes, rocks_writes, rocks_commit,
}

abbrev pub names_table : {StoredRow : Type 0} → Text → Text → RowMutation StoredRow → Bool
names_table d t (put database table key row) = (database == d) && (table == t)
names_table d t (delete database table key) = (database == d) && (table == t)

is_plain-append : (s t : Text) → is_plain s ≡ true → is_plain t ≡ true → is_plain (s ++ t) ≡ true
is_plain-append [] t hs ht = ht
is_plain-append (c ∷ s) t hs ht = ground (arith, is_plain-append s t, hs, ht)

++-eq : (s a b : Text) → s ++ a ≡ s ++ b → a ≡ b
++-eq [] a b h = h
++-eq (c ∷ s) a b h = ++-eq s a b (cc h)

module _ {Value Schema Auto StoredRow : Type 0} (json : Json Value Schema Auto StoredRow) where
  rows_key_eq : (d t d' t' : Text) → rows_key json d t ≡ rows_key json d' t' → (d ≡ d') × (t ≡ t')
  unfolding rows_key
  rows_key_eq d t d' t' h =
      let same = ++-eq rows_prefix (json.encode_table_key d t) (json.encode_table_key d' t') h in
      ground (arith, json.decode-encode d t, json.decode-encode d' t', same)

  rows_key-is_plain : (d t : Text) → is_plain (rows_key json d t) ≡ true
  unfolding rows_key rows_prefix
  rows_key-is_plain d t =
      is_plain-append (text "sqweel:async:v2:rows:") (json.encode_table_key d t) refl
        (json.encode-is_plain d t)

  starts_with-rows_key : (d t : Text) → starts_with rows_prefix (rows_key json d t) ≡ true
  unfolding rows_key
  starts_with-rows_key d t = starts_with-append rows_prefix (json.encode_table_key d t)

  tables_key_other : (d t : Text) → tables_key ≢ rows_key json d t
  tables_key_other d t same =
      let no : starts_with rows_prefix tables_key ≡ false =
        unfold starts_with rows_prefix tables_key in refl in
      ground (arith, no, starts_with-rows_key d t, same)

  catalog_key_other : (d t : Text) → catalog_key ≢ rows_key json d t
  catalog_key_other d t same =
      let no : starts_with rows_prefix catalog_key ≡ false =
        unfold starts_with rows_prefix catalog_key in refl in
      ground (arith, no, starts_with-rows_key d t, same)

  -- A write that leaves the rows of a table.
  abbrev Leaves : Text → Text → StorageWrite → Type 0
  Leaves d t w = (is_plain (write_key w) ≡ true) × (write_key w ≢ rows_key json d t)

  row_writes-Leaves :
      (d t : Text) (m : RowMutation StoredRow)
      → names_table d t m ≡ false
      → All (Leaves d t) (row_writes json m)
  unfolding row_writes
  row_writes-Leaves d t (put db tb key row) h = (
    (
      rows_key-is_plain db tb,
      λ same. ground (arith, rows_key_eq db tb d t same, list_beq_iff db d, list_beq_iff tb t, h),
    ),
    tt,
  )
  row_writes-Leaves d t (delete db tb key) h = (
    (
      rows_key-is_plain db tb,
      λ same. ground (arith, rows_key_eq db tb d t same, list_beq_iff db d, list_beq_iff tb t, h),
    ),
    tt,
  )

  tables_key-Leaves : (d t : Text) → (is_plain tables_key ≡ true) × (tables_key ≢ rows_key json d t)
  tables_key-Leaves d t = (unfold tables_key in refl, tables_key_other d t)

  deletes_of-Leaves :
      (d t database field : Text) (found : Option (Text × Text))
      → (database == d) ≡ false
      → All (Leaves d t) (deletes_of json database field found)
  unfolding deletes_of
  deletes_of-Leaves d t database field none other = tt
  deletes_of-Leaves d t database field (some (candidate, table)) other =
      elim (Bool-cases (candidate == database)) [
        | inr foreign ↦ rw foreign tt
        | inl own ↦ rw own (
          tables_key-Leaves d t,
          (
            (
              rows_key-is_plain database table,
              λ same.
                  ground
                    (arith, rows_key_eq database table d t same, list_beq_iff database d, other),
            ),
            tt,
          ),
        )
      ]

  metadata_writes-Leaves :
      {Db : Type 0} (store : KeyValue Db) (db : Db) (d t : Text)
      (m : MetadataMutation Value Schema Auto)
      → deletes_table d t m ≡ false
      → All (Leaves d t) (metadata_writes json store db m)
  unfolding metadata_writes
  metadata_writes-Leaves store db d t (put_catalog catalog) h =
      ((unfold catalog_key in refl, catalog_key_other d t), tt)
  metadata_writes-Leaves store db d t (put_table database table state) h =
      (tables_key-Leaves d t, tt)
  metadata_writes-Leaves store db d t (delete_database database) h =
      All-flat_map (λ (x : Text). Unit {0}) (Leaves d t) (table_deletes json database)
        (keys (hgetall store db tables_key))
        (All-every (λ (x : Text). Unit {0}) (keys (hgetall store db tables_key)) (λ x. tt))
        (λ field _.
          unfold table_deletes in
          deletes_of-Leaves d t database field (json.decode_table_key field) h)
  metadata_writes-Leaves store db d t (delete_table database table) h = (
    tables_key-Leaves d t,
    (
      (
        rows_key-is_plain database table,
        λ same. ground (
          arith,
          rows_key_eq database table d t same,
          list_beq_iff database d,
          list_beq_iff table t,
          h,
        ),
      ),
      tt,
    ),
  )

  -- A commit leaves every stored row of a table that its batch does not name: no row mutation is on the
  -- table, and neither the table nor its database is deleted.
  pub rocks_commit-other :
      {Db : Type 0} (store : KeyValue Db) (db : Db)
      (batch : StorageBatch Value Schema Auto StoredRow) (d t row : Text)
      → All (λ m. deletes_table d t m ≡ false) batch.metadata
      → All (λ m. names_table d t m ≡ false) batch.rows
      → lookup
          (field_key (rows_key json d t) row)
          (store.entries (rocks_commit json store db batch))
        ≡ lookup (field_key (rows_key json d t) row) (store.entries db)
  unfolding rocks_commit
  rocks_commit-other store db batch d t row kept unnamed =
      let writes : All (Leaves d t) (rocks_writes json store db batch) =
        unfold rocks_writes in
        All-append (Leaves d t) (flat_map (metadata_writes json store db) batch.metadata)
          (flat_map (row_writes json) batch.rows)
          (All-flat_map (λ m. deletes_table d t m ≡ false) (Leaves d t)
            (metadata_writes json store db) batch.metadata kept
            (metadata_writes-Leaves store db d t))
          (All-flat_map (λ m. names_table d t m ≡ false) (Leaves d t) (row_writes json) batch.rows
            unnamed (row_writes-Leaves d t)) in
      elim (Bool-cases (batch_is_empty batch)) [
        | inl nothing ↦ rw nothing refl
        | inr some_changes ↦ rw some_changes (
            write_batch-other store db (rocks_writes json store db batch) (rows_key json d t) row
              (rows_key-is_plain d t) writes)
      ]
