-- ===== src/Storage/RocksBackend.antt =====
-- `RocksDbStorage` of src/storage/async_store.rs: how a commit becomes writes of `RocksDbStore`. The JSON of
-- serde is an interface; encoding does not fail for the types at hand.
use my_sqweel.Prelude.{
  Text, List, [], ◌∷◌, ◌++◌, Option, none, some, flat_map, text, is_plain, ◌≡◌, true, ◌==◌, nat_eq,
  list_eq, if◌then◌else◌,
}
use my_sqweel.Storage.Contract.{
  StorageCatalog, TableState, RowMutation, put, delete, MetadataMutation, put_catalog,
  delete_database, put_table, delete_table, StorageBatch, batch_is_empty,
}
use my_sqweel.Storage.Delta.{keys}
use my_sqweel.Storage.Rocks.{KeyValue, StorageWrite, h_set, h_del, del, hgetall, write_batch}

-- JSON text has no zero byte, and a pair of names is read back as it was.
pub record Json (Value Schema Auto StoredRow : Type 0) : Type 0 where
  pub catalog_text : StorageCatalog Value → Text
  pub state_text : TableState Schema Auto → Text
  pub row_text : StoredRow → Text
  pub encode_table_key : Text → Text → Text
  pub decode_table_key : Text → Option (Text × Text)
  pub decode-encode : (d t : Text) → decode_table_key (encode_table_key d t) ≡ some (d, t)
  pub encode-is_plain : (d t : Text) → is_plain (encode_table_key d t) ≡ true

unfoldable pub catalog_key : Text
catalog_key = text "sqweel:async:v2:catalog"

unfoldable pub tables_key : Text
tables_key = text "sqweel:async:v2:tables"

unfoldable pub rows_prefix : Text
rows_prefix = text "sqweel:async:v2:rows:"

module _ {Value Schema Auto StoredRow : Type 0} (json : Json Value Schema Auto StoredRow) where
  unfoldable pub rows_key : Text → Text → Text
  rows_key database table = rows_prefix ++ json.encode_table_key database table

  unfoldable pub deletes_of : Text → Text → Option (Text × Text) → List StorageWrite
  deletes_of database field none = []
  deletes_of database field (some (candidate, table)) =
      if candidate == database
      then h_del tables_key field ∷ del (rows_key database table) ∷ []
      else []

  unfoldable pub table_deletes : Text → Text → List StorageWrite
  table_deletes database field = deletes_of database field (json.decode_table_key field)

  unfoldable pub row_writes : RowMutation StoredRow → List StorageWrite
  row_writes (put database table key row) =
      h_set (rows_key database table) key (json.row_text row) ∷ []
  row_writes (delete database table key) = h_del (rows_key database table) key ∷ []

  module _ {Db : Type 0} (store : KeyValue Db) where
    unfoldable pub metadata_writes : Db → MetadataMutation Value Schema Auto → List StorageWrite
    metadata_writes db (put_catalog catalog) =
        h_set catalog_key (text "catalog") (json.catalog_text catalog) ∷ []
    metadata_writes db (delete_database database) =
        flat_map (table_deletes database) (keys (hgetall store db tables_key))
    metadata_writes db (put_table database table state) =
        h_set tables_key (json.encode_table_key database table) (json.state_text state) ∷ []
    metadata_writes db (delete_table database table) =
        h_del tables_key (json.encode_table_key database table) ∷ del (rows_key database table) ∷ []

    unfoldable pub rocks_writes : Db → StorageBatch Value Schema Auto StoredRow → List StorageWrite
    rocks_writes db batch =
        flat_map (metadata_writes db) batch.metadata ++ flat_map row_writes batch.rows

    unfoldable pub rocks_commit : Db → StorageBatch Value Schema Auto StoredRow → Db
    rocks_commit db batch =
        if batch_is_empty batch then db else write_batch store db (rocks_writes db batch)
