-- ===== src/Constraints/Indexes.antt =====
-- The directories of rows by the value of one column (src/sql/engine/dml.rs).
use my_sqweel.Prelude.{
  Text, List, [], ◌∷◌, Option, none, some, Map, lookup, insert, unwrap_or_default, Result, ok,
  ◌>>=◌, nat_eq, list_eq,
}
use my_sqweel.Constraints.Schema.{Value, Row, JsonText, IndexHint, TableSchemaHint, StoredRow}
use my_sqweel.Constraints.UniqueLookup.{add_value, remove_value}

-- For each indexed column and each value, the rows that have it.
abbrev pub Indexes : Type 0
Indexes = Map Text (Map Text (List Text))

unfoldable pub remove_from_column :
    Text → Text → Text → Option (Map Text (List Text)) → Indexes → Indexes
remove_from_column column value key none indexes = indexes
remove_from_column column value key (some values) indexes =
    insert column (remove_value value key (lookup value values) values) indexes

module _ {Number Document : Type 0} (json : JsonText Number Document) where
  abbrev pub value_or_null : Option (Value Number Document) → Value Number Document
  value_or_null none = Value.null
  value_or_null (some value) = value

  -- The text of a column's value, null when the row lacks it.
  abbrev pub column_text : Row Number Document → Text → Text
  column_text view column = json.value_text (value_or_null (lookup column view))

  -- Only an index on one column has a directory.
  abbrev add_entry_for : List Text → Text → Row Number Document → Indexes → Indexes
  add_entry_for [] key view indexes = indexes
  add_entry_for (column ∷ []) key view indexes =
      insert column
        (add_value (column_text view column) key (unwrap_or_default (lookup column indexes)))
        indexes
  add_entry_for (column ∷ second ∷ others) key view indexes = indexes

  abbrev remove_entry_for : List Text → Text → Row Number Document → Indexes → Indexes
  remove_entry_for [] key view indexes = indexes
  remove_entry_for (column ∷ []) key view indexes =
      remove_from_column column (column_text view column) key (lookup column indexes) indexes
  remove_entry_for (column ∷ second ∷ others) key view indexes = indexes

  unfoldable pub add_entries : List IndexHint → Text → Row Number Document → Indexes → Indexes
  add_entries [] key view indexes = indexes
  add_entries (index ∷ hints) key view indexes =
      add_entries hints key view (add_entry_for index.columns key view indexes)

  unfoldable pub remove_entries : List IndexHint → Text → Row Number Document → Indexes → Indexes
  remove_entries [] key view indexes = indexes
  remove_entries (index ∷ hints) key view indexes =
      remove_entries hints key view (remove_entry_for index.columns key view indexes)

  -- `shown` is the row as the current schema shows it, which can fail.
  unfoldable pub add_row_to_indexes :
      (Row Number Document → Result Text (Row Number Document))
      → Option TableSchemaHint
      → Text
      → Row Number Document
      → Indexes
      → Result Text Indexes
  add_row_to_indexes shown none key row indexes = ok indexes
  add_row_to_indexes shown (some schema) key row indexes =
      shown row >>= λ view. ok (add_entries schema.indexes key view indexes)

  unfoldable pub remove_row_from_indexes :
      (Row Number Document → Result Text (Row Number Document))
      → Option TableSchemaHint
      → Text
      → Row Number Document
      → Indexes
      → Result Text Indexes
  remove_row_from_indexes shown none key row indexes = ok indexes
  remove_row_from_indexes shown (some schema) key row indexes =
      shown row >>= λ view. ok (remove_entries schema.indexes key view indexes)

  -- The directories of a table made anew from its rows.
  unfoldable pub rebuild_column :
      (Row Number Document → Result Text (Row Number Document))
      → Text
      → Map Text (StoredRow Number Document)
      → Map Text (List Text)
      → Result Text (Map Text (List Text))
  rebuild_column shown column [] values = ok values
  rebuild_column shown column ((key, row) ∷ rows) values = shown row.row_data >>= λ view.
      rebuild_column shown column rows (add_value (column_text view column) key values)

  abbrev rebuild_index :
      (Row Number Document → Result Text (Row Number Document))
      → List Text
      → Map Text (StoredRow Number Document)
      → Indexes
      → Result Text Indexes
  rebuild_index shown [] rows indexes = ok indexes
  rebuild_index shown (column ∷ []) rows indexes =
      rebuild_column shown column rows [] >>= λ values. ok (insert column values indexes)
  rebuild_index shown (column ∷ second ∷ others) rows indexes = ok indexes

  unfoldable pub rebuild_hints :
      (Row Number Document → Result Text (Row Number Document))
      → List IndexHint
      → Map Text (StoredRow Number Document)
      → Indexes
      → Result Text Indexes
  rebuild_hints shown [] rows indexes = ok indexes
  rebuild_hints shown (index ∷ hints) rows indexes =
      rebuild_index shown index.columns rows indexes >>= λ next. rebuild_hints shown hints rows next

  -- Of a table without a schema or without rows, nothing is changed.
  unfoldable pub rebuild_indexes :
      (Row Number Document → Result Text (Row Number Document))
      → Option TableSchemaHint
      → Option (Map Text (StoredRow Number Document))
      → Text
      → Map Text Indexes
      → Result Text (Map Text Indexes)
  rebuild_indexes shown none rows table all_indexes = ok all_indexes
  rebuild_indexes shown (some schema) none table all_indexes = ok all_indexes
  rebuild_indexes shown (some schema) (some rows) table all_indexes =
      rebuild_hints shown schema.indexes rows [] >>= λ indexes.
      ok (insert table indexes all_indexes)
