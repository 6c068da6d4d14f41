-- ===== src/Constraints/Storing.antt =====
-- A table while an INSERT places its rows, and the storing and the removing of one row with its keys and
-- its directory entries (insert_prepared_rows of src/sql/engine/dml.rs).
use my_sqweel.Prelude.{
  ℕ, ◌+◌, ◌%◌, ◌^◌, Text, text, List, [], ◌∷◌, Option, none, some, Bool, not, ◌&&◌, if◌then◌else◌,
  Map, lookup, insert, remove, retain, starts_with, contains, ◌==◌, nat_eq, list_eq, option_eq,
  Result, ok, ◌>>=◌, text_ltb,
}
use my_sqweel.Constraints.Schema.{Value, Row, JsonText, IndexHint, TableSchemaHint, StoredRow}
use my_sqweel.Constraints.UniqueLookup.{
  UniqueLookup, add_to_unique_lookup, remove_from_unique_lookup,
}
use my_sqweel.Constraints.Indexes.{Indexes, add_row_to_indexes, remove_row_from_indexes}

-- The parts of the engine that the placing calls: the row as the current schema shows it, a value as
-- an error message shows it, and the values of a row after the assignments of ON DUPLICATE KEY UPDATE
-- and the defaults, from the existing row's and the incoming row's values. An array is a value, and two
-- rows have equal values, as the JSON library says.
pub record InsertParts (Number Document : Type 0) : Type 0 where
  pub current_schema_row : Row Number Document → Result Text (Row Number Document)
  pub json_scalar_to_string : Value Number Document → Text
  pub assigned : Row Number Document → Row Number Document → Result Text (Row Number Document)
  pub array_value : List (Value Number Document) → Value Number Document
  pub same_values : Row Number Document → Row Number Document → Bool

-- `updates` tells whether there are assignments.
pub record InsertRowsOptions : Type 0 where
  pub ignore : Bool
  pub replace : Bool
  pub updates : Bool

pub record QueryWarning : Type 0 where
  pub level : Text
  pub code : ℕ
  pub message : Text

-- A table while a statement inserts into it, and the statement's count and warnings.
pub record InsertState (Number Document : Type 0) : Type 0 where
  pub rows : Map Text (StoredRow Number Document)
  pub unique_lookup : UniqueLookup
  pub indexes : Indexes
  pub affected : ℕ
  pub warnings : List QueryWarning

-- The first key of a `BTreeSet`.
unfoldable pub first_key : List Text → Option Text
first_key [] = none
first_key (k ∷ keys) = elim (first_key keys) [
  | none ↦ some k
  | some j ↦ if text_ltb j k then some j else some k
]

-- Whether a column's name is kept in a stored row: it has no dot and no leading `@`.
abbrev pub is_stored_column : Text → Bool
is_stored_column column = not (contains column 46) && not (starts_with (text "@") column)

-- `affected += n` of a u64.
abbrev pub add_affected : ℕ → ℕ → ℕ
add_affected n affected = (affected + n) % 2 ^ 64

-- The name of the first unique index on the columns.
abbrev pub index_name : List IndexHint → List Text → Option Text
index_name [] columns = none
index_name (index ∷ indexes) columns =
    if index.unique && (index.columns == columns)
    then some index.name
    else index_name indexes columns

module _ {Number Document : Type 0} (json : JsonText Number Document)
    (parts : InsertParts Number Document) (table : Text) (schema : Option TableSchemaHint)
    (now : ℕ) where
  -- The stored row, without the values that only the statement's expressions use.
  abbrev pub stored_row : Value Number Document → Row Number Document → StoredRow Number Document
  stored_row row_id row = record {
    id = row_id;
    table = table;
    created_at = now;
    updated_at = now;
    version = 1;
    row_data = retain (λ (p : Text × Value Number Document). is_stored_column p.0) row;
    history = [];
  }

  unfoldable pub store_row :
      Text
      → StoredRow Number Document
      → InsertState Number Document
      → Result Text (InsertState Number Document)
  store_row key stored s =
      add_row_to_indexes json parts.current_schema_row schema key stored.row_data s.indexes
      >>= λ indexes. ok (record {
        rows = insert key stored s.rows;
        unique_lookup = add_to_unique_lookup json s.unique_lookup schema key stored.row_data;
        indexes = indexes;
        affected = add_affected 1 s.affected;
        warnings = s.warnings;
      })

  -- REPLACE removes the rows that are in conflict.
  unfoldable pub remove_row :
      Text
      → Option (StoredRow Number Document)
      → InsertState Number Document
      → Result Text (InsertState Number Document)
  remove_row key none s = ok s
  remove_row key (some removed) s =
      remove_row_from_indexes json parts.current_schema_row schema key removed.row_data s.indexes
      >>= λ indexes. ok (record {
        rows = remove key s.rows;
        unique_lookup = remove_from_unique_lookup json s.unique_lookup schema key removed.row_data;
        indexes = indexes;
        affected = add_affected 1 s.affected;
        warnings = s.warnings;
      })

  unfoldable pub remove_conflicts :
      List Text → InsertState Number Document → Result Text (InsertState Number Document)
  remove_conflicts [] s = ok s
  remove_conflicts (key ∷ keys) s =
      remove_row key (lookup key s.rows) s >>= λ next. remove_conflicts keys next
