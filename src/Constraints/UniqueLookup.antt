-- ===== src/Constraints/UniqueLookup.antt =====
-- The index of unique keys that an INSERT keeps while it runs, and the rows a new row conflicts with
-- (src/sql/engine/dml.rs). A `BTreeSet` of row keys is a list without order.
use my_sqweel.Prelude.{
  Text, List, [], ◌∷◌, Option, none, some, if◌then◌else◌, Map, lookup, insert, remove, add, extend,
  discard, is_some, is_empty, and_then, unwrap_or_default, ◌==◌, nat_eq, list_eq, option_eq,
}
use my_sqweel.Constraints.Schema.{Row, JsonText, TableSchemaHint, StoredRow}
use my_sqweel.Constraints.UniqueKeys.{schema_unique_key, unique_columns}

-- For each constraint's columns and each key under it, the rows that have the key.
abbrev pub UniqueLookup : Type 0
UniqueLookup = Map (List Text) (Map Text (List Text))

-- `values.entry(value).or_default().insert(primary_key)`.
unfoldable pub add_value : Text → Text → Map Text (List Text) → Map Text (List Text)
add_value value primary_key values =
    insert value (add primary_key (unwrap_or_default (lookup value values))) values

unfoldable pub add_key : Option Text → Text → Map Text (List Text) → Map Text (List Text)
add_key none primary_key values = values
add_key (some value) primary_key values = add_value value primary_key values

-- `keys.remove(primary_key)`, and the removal of a set that this leaves empty.
unfoldable pub remove_value :
    Text → Text → Option (List Text) → Map Text (List Text) → Map Text (List Text)
remove_value value primary_key none values = values
remove_value value primary_key (some keys) values =
    let left = discard primary_key keys in
    if is_empty left then remove value values else insert value left values

-- What a row adds to the index, and takes from it, for one constraint under which it has this key.
unfoldable pub add_entry : Option Text → List Text → Text → UniqueLookup → UniqueLookup
add_entry none columns primary_key index = index
add_entry (some value) columns primary_key index =
    insert columns (add_value value primary_key (unwrap_or_default (lookup columns index))) index

unfoldable pub remove_entry :
    Option Text → List Text → Text → Option (Map Text (List Text)) → UniqueLookup → UniqueLookup
remove_entry none columns primary_key found index = index
remove_entry (some value) columns primary_key none index = index
remove_entry (some value) columns primary_key (some values) index =
    insert columns (remove_value value primary_key (lookup value values) values) index

-- The rows a constraint's index has under a key.
unfoldable pub keys_at : UniqueLookup → List Text → Text → List Text
keys_at index columns value =
    unwrap_or_default (and_then (lookup columns index) (λ values. lookup value values))

-- Those of the key that a row has under the constraint: none, if it has no key.
abbrev pub keys_under : UniqueLookup → List Text → Option Text → List Text
keys_under index columns none = []
keys_under index columns (some value) = keys_at index columns value

module _ {Number Document : Type 0} (json : JsonText Number Document) where
  unfoldable pub build_values :
      TableSchemaHint
      → List Text
      → Map Text (List Text)
      → Map Text (StoredRow Number Document)
      → Map Text (List Text)
  build_values schema columns values [] = values
  build_values schema columns values ((primary_key, row) ∷ rows) =
      build_values schema columns
        (add_key (schema_unique_key json schema row.row_data columns) primary_key values) rows

  unfoldable pub build_columns :
      TableSchemaHint
      → Map Text (StoredRow Number Document)
      → List (List Text)
      → UniqueLookup
      → UniqueLookup
  build_columns schema rows [] index = index
  build_columns schema rows (columns ∷ others) index = build_columns schema rows others (
      insert columns (build_values schema columns (unwrap_or_default (lookup columns index)) rows)
        index)

  abbrev pub build_unique_lookup :
      TableSchemaHint → Map Text (StoredRow Number Document) → UniqueLookup
  build_unique_lookup schema rows = build_columns schema rows (unique_columns schema) []

  unfoldable pub add_columns :
      TableSchemaHint → Text → Row Number Document → List (List Text) → UniqueLookup → UniqueLookup
  add_columns schema primary_key row [] index = index
  add_columns schema primary_key row (columns ∷ others) index =
      add_columns schema primary_key row others
        (add_entry (schema_unique_key json schema row columns) columns primary_key index)

  abbrev pub add_to_unique_lookup :
      UniqueLookup → Option TableSchemaHint → Text → Row Number Document → UniqueLookup
  add_to_unique_lookup index none primary_key row = index
  add_to_unique_lookup index (some schema) primary_key row =
      add_columns schema primary_key row (unique_columns schema) index

  unfoldable pub remove_columns :
      TableSchemaHint → Text → Row Number Document → List (List Text) → UniqueLookup → UniqueLookup
  remove_columns schema primary_key row [] index = index
  remove_columns schema primary_key row (columns ∷ others) index =
      remove_columns schema primary_key row others (
        remove_entry (schema_unique_key json schema row columns) columns primary_key
          (lookup columns index) index)

  abbrev pub remove_from_unique_lookup :
      UniqueLookup → Option TableSchemaHint → Text → Row Number Document → UniqueLookup
  remove_from_unique_lookup index none primary_key row = index
  remove_from_unique_lookup index (some schema) primary_key row =
      remove_columns schema primary_key row (unique_columns schema) index

  unfoldable pub conflicts_by_lookup :
      TableSchemaHint
      → Row Number Document
      → UniqueLookup
      → List (List Text)
      → List Text
      → List Text
  conflicts_by_lookup schema row index [] conflicts = conflicts
  conflicts_by_lookup schema row index (columns ∷ others) conflicts =
      conflicts_by_lookup schema row index others
        (extend conflicts (keys_under index columns (schema_unique_key json schema row columns)))

  -- The row of the same row key, if there is one.
  abbrev pub same_row_key : Text → Map Text (StoredRow Number Document) → List Text
  same_row_key row_key table_rows = if is_some (lookup row_key table_rows) then row_key ∷ [] else []

  abbrev pub find_conflict_keys_with_lookup :
      Text
      → Row Number Document
      → Map Text (StoredRow Number Document)
      → Option TableSchemaHint
      → UniqueLookup
      → List Text
  find_conflict_keys_with_lookup row_key row table_rows none index = same_row_key row_key table_rows
  find_conflict_keys_with_lookup row_key row table_rows (some schema) index =
      conflicts_by_lookup schema row index (unique_columns schema) (same_row_key row_key table_rows)

  -- The scan for one constraint, under which the incoming row may have a key.
  unfoldable pub scan_rows_for :
      TableSchemaHint
      → List Text
      → Option Text
      → Map Text (StoredRow Number Document)
      → List Text
      → List Text
  scan_rows_for schema columns none rows conflicts = conflicts
  scan_rows_for schema columns (some incoming) [] conflicts = conflicts
  scan_rows_for schema columns (some incoming) ((existing_key, existing) ∷ rows) conflicts =
      scan_rows_for schema columns (some incoming) rows (
        if schema_unique_key json schema existing.row_data columns == some incoming
        then add existing_key conflicts
        else conflicts)

  unfoldable pub conflicts_by_scan :
      TableSchemaHint
      → Row Number Document
      → Map Text (StoredRow Number Document)
      → List (List Text)
      → List Text
      → List Text
  conflicts_by_scan schema row table_rows [] conflicts = conflicts
  conflicts_by_scan schema row table_rows (columns ∷ others) conflicts =
      conflicts_by_scan schema row table_rows others (
        scan_rows_for schema columns (schema_unique_key json schema row columns) table_rows
          conflicts)

  abbrev pub find_conflict_keys :
      Option TableSchemaHint
      → Text
      → Row Number Document
      → Map Text (StoredRow Number Document)
      → List Text
  find_conflict_keys none row_key row table_rows = same_row_key row_key table_rows
  find_conflict_keys (some schema) row_key row table_rows =
      conflicts_by_scan schema row table_rows (unique_columns schema)
        (same_row_key row_key table_rows)
