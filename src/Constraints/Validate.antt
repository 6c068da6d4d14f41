-- ===== src/Constraints/Validate.antt =====
-- The check of all unique keys of a table (validate_unique_constraints of src/sql/engine/dml.rs).
use my_sqweel.Prelude.{
  Text, text, List, [], ◌∷◌, ◌++◌, map, Option, none, some, if◌then◌else◌, Map, lookup, insert,
  is_empty, unwrap_or, ◌==◌, nat_eq, list_eq, Result, ok, err, ◌>>◌,
}
use my_sqweel.Constraints.Schema.{Value, Row, JsonText, TableSchemaHint, StoredRow}
use my_sqweel.Constraints.UniqueKeys.{schema_unique_key, join}
use my_sqweel.Constraints.Storing.{index_name}

-- The declared unique constraints, and then the primary key.
abbrev pub checked_constraints : TableSchemaHint → List (List Text)
checked_constraints schema =
    schema.unique ++ (if is_empty schema.primary_key then [] else schema.primary_key ∷ [])

module _ {Number Document : Type 0} (json : JsonText Number Document)
    (json_scalar_to_string : Value Number Document → Text) where
  abbrev shown_or_empty : Option (Value Number Document) → Text
  shown_or_empty none = []
  shown_or_empty (some value) = json_scalar_to_string value

  abbrev key_label : TableSchemaHint → List Text → Text
  key_label schema columns =
      unwrap_or (if columns == schema.primary_key then text "PRIMARY" else join (text ",") columns)
        (index_name schema.indexes columns)

  abbrev duplicate_message : TableSchemaHint → List Text → Row Number Document → Text
  duplicate_message schema columns previous =
      (((text "Duplicate entry '"
            ++ join (text "-") (map (λ c. shown_or_empty (lookup c previous)) columns))
          ++ text "' for key '")
        ++ key_label schema columns)
      ++ text "'"

  abbrev pub unless_seen :
      TableSchemaHint → List Text → Option (Row Number Document) → Result Text (Unit {0})
  unless_seen schema columns none = ok tt
  unless_seen schema columns (some previous) = err (duplicate_message schema columns previous)

  abbrev pub check_row :
      TableSchemaHint
      → List Text
      → Option Text
      → Map Text (Row Number Document)
      → Result Text (Unit {0})
  check_row schema columns none seen = ok tt
  check_row schema columns (some key) seen = unless_seen schema columns (lookup key seen)

  -- What is seen after a row: its values, if it has a key.
  abbrev pub see_row :
      Option Text
      → Row Number Document
      → Map Text (Row Number Document)
      → Map Text (Row Number Document)
  see_row none row seen = seen
  see_row (some key) row seen = insert key row seen

  unfoldable pub check_rows :
      TableSchemaHint
      → List Text
      → Map Text (Row Number Document)
      → Map Text (StoredRow Number Document)
      → Result Text (Unit {0})
  check_rows schema columns seen [] = ok tt
  check_rows schema columns seen ((primary_key, row) ∷ rows) =
      let key = schema_unique_key json schema row.row_data columns in
      check_row schema columns key seen
      >> check_rows schema columns (see_row key row.row_data seen) rows

  unfoldable pub check_constraints :
      TableSchemaHint
      → List (List Text)
      → Map Text (StoredRow Number Document)
      → Result Text (Unit {0})
  check_constraints schema [] rows = ok tt
  check_constraints schema (columns ∷ others) rows =
      check_rows schema columns [] rows >> check_constraints schema others rows

  abbrev pub validate_unique_constraints :
      Option TableSchemaHint → Map Text (StoredRow Number Document) → Result Text (Unit {0})
  validate_unique_constraints none rows = ok tt
  validate_unique_constraints (some schema) rows =
      check_constraints schema (checked_constraints schema) rows
