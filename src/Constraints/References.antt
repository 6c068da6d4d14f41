-- ===== src/Constraints/References.antt =====
-- The check that the rows a row refers to exist (validate_foreign_key_row of src/sql/engine/dml.rs).
use my_sqweel.Prelude.{
  Text, text, List, [], ◌∷◌, ◌++◌, map, Option, none, some, Bool, true, false, ◌&&◌, if◌then◌else◌,
  Map, lookup, any, is_some_and, unwrap_or_default, and_then, ◌==◌, nat_eq, list_eq, Result, ok,
  ◌>>=◌, ◌>>◌, ensure,
}
use my_sqweel.Constraints.Schema.{
  Value, Row, is_null, JsonText, ForeignKeyHint, TableSchemaHint, StoredRow,
}
use my_sqweel.Constraints.Indexes.{value_or_null}
use my_sqweel.Constraints.Cascade.{ReferenceParts}

module _ {Number Document : Type 0} (json : JsonText Number Document)
    (parts : ReferenceParts Number Document)
    (array_value : List (Value Number Document) → Value Number Document) where
  abbrev pub local_values : ForeignKeyHint → Row Number Document → List (Value Number Document)
  local_values foreign_key row =
      map (λ column. value_or_null json (lookup column row)) foreign_key.columns

  -- Whether a parent's values equal the child's, column by column.
  abbrev pub refers_to : List Text → List (Value Number Document) → Row Number Document → Bool
  refers_to [] locals parent = true
  refers_to (column ∷ columns) [] parent = true
  refers_to (column ∷ columns) (value ∷ values) parent =
      is_some_and (lookup column parent) (λ referenced. parts.mysql_eq referenced value)
      && refers_to columns values parent

  abbrev pub matches_parent :
      ForeignKeyHint → List (Value Number Document) → StoredRow Number Document → Result Text Bool
  matches_parent foreign_key locals parent =
      parts.current_schema_row foreign_key.referenced_table parent.row_data >>= λ view.
      ok (refers_to foreign_key.referenced_columns locals view)

  -- The row key of the parent, if the key refers to the parent's primary key.
  abbrev pub identity_text : List (Value Number Document) → Text
  identity_text [] = json.value_text (array_value [])
  identity_text (value ∷ []) = json.value_text value
  identity_text (value ∷ second ∷ others) = json.value_text (array_value (value ∷ second ∷ others))

  abbrev pub parent_key :
      ForeignKeyHint → List (Value Number Document) → Option TableSchemaHint → Option Text
  parent_key foreign_key locals none = none
  parent_key foreign_key locals (some schema) =
      if schema.primary_key == foreign_key.referenced_columns
      then some (identity_text locals)
      else none

  -- The parent found by its row key, and the scan of all parents until one matches.
  abbrev pub match_by_key :
      ForeignKeyHint
      → List (Value Number Document)
      → Option (StoredRow Number Document)
      → Result Text Bool
  match_by_key foreign_key locals none = ok false
  match_by_key foreign_key locals (some parent) = matches_parent foreign_key locals parent

  unfoldable pub match_by_scan :
      ForeignKeyHint
      → List (Value Number Document)
      → Map Text (StoredRow Number Document)
      → Result Text Bool
  match_by_scan foreign_key locals [] = ok false
  match_by_scan foreign_key locals ((key, parent) ∷ parents) =
      matches_parent foreign_key locals parent >>= λ matched.
      let rest = match_by_scan foreign_key locals parents in if matched then ok true else rest

  module _ (schemas : Map Text TableSchemaHint)
      (rows : Map Text (Map Text (StoredRow Number Document))) where
    abbrev pub parent_rows : ForeignKeyHint → Map Text (StoredRow Number Document)
    parent_rows foreign_key = unwrap_or_default (lookup foreign_key.referenced_table rows)

    unfoldable pub find_parent : ForeignKeyHint → List (Value Number Document) → Result Text Bool
    find_parent foreign_key locals =
        let key = parent_key foreign_key locals (lookup foreign_key.referenced_table schemas) in
        match_by_key foreign_key locals (and_then key (λ k. lookup k (parent_rows foreign_key)))
        >>= λ matched.
            if matched then ok true else match_by_scan foreign_key locals (parent_rows foreign_key)

    unfoldable pub check_reference :
        ForeignKeyHint → List (Value Number Document) → Result Text (Unit {0})
    check_reference foreign_key locals =
        if any is_null locals
        then ok tt
        else find_parent foreign_key locals >>= λ matched.
            ensure matched (text "foreign key constraint fails: " ++ foreign_key.name)

    unfoldable pub check_references :
        List ForeignKeyHint → Row Number Document → Result Text (Unit {0})
    check_references [] row = ok tt
    check_references (foreign_key ∷ others) row =
        check_reference foreign_key (local_values foreign_key row) >> check_references others row

    abbrev pub declared_keys : Option TableSchemaHint → List ForeignKeyHint
    declared_keys none = []
    declared_keys (some schema) = schema.foreign_keys

    abbrev pub validate_foreign_key_row : Text → Row Number Document → Result Text (Unit {0})
    validate_foreign_key_row table row = check_references (declared_keys (lookup table schemas)) row
