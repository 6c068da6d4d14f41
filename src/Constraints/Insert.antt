-- ===== src/Constraints/Insert.antt =====
-- The placing of the prepared rows of an INSERT, INSERT IGNORE, REPLACE, or INSERT ... ON DUPLICATE KEY
-- UPDATE (insert_prepared_rows of src/sql/engine/dml.rs).
-- Each row comes with its identity, after its defaults, generated columns, types, and row checks. Left
-- out are the automatic counters, the rows of a RETURNING clause, the last insert id, and the counters
-- of the query report.
use my_sqweel.Prelude.{
  ℕ, ◌+◌, ◌%◌, ◌^◌, Text, text, List, [], ◌∷◌, ◌++◌, Option, none, some, Bool, not, ◌&&◌,
  if◌then◌else◌, Map, lookup, insert, remove, any, is_some, is_some_and, is_empty, or_else,
  unwrap_or, map, contains, and_then, ◌==◌, nat_eq, list_eq, option_eq, Result, ok, err, ok_or,
  ◌>>=◌,
}
use my_sqweel.Constraints.Schema.{Value, Row, JsonText, TableSchemaHint, StoredRow}
use my_sqweel.Constraints.UniqueKeys.{schema_unique_key}
use my_sqweel.Constraints.UniqueLookup.{
  add_to_unique_lookup, remove_from_unique_lookup, find_conflict_keys_with_lookup,
}
use my_sqweel.Constraints.Indexes.{value_or_null, add_row_to_indexes, remove_row_from_indexes}
use my_sqweel.Constraints.Storing.{
  InsertParts, InsertRowsOptions, InsertState, first_key, add_affected, index_name, stored_row,
  store_row, remove_conflicts,
}

module _ {Number Document : Type 0} (json : JsonText Number Document)
    (parts : InsertParts Number Document) (table : Text) (schema : Option TableSchemaHint)
    (now : ℕ) where
  -- The constraint that a warning names: the first whose key some row has and that an index carries.
  abbrev violated_key :
      TableSchemaHint
      → Row Number Document
      → Map Text (StoredRow Number Document)
      → List (List Text)
      → Option Text
  violated_key hint row rows [] = none
  violated_key hint row rows (columns ∷ others) =
      let rest = violated_key hint row rows others in
      or_else
        (and_then (schema_unique_key json hint row columns) λ candidate.
          if any
            (λ (p : Text × StoredRow Number Document).
              schema_unique_key json hint p.1.row_data columns == some candidate)
            rows
          then index_name hint.indexes columns
          else none)
        rest

  abbrev key_name :
      Text → Row Number Document → Map Text (StoredRow Number Document) → List Text → Text
  key_name key row rows conflict_keys =
      if contains conflict_keys key
      then text "PRIMARY"
      else unwrap_or (text "PRIMARY")
          (and_then schema λ hint. violated_key hint row rows hint.unique)

  unfoldable pub ignore_row :
      Value Number Document
      → Row Number Document
      → List Text
      → InsertState Number Document
      → InsertState Number Document
  ignore_row row_id row conflict_keys s = record {
    rows = s.rows;
    unique_lookup = s.unique_lookup;
    indexes = s.indexes;
    affected = s.affected;
    warnings =
        s.warnings
        ++ (record {
          level = text "Warning";
          code = 1062;
          message =
              (((text "Duplicate entry '" ++ parts.json_scalar_to_string row_id)
                  ++ text "' for key '")
                ++ key_name (json.value_text row_id) row s.rows conflict_keys)
              ++ text "'";
        }
            ∷ []);
  }

  -- The value of the primary key after an update: an array of several columns' values, the value of
  -- the one column, or that of an automatic `id`; the former identity if the row lacks it.
  abbrev identity_of :
      List Text → StoredRow Number Document → Row Number Document → Value Number Document
  identity_of [] current_row row =
      if is_some_and schema
        (λ hint. is_some_and (lookup (text "id") hint.columns) (λ column. column.auto_increment))
      then unwrap_or current_row.id (lookup (text "id") row)
      else current_row.id
  identity_of (column ∷ []) current_row row = unwrap_or current_row.id (lookup column row)
  identity_of (column ∷ second ∷ others) current_row row =
      parts.array_value (map (λ c. value_or_null json (lookup c row)) (column ∷ second ∷ others))

  abbrev primary_key_of : Option TableSchemaHint → List Text
  primary_key_of none = []
  primary_key_of (some hint) = hint.primary_key

  abbrev pub updated_row_identity :
      StoredRow Number Document → Row Number Document → Value Number Document × Text
  updated_row_identity current_row row =
      let id = identity_of (primary_key_of schema) current_row row in (id, json.value_text id)

  -- The existing row with its new values, and its new identity if its row key changes.
  abbrev pub rekeyed_row :
      Bool
      → Value Number Document
      → StoredRow Number Document
      → Row Number Document
      → StoredRow Number Document
  rekeyed_row rekeyed new_id existing values = record {
    id = if rekeyed then new_id else existing.id;
    table = existing.table;
    created_at = existing.created_at;
    updated_at = now;
    version = (existing.version + 1) % 2 ^ 64;
    row_data = values;
    history = existing.history;
  }

  unfoldable pub rekey_row :
      Text
      → StoredRow Number Document
      → Row Number Document
      → Value Number Document × Text
      → InsertState Number Document
      → Result Text (InsertState Number Document)
  rekey_row conflict_key existing values (new_id, new_key) s =
      let rekeyed = not (new_key == conflict_key) in
      if rekeyed && is_some (lookup new_key s.rows)
      then err (((text "primary key conflict on " ++ table) ++ text ": ") ++ new_key)
      else remove_row_from_indexes json parts.current_schema_row schema conflict_key
          existing.row_data s.indexes
        >>= λ indexes.
            add_row_to_indexes json parts.current_schema_row schema new_key values indexes
            >>= λ indexes'. ok (record {
              rows =
                  insert new_key (rekeyed_row rekeyed new_id existing values)
                    (if rekeyed then remove conflict_key s.rows else s.rows);
              unique_lookup =
                  add_to_unique_lookup json
                    (remove_from_unique_lookup json s.unique_lookup schema conflict_key
                      existing.row_data)
                    schema new_key values;
              indexes = indexes';
              affected = add_affected 2 s.affected;
              warnings = s.warnings;
            })

  -- ON DUPLICATE KEY UPDATE changes the first row in conflict. Values that are equal to the former ones are
  -- not written: that the source writes them in place, where 0.0 and -0.0 are equal, is left out.
  unfoldable pub update_duplicate :
      Row Number Document
      → List Text
      → InsertState Number Document
      → Result Text (InsertState Number Document)
  update_duplicate row conflict_keys s =
      ok_or (first_key conflict_keys) (text "conflict row disappeared") >>= λ conflict_key.
      ok_or (lookup conflict_key s.rows) (text "conflict row disappeared") >>= λ existing.
      parts.assigned existing.row_data row >>= λ values.
      if parts.same_values values existing.row_data
      then ok s
      else rekey_row conflict_key existing values (updated_row_identity existing values) s

  -- What is done with a row that is in conflict with others.
  unfoldable pub resolve_conflicts :
      InsertRowsOptions
      → Value Number Document
      → Row Number Document
      → List Text
      → InsertState Number Document
      → Result Text (InsertState Number Document)
  resolve_conflicts options row_id row conflict_keys s =
      let key = json.value_text row_id in
      if not options.updates && options.ignore
      then ok (ignore_row row_id row conflict_keys s)
      else if options.updates
      then update_duplicate row conflict_keys s
      else if options.replace
      then (remove_conflicts json parts table schema now conflict_keys s >>= λ next.
          store_row json parts table schema now key
            (stored_row json parts table schema now row_id row) next)
      else if contains conflict_keys key
      then err (((text "primary key conflict on " ++ table) ++ text ": ") ++ key)
      else err (text "unique constraint violation on " ++ table)

  abbrev pub conflicts_of :
      Value Number Document → Row Number Document → InsertState Number Document → List Text
  conflicts_of row_id row s =
      find_conflict_keys_with_lookup json (json.value_text row_id) row s.rows schema s.unique_lookup

  unfoldable pub place_row :
      InsertRowsOptions
      → Value Number Document
      → Row Number Document
      → InsertState Number Document
      → Result Text (InsertState Number Document)
  place_row options row_id row s =
      if is_empty (conflicts_of row_id row s)
      then store_row json parts table schema now (json.value_text row_id)
          (stored_row json parts table schema now row_id row) s
      else resolve_conflicts options row_id row (conflicts_of row_id row s) s

  -- The loop over the rows, each with its resolved identity.
  unfoldable pub place_rows :
      InsertRowsOptions
      → List (Value Number Document × Row Number Document)
      → InsertState Number Document
      → Result Text (InsertState Number Document)
  place_rows options [] s = ok s
  place_rows options ((row_id, row) ∷ rows) s =
      place_row options row_id row s >>= λ next. place_rows options rows next
