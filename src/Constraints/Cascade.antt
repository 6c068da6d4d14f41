-- ===== src/Constraints/Cascade.antt =====
-- What a DELETE does to the rows that refer to the deleted ones (apply_parent_delete_actions of
-- src/sql/engine/dml.rs). Fuel bounds the depth of the recursion.
use my_sqweel.Prelude.{
  ℕ, zero, suc, ◌+◌, ◌%◌, ◌^◌, Text, text, List, [], ◌∷◌, ◌++◌, map, Option, none, some, Bool, true,
  false, not, ◌&&◌, ◌||◌, if◌then◌else◌, Map, lookup, insert, remove, add, any, contains, is_empty,
  flat_map, retain, unwrap_or, unwrap_or_default, ◌==◌, nat_eq, list_eq, pair_eq, Result, ok, err,
  ◌>>=◌, to_ascii_uppercase, same_ignoring_case,
}
use my_sqweel.Constraints.Schema.{
  Value, Row, is_null, JsonText, ForeignKeyHint, TableSchemaHint, StoredRow,
}
use my_sqweel.Constraints.Indexes.{Indexes, value_or_null, rebuild_indexes}

-- The parts of the engine that the actions call: a table's row as the current schema shows it, and SQL's
-- equality of values.
pub record ReferenceParts (Number Document : Type 0) : Type 0 where
  pub current_schema_row : Text → Row Number Document → Result Text (Row Number Document)
  pub mysql_eq : Value Number Document → Value Number Document → Bool

pub data CascadeError : Type 0 where
  refused : Text → CascadeError
  out_of_fuel : CascadeError

-- The engine's tables and directories, and the child rows that a cascade has visited.
pub record CascadeState (Number Document : Type 0) : Type 0 where
  pub rows : Map Text (Map Text (StoredRow Number Document))
  pub indexes : Map Text Indexes
  pub visited : List (Text × Text)

-- The first visit of each key of a child table: these keys, and what is visited then.
unfoldable pub take_fresh : Text → List Text → List (Text × Text) → List Text × List (Text × Text)
take_fresh table [] visited = ([], visited)
take_fresh table (key ∷ keys) visited =
    let seen = take_fresh table keys visited in
    let (fresh, visited') = take_fresh table keys (add (table, key) visited) in
    if contains visited (table, key) then seen else (key ∷ fresh, visited')

-- The foreign keys that refer to a table, with the tables that declare them.
abbrev pub referencing : Map Text TableSchemaHint → Text → List (Text × ForeignKeyHint)
referencing schemas parent_table =
    flat_map
      (λ (p : Text × TableSchemaHint).
        map (λ foreign_key. (p.1.table, foreign_key))
          (retain (λ (k : ForeignKeyHint). same_ignoring_case k.referenced_table parent_table)
            p.1.foreign_keys))
      schemas

module _ {Number Document : Type 0} (json : JsonText Number Document)
    (parts : ReferenceParts Number Document) where
  abbrev same_values : Row Number Document → List Text → Row Number Document → List Text → Bool
  same_values child [] parent parent_columns = true
  same_values child (column ∷ columns) parent [] = true
  same_values child (child_column ∷ columns) parent (parent_column ∷ parent_columns) =
      let child_value = value_or_null json (lookup child_column child) in
      let parent_value = value_or_null json (lookup parent_column parent) in
      (not (is_null child_value)
        && (not (is_null parent_value) && parts.mysql_eq child_value parent_value))
      && same_values child columns parent parent_columns

  abbrev same_length : List Text → List Text → Bool
  same_length [] [] = true
  same_length [] (d ∷ ds) = false
  same_length (c ∷ cs) [] = false
  same_length (c ∷ cs) (d ∷ ds) = same_length cs ds

  unfoldable pub foreign_key_row_matches :
      Row Number Document → List Text → Row Number Document → List Text → Bool
  foreign_key_row_matches child child_columns parent parent_columns =
      if not (same_length child_columns parent_columns) || is_empty child_columns
      then false
      else same_values child child_columns parent parent_columns

  -- The values of the parents that exist.
  unfoldable pub parent_values :
      Map Text (StoredRow Number Document) → List Text → List (Row Number Document)
  parent_values rows [] = []
  parent_values rows (key ∷ keys) = elim (lookup key rows) [
    | none ↦ parent_values rows keys
    | some row ↦ row.row_data ∷ parent_values rows keys
  ]

  -- The keys of the child rows that refer to a parent; a deleted parent is no child of its own table.
  unfoldable pub matching_keys :
      ForeignKeyHint
      → Bool
      → List Text
      → List (Row Number Document)
      → Map Text (StoredRow Number Document)
      → List Text
  matching_keys foreign_key same_table parent_keys parents [] = []
  matching_keys foreign_key same_table parent_keys parents ((key, child) ∷ rows) =
      let rest = matching_keys foreign_key same_table parent_keys parents rows in
      if same_table && contains parent_keys key
      then rest
      else if any
          (λ parent.
            foreign_key_row_matches child.row_data foreign_key.columns parent
              foreign_key.referenced_columns)
          parents
      then key ∷ rest
      else rest

  unfoldable pub remove_keys :
      List Text → Map Text (StoredRow Number Document) → Map Text (StoredRow Number Document)
  remove_keys [] rows = rows
  remove_keys (key ∷ keys) rows = remove_keys keys (remove key rows)

  abbrev pub with_nulls : List Text → Row Number Document → Row Number Document
  with_nulls [] row = row
  with_nulls (column ∷ columns) row = with_nulls columns (insert column Value.null row)

  module _ (schemas : Map Text TableSchemaHint) (now : ℕ) where
    abbrev pub nulled : List Text → StoredRow Number Document → StoredRow Number Document
    nulled columns row = record {
      id = row.id;
      table = row.table;
      created_at = row.created_at;
      updated_at = now;
      version = (row.version + 1) % 2 ^ 64;
      row_data = with_nulls columns row.row_data;
      history = row.history;
    }

    -- ON DELETE SET NULL, on one row and on all.
    abbrev pub null_row :
        List Text
        → Text
        → Option (StoredRow Number Document)
        → Map Text (StoredRow Number Document)
        → Map Text (StoredRow Number Document)
    null_row columns key none rows = rows
    null_row columns key (some row) rows = insert key (nulled columns row) rows

    unfoldable pub null_keys :
        List Text
        → List Text
        → Map Text (StoredRow Number Document)
        → Map Text (StoredRow Number Document)
    null_keys columns [] rows = rows
    null_keys columns (key ∷ keys) rows =
        null_keys columns keys (null_row columns key (lookup key rows) rows)

    abbrev pub with_table :
        Text
        → Map Text (StoredRow Number Document)
        → CascadeState Number Document
        → Result Text (Map Text Indexes)
        → Result CascadeError (CascadeState Number Document)
    with_table table next_rows s (err message) = err (refused message)
    with_table table next_rows s (ok indexes) =
        ok (record { rows = insert table next_rows s.rows; indexes = indexes; visited = s.visited })

    -- The rows of a table are replaced, and its directories are made anew.
    unfoldable pub store_table :
        Text
        → Map Text (StoredRow Number Document)
        → CascadeState Number Document
        → Result CascadeError (CascadeState Number Document)
    store_table table next_rows s = with_table table next_rows s (
        rebuild_indexes json (parts.current_schema_row table) (lookup table schemas)
          (some next_rows) table s.indexes)

    module _
        (recur : Text
          → List Text
          → CascadeState Number Document
          → Result CascadeError (CascadeState Number Document)) where
      -- ON DELETE CASCADE: the children of the fresh children first, then these.
      unfoldable pub cascade :
          Text
          → Map Text (StoredRow Number Document)
          → List Text
          → CascadeState Number Document
          → Result CascadeError (CascadeState Number Document)
      cascade child_table child_rows matching s =
          let taken = take_fresh child_table matching s.visited in
          recur child_table taken.0
            (record { rows = s.rows; indexes = s.indexes; visited = taken.1 })
          >>= λ next. store_table child_table (remove_keys taken.0 child_rows) next

      unfoldable pub act_on :
          Text
          → ForeignKeyHint
          → Map Text (StoredRow Number Document)
          → List Text
          → CascadeState Number Document
          → Result CascadeError (CascadeState Number Document)
      act_on child_table foreign_key child_rows matching s =
          let action = to_ascii_uppercase (unwrap_or (text "RESTRICT") foreign_key.on_delete) in
          if is_empty matching
          then ok s
          else if action == text "CASCADE"
          then cascade child_table child_rows matching s
          else if action == text "SET NULL"
          then store_table child_table (null_keys foreign_key.columns matching child_rows) s
          else if (action == text "RESTRICT") || (action == text "NO ACTION")
          then err (
              refused (
                (text "cannot delete or update a referenced row: foreign key constraint fails ("
                  ++ foreign_key.name)
                ++ text ")"))
          else err (refused (text "unsupported ON DELETE action: " ++ action))

      unfoldable pub apply_actions :
          Text
          → List Text
          → List (Row Number Document)
          → List (Text × ForeignKeyHint)
          → CascadeState Number Document
          → Result CascadeError (CascadeState Number Document)
      apply_actions parent_table parent_keys parents [] s = ok s
      apply_actions parent_table parent_keys parents ((child_table, foreign_key) ∷ others) s =
          let child_rows = unwrap_or_default (lookup child_table s.rows) in
          let matching =
            matching_keys foreign_key (same_ignoring_case child_table parent_table) parent_keys
              parents child_rows in
          act_on child_table foreign_key child_rows matching s >>= λ next.
          apply_actions parent_table parent_keys parents others next

    unfoldable pub apply_parent_delete_actions_inner :
        ℕ
        → Text
        → List Text
        → CascadeState Number Document
        → Result CascadeError (CascadeState Number Document)
    apply_parent_delete_actions_inner zero parent_table parent_keys s = err out_of_fuel
    apply_parent_delete_actions_inner (suc fuel) parent_table parent_keys s =
        let parents = parent_values (unwrap_or_default (lookup parent_table s.rows)) parent_keys in
        if is_empty parents
        then ok s
        else apply_actions (apply_parent_delete_actions_inner fuel) parent_table parent_keys parents
            (referencing schemas parent_table) s

    abbrev pub apply_parent_delete_actions :
        ℕ
        → Text
        → List Text
        → Map Text (Map Text (StoredRow Number Document))
        → Map Text Indexes
        → Result CascadeError (CascadeState Number Document)
    apply_parent_delete_actions fuel parent_table parent_keys rows indexes =
        apply_parent_delete_actions_inner fuel parent_table parent_keys
          (record { rows = rows; indexes = indexes; visited = [] })
