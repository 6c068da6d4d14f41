-- ===== src/Constraints/InsertLaws.antt =====
-- INSERT, INSERT IGNORE and REPLACE keep the rows' unique keys distinct (src/sql/engine/dml.rs).
use my_sqweel.Prelude.{
  ℕ, Text, List, [], ◌∷◌, none, some, true, false, if◌then◌else◌, ◌≡◌, refl, sym, arith, Map,
  lookup, insert, lookup-insert, contains, all, All, is_empty, ◌==◌, nat_eq, list_eq, option_eq,
  list_beq_iff, Bool-cases, inl, inr, ok, >>=-eq-ok, ok_injective, err≢ok, err≢ok,
}
use mathlib.Core.Path.{subst}
use my_sqweel.Constraints.Schema.{Row, Value, JsonText, TableSchemaHint, StoredRow}
use my_sqweel.Constraints.UniqueKeys.{unique_columns}
use my_sqweel.Constraints.LookupLaws.{has_key, contains-is_empty}
use my_sqweel.Constraints.IndexLaws.{row_has_key}
use my_sqweel.Constraints.Storing.{
  InsertParts, InsertRowsOptions, InsertState, is_stored_column, stored_row, store_row,
  remove_conflicts,
}
use my_sqweel.Constraints.Insert.{
  ignore_row, resolve_conflicts, conflicts_of, place_row, place_rows,
}
use my_sqweel.Constraints.IndexedSteps.{
  IsIndexed, IsWithout, store_row-IsIndexed, remove_conflicts-IsIndexed, fresh_without,
  free_without,
}
use my_sqweel.Constraints.ConflictLaws.{schema_unique_key-retain}

All-contains :
    (P : List Text → Type 0) (us : List (List Text)) (columns : List Text)
    → All P us
    → contains us columns ≡ true
    → P columns
All-contains P [] columns h declared = cc
All-contains P (u ∷ us) columns (hu, h) declared = elim (Bool-cases (u == columns)) [
  | inl same ↦ subst P ((list_beq_iff u columns).0 same) hu
  | inr other ↦ All-contains P us columns h (ground arith)
]

module _ {Number Document : Type 0} (json : JsonText Number Document)
    (schema : TableSchemaHint) where
  -- No two rows have the same key under a constraint.
  unfoldable pub IsDistinct : Map Text (StoredRow Number Document) → Type 0
  IsDistinct rows =
      (columns : List Text)
      → contains (unique_columns schema) columns ≡ true
      → (v j k : Text) → row_has_key json schema rows columns v j ≡ true
      → row_has_key json schema rows columns v k ≡ true
      → j ≡ k

  -- Row keys and unique keys are distinct, and the index holds them.
  pub record IsSound (s : InsertState Number Document) : Type 0 where
    pub indexed : IsIndexed json schema s
    pub distinct : IsDistinct s.rows

  row_has_key-insert :
      (rows : Map Text (StoredRow Number Document)) (key : Text)
      (stored : StoredRow Number Document) (columns : List Text) (v k : Text)
      → row_has_key json schema (insert key stored rows) columns v k ≡ (
          if key == k
          then has_key json schema stored.row_data columns v
          else row_has_key json schema rows columns v k)
  row_has_key-insert rows key stored columns v k =
      rw (lookup-insert key k stored rows) (ground arith)

  row_has_key-without :
      (keys : List Text) (rows rows' : Map Text (StoredRow Number Document)) (columns : List Text)
      (v k : Text)
      → lookup k rows' ≡ (if contains keys k then none else lookup k rows)
      → row_has_key json schema rows' columns v k ≡ true
      → row_has_key json schema rows columns v k ≡ true
  row_has_key-without keys rows rows' columns v k without h = elim (Bool-cases (contains keys k)) [
    | inl gone ↦ let absent = rw gone at (rw without at h) in cc
    | inr kept ↦ rw kept at (rw without at h)
  ]

  insert-IsDistinct :
      (rows : Map Text (StoredRow Number Document)) (key : Text)
      (stored : StoredRow Number Document)
      → IsDistinct rows
      → ((columns : List Text)
          → contains (unique_columns schema) columns ≡ true
          → (v k : Text) → has_key json schema stored.row_data columns v ≡ true
          → row_has_key json schema rows columns v k ≡ false)
      → IsDistinct (insert key stored rows)
  unfolding IsDistinct
  insert-IsDistinct rows key stored inv free columns declared v j k hj hk = ground (
    arith,
    row_has_key-insert rows key stored columns v j,
    row_has_key-insert rows key stored columns v k,
    free columns declared v j,
    free columns declared v k,
    inv columns declared v j k,
    list_beq_iff key j,
    list_beq_iff key k,
  )

  -- Rows of which some are removed stay distinct.
  without-IsDistinct :
      (keys : List Text) (rows rows' : Map Text (StoredRow Number Document))
      → ((k : Text) → lookup k rows' ≡ (if contains keys k then none else lookup k rows))
      → IsDistinct rows
      → IsDistinct rows'
  unfolding IsDistinct
  without-IsDistinct keys rows rows' without inv columns declared v j k hj hk =
      inv columns declared v j k (row_has_key-without keys rows rows' columns v j (without j) hj)
        (row_has_key-without keys rows rows' columns v k (without k) hk)

  module _ (parts : InsertParts Number Document) (table : Text) (now : ℕ) where
    -- A row stored under a free row key, with unique keys that no row has.
    store_row-IsSound :
        (key : Text) (stored : StoredRow Number Document) (s : InsertState Number Document)
        {next : InsertState Number Document}
        → IsSound s
        → lookup key s.rows ≡ none
        → ((columns : List Text)
            → contains (unique_columns schema) columns ≡ true
            → (v k : Text) → has_key json schema stored.row_data columns v ≡ true
            → row_has_key json schema s.rows columns v k ≡ false)
        → store_row json parts table (some schema) now key stored s ≡ ok next
        → IsSound next
    store_row-IsSound key stored s sound free fresh run =
        let (indexed, rows) =
          store_row-IsIndexed json schema parts table now key stored s sound.indexed free run in
        record {
          indexed = indexed;
          distinct =
              subst IsDistinct (sym rows)
                (insert-IsDistinct s.rows key stored sound.distinct fresh);
        }

    -- A row for which the existing rows are no conflict is stored.
    store_stored_row-IsSound :
        (row_id : Value Number Document) (row : Row Number Document)
        (s : InsertState Number Document) {next : InsertState Number Document}
        → All (λ columns. all is_stored_column columns ≡ true) (unique_columns schema)
        → IsSound s
        → lookup (json.value_text row_id) s.rows ≡ none
        → ((columns : List Text)
            → contains (unique_columns schema) columns ≡ true
            → (v k : Text) → has_key json schema row columns v ≡ true
            → row_has_key json schema s.rows columns v k ≡ false)
        → store_row json parts table
            (some schema)
            now
            (json.value_text row_id)
            (stored_row json parts table (some schema) now row_id row)
            s
          ≡ ok next
        → IsSound next
    store_stored_row-IsSound row_id row s kept sound free fresh run =
        store_row-IsSound (json.value_text row_id)
          (stored_row json parts table (some schema) now row_id row) s sound free
          (λ columns declared v k h. fresh columns declared v k (
            rw
              (sym (
                schema_unique_key-retain json schema row columns (
                  All-contains (λ columns. all is_stored_column columns ≡ true)
                    (unique_columns schema) columns kept declared)))
              h))
          run

    resolve_conflicts-IsSound :
        (options : InsertRowsOptions) (row_id : Value Number Document) (row : Row Number Document)
        (s : InsertState Number Document) {next : InsertState Number Document}
        → options.updates ≡ false
        → All (λ columns. all is_stored_column columns ≡ true) (unique_columns schema)
        → IsSound s
        → resolve_conflicts json parts table
            (some schema)
            now
            options
            row_id
            row
            (conflicts_of json parts table (some schema) now row_id row s)
            s
          ≡ ok next
        → IsSound next
    unfolding resolve_conflicts ignore_row
    resolve_conflicts-IsSound options row_id row s plain kept sound run =
        let conflicts = conflicts_of json parts table (some schema) now row_id row s in
        elim (Bool-cases options.ignore) [
          | inl ignored ↦ subst IsSound (ok_injective (rw ignored at (rw plain at run))) (record {
            indexed = record { unique = sound.indexed.unique; indexed = sound.indexed.indexed };
            distinct = sound.distinct;
          })
          | inr not_ignored ↦ elim (Bool-cases options.replace) [
            | inl replaces ↦
                let (between, removal, rest) =
                  >>=-eq-ok (remove_conflicts json parts table (some schema) now conflicts s) _
                    (rw replaces at (rw not_ignored at (rw plain at run))) in
                let without =
                  remove_conflicts-IsIndexed json schema parts table now conflicts s sound.indexed
                    removal in
                let sound' : IsSound between = record {
                  indexed = without.0;
                  distinct =
                      without-IsDistinct conflicts s.rows between.rows without.1 sound.distinct;
                } in
                store_stored_row-IsSound row_id row between kept sound'
                  (free_without json schema parts table now row_id row s between without)
                  (fresh_without json schema parts table now row_id row s between sound.indexed
                    without)
                  rest
            | inr plain_insert ↦
                let refused = rw plain_insert at (rw not_ignored at (rw plain at run)) in
                elim (Bool-cases (contains conflicts (json.value_text row_id))) [
                  | inl same_row ↦ absurd (err≢ok (rw same_row at refused))
                  | inr same_key ↦ absurd (err≢ok (rw same_key at refused))
                ]
          ]
        ]

    -- After a row is placed in a table whose row keys and unique keys are distinct, by a statement
    -- without ON DUPLICATE KEY UPDATE, they are distinct still, and the statement's index holds them.
    pub place_row-IsSound :
        (options : InsertRowsOptions) (row_id : Value Number Document) (row : Row Number Document)
        (s : InsertState Number Document) {next : InsertState Number Document}
        → options.updates ≡ false
        → All (λ columns. all is_stored_column columns ≡ true) (unique_columns schema)
        → IsSound s
        → place_row json parts table (some schema) now options row_id row s ≡ ok next
        → IsSound next
    unfolding place_row
    place_row-IsSound options row_id row s plain kept sound run =
        let conflicts = conflicts_of json parts table (some schema) now row_id row s in
        elim (Bool-cases (is_empty conflicts)) [
          | inl none_left ↦
              let without : IsWithout json schema parts table now conflicts s s =
                (sound.indexed, λ k. rw (contains-is_empty conflicts k none_left) refl) in
              store_stored_row-IsSound row_id row s kept sound
                (free_without json schema parts table now row_id row s s without)
                (fresh_without json schema parts table now row_id row s s sound.indexed without)
                (rw none_left at run)
          | inr found ↦
              resolve_conflicts-IsSound options row_id row s plain kept sound (rw found at run)
        ]

    -- When a statement without ON DUPLICATE KEY UPDATE has placed its rows in a table in which no two
    -- rows share a row key or a unique key, none do after it, and the statement's index of unique keys
    -- holds those of the rows. The columns of the constraints are stored ones: their names have no dot
    -- and no leading `@`.
    pub place_rows-IsSound :
        (options : InsertRowsOptions) (rows : List (Value Number Document × Row Number Document))
        (s : InsertState Number Document) {next : InsertState Number Document}
        → options.updates ≡ false
        → All (λ columns. all is_stored_column columns ≡ true) (unique_columns schema)
        → IsSound s
        → place_rows json parts table (some schema) now options rows s ≡ ok next
        → IsSound next
    unfolding place_rows
    place_rows-IsSound options [] s plain kept sound run = subst IsSound (ok_injective run) sound
    place_rows-IsSound options ((row_id, row) ∷ rows) s plain kept sound run =
        let (between, first, rest) =
          >>=-eq-ok (place_row json parts table (some schema) now options row_id row s) _ run in
        place_rows-IsSound options rows between plain kept
          (place_row-IsSound options row_id row s plain kept sound first) rest
