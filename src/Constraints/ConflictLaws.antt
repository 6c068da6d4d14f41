-- ===== src/Constraints/ConflictLaws.antt =====
-- What it means that a row is in conflict with none (src/sql/engine/dml.rs).
use my_sqweel.Prelude.{
  ℕ, Text, List, [], ◌∷◌, Option, none, some, true, false, ◌||◌, ◌≡◌, refl, sym, ◌∙◌, arith, Map,
  lookup, lookup-cons, contains, contains-extend, any, any-contains, all, retain, extend, ◌==◌,
  nat_eq, list_eq, option_eq, list_beq_iff, option_beq_iff, Bool-cases, Option-cases, inl, inr,
  beq_refl,
}
use my_sqweel.Constraints.Schema.{Row, Value, JsonText, TableSchemaHint, StoredRow}
use my_sqweel.Constraints.UniqueKeys.{
  key_parts, unique_key_with_prefixes, schema_unique_key, unique_columns, index_lengths,
}
use my_sqweel.Constraints.UniqueLookup.{
  UniqueLookup, keys_under, conflicts_by_lookup, same_row_key, find_conflict_keys_with_lookup,
}
use my_sqweel.Constraints.LookupLaws.{has_key}
use my_sqweel.Constraints.IndexLaws.{IsIndexOf, row_has_key}
use my_sqweel.Constraints.Storing.{is_stored_column}

module _ {Number Document : Type 0} (json : JsonText Number Document)
    (schema : TableSchemaHint) where
  contains-conflicts_by_lookup :
      (row : Row Number Document) (index : UniqueLookup) (us : List (List Text))
      (conflicts : List Text) (k : Text)
      → contains (conflicts_by_lookup json schema row index us conflicts) k ≡ (
          contains conflicts k
          || any
              (λ columns.
                contains (keys_under index columns (schema_unique_key json schema row columns)) k)
              us)
  unfolding conflicts_by_lookup
  contains-conflicts_by_lookup row index [] conflicts k = ground arith
  contains-conflicts_by_lookup row index (c ∷ us) conflicts k =
      let keys = keys_under index c (schema_unique_key json schema row c) in
      rw
        (
          contains-conflicts_by_lookup row index us (extend conflicts keys) k,
          contains-extend conflicts keys k,
        )
        (ground arith)

  module _ (row_key : Text) (row : Row Number Document)
      (rows : Map Text (StoredRow Number Document)) (index : UniqueLookup) (k : Text)
      (free : contains (find_conflict_keys_with_lookup json row_key row rows (some schema) index) k
        ≡ false) where
    conflict_split :
        (contains (same_row_key json row_key rows) k
          || any
              (λ columns.
                contains (keys_under index columns (schema_unique_key json schema row columns)) k)
              (unique_columns schema))
        ≡ false
    conflict_split =
        sym (
          contains-conflicts_by_lookup row index (unique_columns schema)
            (same_row_key json row_key rows) k)
        ∙ free

    -- A row that is not in conflict shares no unique key with the incoming row.
    pub no_conflict-row_has_key :
        (columns : List Text) (v : Text)
        → IsIndexOf json schema rows index
        → contains (unique_columns schema) columns ≡ true
        → has_key json schema row columns v ≡ true
        → row_has_key json schema rows columns v k ≡ false
    unfolding IsIndexOf
    no_conflict-row_has_key columns v inv declared incoming =
        elim (Bool-cases (row_has_key json schema rows columns v k)) [
          | inr absent ↦ absent
          | inl present ↦
              let key = schema_unique_key json schema row columns in
              let hit =
                any-contains
                  (λ c. contains (keys_under index c (schema_unique_key json schema row c)) k)
                  (unique_columns schema) columns declared
                  (rw ((option_beq_iff key (some v)).0 incoming)
                    (inv columns declared v k ∙ present)) in
              ground (arith, conflict_split, hit)
        ]

  -- A row key without conflict is free.
  pub no_conflict-lookup :
      (row_key : Text) (row : Row Number Document) (rows : Map Text (StoredRow Number Document))
      (index : UniqueLookup)
      → contains (find_conflict_keys_with_lookup json row_key row rows (some schema) index) row_key
        ≡ false
      → lookup row_key rows ≡ none
  no_conflict-lookup row_key row rows index free = elim (Option-cases (lookup row_key rows)) [
    | inl absent ↦ absent
    | inr (existing, present) ↦
        let split = conflict_split row_key row rows index row_key free in
        let here : contains (same_row_key json row_key rows) row_key ≡ true =
          rw (present, beq_refl row_key) refl in
        absurd (ground (arith, split, here))
  ]

other_column :
    (j column : Text)
    → is_stored_column j ≡ false
    → is_stored_column column ≡ true
    → (j == column) ≡ false
other_column j column goes kept = elim (Bool-cases (j == column)) [
  | inl same ↦ let equal = (list_beq_iff j column).0 same in cc
  | inr other ↦ other
]

module _ {Number Document : Type 0} (json : JsonText Number Document) where
  lookup-retain_stored :
      (column : Text) (row : Row Number Document)
      → is_stored_column column ≡ true
      → lookup column (retain (λ (p : Text × Value Number Document). is_stored_column p.0) row)
        ≡ lookup column row
  lookup-retain_stored column [] kept = refl
  lookup-retain_stored column ((j, v) ∷ row) kept =
      let kept_rows = retain (λ (p : Text × Value Number Document). is_stored_column p.0) row in
      elim (Bool-cases (is_stored_column j)) [
        | inl stays ↦
            rw
              (
                stays,
                lookup-cons column j v kept_rows,
                lookup-cons column j v row,
                lookup-retain_stored column row kept,
              )
              refl
        | inr goes ↦
            rw
              (
                goes,
                lookup-cons column j v row,
                other_column j column goes kept,
                lookup-retain_stored column row kept,
              )
              refl
      ]

  -- A row's keys do not depend on the columns that are not stored.
  key_parts-retain :
      (row : Row Number Document) (columns : List Text) (lengths : List (Option ℕ))
      → all is_stored_column columns ≡ true
      → key_parts json
          (retain (λ (p : Text × Value Number Document). is_stored_column p.0) row)
          columns
          lengths
        ≡ key_parts json row columns lengths
  key_parts-retain row [] lengths kept = refl
  key_parts-retain row (c ∷ cs) [] kept =
      rw (lookup-retain_stored c row (ground arith), key_parts-retain row cs [] (ground arith)) refl
  key_parts-retain row (c ∷ cs) (n ∷ lengths) kept =
      rw (lookup-retain_stored c row (ground arith), key_parts-retain row cs lengths (ground arith))
        refl

  pub schema_unique_key-retain :
      (schema : TableSchemaHint) (row : Row Number Document) (columns : List Text)
      → all is_stored_column columns ≡ true
      → schema_unique_key json schema
          (retain (λ (p : Text × Value Number Document). is_stored_column p.0) row)
          columns
        ≡ schema_unique_key json schema row columns
  unfolding schema_unique_key unique_key_with_prefixes
  schema_unique_key-retain schema row columns kept =
      rw (key_parts-retain row columns (index_lengths schema.indexes columns) kept) refl
