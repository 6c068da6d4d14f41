-- ===== src/Constraints/ReferenceLaws.antt =====
-- When the references of a row are accepted (src/sql/engine/dml.rs).
use my_sqweel.Prelude.{
  Text, List, [], ◌∷◌, Bool, ◌||◌, ◌≡◌, refl, Map, lookup, any, any-lookup, all, nat_eq, list_eq,
  Bool-cases, Option-cases, inl, inr, ok, is_ok,
}
use my_sqweel.Constraints.Schema.{
  Value, Row, is_null, JsonText, ForeignKeyHint, TableSchemaHint, StoredRow,
}
use my_sqweel.Constraints.Cascade.{ReferenceParts}
use my_sqweel.Constraints.References.{
  local_values, refers_to, parent_key, match_by_scan, parent_rows, find_parent, check_reference,
  check_references, declared_keys, validate_foreign_key_row,
}
use my_sqweel.Constraints.ValidateLaws.{is_ok->>}

module _ {Number Document : Type 0} (json : JsonText Number Document)
    (view : Text → Row Number Document → Row Number Document)
    (mysql_eq : Value Number Document → Value Number Document → Bool)
    (array_value : List (Value Number Document) → Value Number Document) where
  -- Every row can be shown.
  abbrev parts : ReferenceParts Number Document
  parts = record { current_schema_row = λ table row. ok (view table row); mysql_eq = mysql_eq }

  -- Whether some parent has the values.
  abbrev pub has_parent :
      ForeignKeyHint → List (Value Number Document) → Map Text (StoredRow Number Document) → Bool
  has_parent foreign_key locals parents =
      any
        (λ (p : Text × StoredRow Number Document).
          refers_to json parts array_value foreign_key.referenced_columns locals
            (view foreign_key.referenced_table p.1.row_data))
        parents

  match_by_scan_lem :
      (foreign_key : ForeignKeyHint) (locals : List (Value Number Document))
      (parents : Map Text (StoredRow Number Document))
      → match_by_scan json parts array_value foreign_key locals parents
        ≡ ok (has_parent foreign_key locals parents)
  unfolding match_by_scan
  match_by_scan_lem foreign_key locals [] = refl
  match_by_scan_lem foreign_key locals ((key, parent) ∷ parents) =
      elim (Bool-cases (
        refers_to json parts array_value foreign_key.referenced_columns locals
          (view foreign_key.referenced_table parent.row_data))) [
            | inl hit ↦ rw hit refl
            | inr miss ↦ rw (miss, match_by_scan_lem foreign_key locals parents) refl
          ]

  module _ (schemas : Map Text TableSchemaHint)
      (rows : Map Text (Map Text (StoredRow Number Document))) where
    find_parent_lem :
        (foreign_key : ForeignKeyHint) (locals : List (Value Number Document))
        → find_parent json parts array_value schemas rows foreign_key locals
          ≡ ok (
              has_parent foreign_key locals
                (parent_rows json parts array_value schemas rows foreign_key))
    unfolding find_parent
    find_parent_lem foreign_key locals =
        let key =
          parent_key json parts array_value foreign_key locals
            (lookup foreign_key.referenced_table schemas) in
        let parents = parent_rows json parts array_value schemas rows foreign_key in
        elim (Option-cases key) [
          | inl no_key ↦ rw no_key (match_by_scan_lem foreign_key locals parents)
          | inr (k, has_key) ↦ elim (Option-cases (lookup k parents)) [
            | inl absent ↦ rw (has_key, absent) (match_by_scan_lem foreign_key locals parents)
            | inr (parent, present) ↦
                elim (Bool-cases (
                  refers_to json parts array_value foreign_key.referenced_columns locals
                    (view foreign_key.referenced_table parent.row_data))) [
                      | inl hit ↦
                          rw
                            (
                              has_key,
                              present,
                              hit,
                              any-lookup
                                  (λ (p : Text × StoredRow Number Document).
                                    refers_to json parts array_value foreign_key.referenced_columns
                                      locals (view foreign_key.referenced_table p.1.row_data))
                                  parents k parent present hit,
                            )
                            refl
                      | inr miss ↦
                          rw (has_key, present, miss) (match_by_scan_lem foreign_key locals parents)
                    ]
          ]
        ]

    -- A foreign key of a row holds: a value is null, or a parent has the values.
    abbrev pub reference_holds : Row Number Document → ForeignKeyHint → Bool
    reference_holds row foreign_key =
        let locals = local_values json parts array_value foreign_key row in
        any is_null locals
        || has_parent foreign_key locals
            (parent_rows json parts array_value schemas rows foreign_key)

    check_reference_lem :
        (foreign_key : ForeignKeyHint) (row : Row Number Document)
        → is_ok (
            check_reference json parts array_value schemas rows foreign_key
              (local_values json parts array_value foreign_key row))
          ≡ reference_holds row foreign_key
    unfolding check_reference
    check_reference_lem foreign_key row =
        let locals = local_values json parts array_value foreign_key row in
        let parents = parent_rows json parts array_value schemas rows foreign_key in
        elim (Bool-cases (any is_null locals)) [
          | inl has_null ↦ rw has_null refl
          | inr no_null ↦ elim (Bool-cases (has_parent foreign_key locals parents)) [
            | inl found ↦ rw (no_null, find_parent_lem foreign_key locals, found) refl
            | inr missing ↦ rw (no_null, find_parent_lem foreign_key locals, missing) refl
          ]
        ]

    check_references_lem :
        (keys : List ForeignKeyHint) (row : Row Number Document)
        → is_ok (check_references json parts array_value schemas rows keys row)
          ≡ all (reference_holds row) keys
    unfolding check_references
    check_references_lem [] row = refl
    check_references_lem (foreign_key ∷ keys) row =
        rw
          (
            is_ok->>
                (check_reference json parts array_value schemas rows foreign_key
                  (local_values json parts array_value foreign_key row))
                (check_references json parts array_value schemas rows keys row),
            check_reference_lem foreign_key row,
            check_references_lem keys row,
          )
          refl

    -- When every row can be shown, a row is accepted exactly when, for each foreign key that its table
    -- declares, a value is null or some row of the referenced table has the values: the look at the
    -- row under the parent's row key changes nothing in the outcome.
    pub validate_foreign_key_row-reference_holds :
        (table : Text) (row : Row Number Document)
        → is_ok (validate_foreign_key_row json parts array_value schemas rows table row)
          ≡ all
              (reference_holds row)
              (declared_keys json parts array_value schemas rows (lookup table schemas))
    validate_foreign_key_row-reference_holds table row =
        check_references_lem
          (declared_keys json parts array_value schemas rows (lookup table schemas)) row
