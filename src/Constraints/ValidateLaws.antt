-- ===== src/Constraints/ValidateLaws.antt =====
-- The check of unique keys passes exactly when they are distinct (src/sql/engine/dml.rs).
use my_sqweel.Prelude.{
  Text, List, [], ◌∷◌, Option, none, some, true, false, not, ◌&&◌, ◌||◌, if◌then◌else◌, ◌≡◌, ◌↔◌,
  refl, sym, ◌∙◌, arith, Map, lookup, lookup-insert, lookup-cons, contains, contains-append,
  is_empty, is_some, is_none_or, ◌==◌, nat_eq, list_eq, option_eq, list_beq_iff, option_beq_iff,
  UniqueKeys, Bool-cases, Option-cases, inl, inr, beq_refl, Result, ok, err, ◌>>◌, is_ok,
}
use mathlib.Core.Path.{subst}
use my_sqweel.Constraints.Schema.{Row, Value, JsonText, TableSchemaHint, StoredRow}
use my_sqweel.Constraints.UniqueKeys.{schema_unique_key, unique_columns}
use my_sqweel.Constraints.IndexLaws.{row_has_key}
use my_sqweel.Constraints.InsertLaws.{IsDistinct}
use my_sqweel.Constraints.Validate.{
  checked_constraints, unless_seen, check_row, see_row, check_rows, check_constraints,
  validate_unique_constraints,
}

pub is_ok->> :
    {E : Type 0} (first next : Result E (Unit {0}))
    → is_ok (first >> next) ≡ (is_ok first && is_ok next)
is_ok->> (ok a) next = refl
is_ok->> (err e) next = refl

module _ {Number Document : Type 0} (json : JsonText Number Document)
    (json_scalar_to_string : Value Number Document → Text) (schema : TableSchemaHint) where
  is_ok-unless_seen :
      (columns : List Text) (found : Option (Row Number Document))
      → is_ok (unless_seen json json_scalar_to_string schema columns found) ≡ not (is_some found)
  is_ok-unless_seen columns none = refl
  is_ok-unless_seen columns (some previous) = refl

  is_ok-check_row :
      (columns : List Text) (key : Option Text) (seen : Map Text (Row Number Document))
      → is_ok (check_row json json_scalar_to_string schema columns key seen)
        ≡ is_none_or key (λ v. not (is_some (lookup v seen)))
  is_ok-check_row columns none seen = refl
  is_ok-check_row columns (some key) seen = is_ok-unless_seen columns (lookup key seen)

  -- Whether a key is seen after a row.
  is_some-see_row :
      (key : Option Text) (row : Row Number Document) (seen : Map Text (Row Number Document))
      (v : Text)
      → is_some (lookup v (see_row json json_scalar_to_string key row seen))
        ≡ (is_some (lookup v seen) || (key == some v))
  is_some-see_row none row seen v = ground arith
  is_some-see_row (some key) row seen v = rw (lookup-insert key v row seen) (ground arith)

  -- The rows have distinct keys, none of which is seen.
  IsNew : List Text → Map Text (Row Number Document) → Map Text (StoredRow Number Document) → Type 0
  IsNew columns seen rows =
      ((v k : Text)
        → row_has_key json schema rows columns v k ≡ true
        → is_some (lookup v seen) ≡ false)
      × ((v j k : Text)
          → row_has_key json schema rows columns v j ≡ true
          → row_has_key json schema rows columns v k ≡ true
          → j ≡ k)

  row_has_key-cons :
      (p : Text) (row : StoredRow Number Document) (rows : Map Text (StoredRow Number Document))
      (columns : List Text) (v k : Text)
      → row_has_key json schema ((p, row) ∷ rows) columns v k ≡ (
          if p == k
          then schema_unique_key json schema row.row_data columns == some v
          else row_has_key json schema rows columns v k)
  row_has_key-cons p row rows columns v k = rw (lookup-cons k p row rows) (ground arith)

  check_rows-IsNew :
      (columns : List Text) (seen : Map Text (Row Number Document))
      (rows : Map Text (StoredRow Number Document))
      → is_ok (check_rows json json_scalar_to_string schema columns seen rows) ≡ true
      → IsNew columns seen rows
  unfolding check_rows IsNew
  check_rows-IsNew columns seen [] passed =
      (λ v k h. unfold lookup in cc, λ v j k h g. unfold lookup in cc)
  check_rows-IsNew columns seen ((p, row) ∷ rows) passed =
      let key = schema_unique_key json schema row.row_data columns in
      let seen' = see_row json json_scalar_to_string key row.row_data seen in
      let split =
        is_ok->> (check_row json json_scalar_to_string schema columns key seen)
          (check_rows json json_scalar_to_string schema columns seen' rows) in
      let first = is_ok-check_row columns key seen in
      let (fresh, distinct) = check_rows-IsNew columns seen' rows (ground (arith, split)) in
      (
        λ v k h. ground (
          arith,
          split,
          first,
          row_has_key-cons p row rows columns v k,
          option_beq_iff key (some v),
          fresh v k,
          is_some-see_row key row.row_data seen v,
        ),
        λ v j k h g. ground (
          arith,
          row_has_key-cons p row rows columns v j,
          row_has_key-cons p row rows columns v k,
          fresh v j,
          fresh v k,
          distinct v j k,
          is_some-see_row key row.row_data seen v,
          list_beq_iff p j,
          list_beq_iff p k,
        ),
      )

  kept_row :
      (p : Text) (row : StoredRow Number Document) (rows : Map Text (StoredRow Number Document))
      (columns : List Text) (v k : Text)
      → row_has_key json schema rows columns v p ≡ false
      → row_has_key json schema rows columns v k ≡ true
      → row_has_key json schema ((p, row) ∷ rows) columns v k ≡ true
  kept_row p row rows columns v k absent here =
      ground (arith, row_has_key-cons p row rows columns v k, list_beq_iff p k)

  IsNew-check_rows :
      (columns : List Text) (seen : Map Text (Row Number Document))
      (rows : Map Text (StoredRow Number Document))
      → UniqueKeys rows
      → IsNew columns seen rows
      → is_ok (check_rows json json_scalar_to_string schema columns seen rows) ≡ true
  unfolding check_rows IsNew
  IsNew-check_rows columns seen [] u new = refl
  IsNew-check_rows columns seen ((p, row) ∷ rows) (unbound, u) (fresh, distinct) =
      let key = schema_unique_key json schema row.row_data columns in
      let seen' = see_row json json_scalar_to_string key row.row_data seen in
      let absent : (v : Text) → row_has_key json schema rows columns v p ≡ false =
        λ v. rw unbound refl in
      let rest = IsNew-check_rows columns seen' rows u (
        λ v k h. ground (
          arith,
          row_has_key-cons p row rows columns v k,
          row_has_key-cons p row rows columns v p,
          fresh v k,
          distinct v p k,
          list_beq_iff p k,
          beq_refl p,
          is_some-see_row key row.row_data seen v,
          absent v,
        ),
        λ v j k h g.
            distinct v j k (kept_row p row rows columns v j (absent v) h)
              (kept_row p row rows columns v k (absent v) g),
      ) in
      rw
        (
          is_ok->> (check_row json json_scalar_to_string schema columns key seen)
              (check_rows json json_scalar_to_string schema columns seen' rows),
          is_ok-check_row columns key seen,
          rest,
        )
        (elim (Option-cases key) [
          | inl no_key ↦ rw no_key refl
          | inr (v, has) ↦
              let here = fresh v p (
                rw (row_has_key-cons p row rows columns v p, beq_refl p, has)
                  (beq_refl (some v))) in
              rw (has, here) refl
        ])

  check_constraints-IsNew :
      (us : List (List Text)) (rows : Map Text (StoredRow Number Document))
      → is_ok (check_constraints json json_scalar_to_string schema us rows) ≡ true
      → (columns : List Text) → contains us columns ≡ true
      → IsNew columns [] rows
  unfolding check_constraints
  check_constraints-IsNew [] rows passed columns declared = cc
  check_constraints-IsNew (u ∷ us) rows passed columns declared =
      let split =
        is_ok->> (check_rows json json_scalar_to_string schema u [] rows)
          (check_constraints json json_scalar_to_string schema us rows) in
      elim (Bool-cases (u == columns)) [
        | inl same ↦
            subst (λ c. IsNew c [] rows) ((list_beq_iff u columns).0 same)
              (check_rows-IsNew u [] rows (ground (arith, split)))
        | inr other ↦ check_constraints-IsNew us rows (ground (arith, split)) columns (ground arith)
      ]

  IsNew-check_constraints :
      (us : List (List Text)) (rows : Map Text (StoredRow Number Document))
      → UniqueKeys rows
      → ((columns : List Text) → contains us columns ≡ true → IsNew columns [] rows)
      → is_ok (check_constraints json json_scalar_to_string schema us rows) ≡ true
  unfolding check_constraints
  IsNew-check_constraints [] rows u new = refl
  IsNew-check_constraints (c ∷ us) rows u new =
      rw
        (
          is_ok->> (check_rows json json_scalar_to_string schema c [] rows)
              (check_constraints json json_scalar_to_string schema us rows),
          IsNew-check_rows c [] rows u (new c (rw (beq_refl c) refl)),
          IsNew-check_constraints us rows u (λ columns h. new columns (ground arith)),
        )
        refl

  -- The constraints that are checked are those that an INSERT respects.
  contains-checked_constraints :
      (columns : List Text)
      → contains (checked_constraints schema) columns ≡ contains (unique_columns schema) columns
  unfolding unique_columns
  contains-checked_constraints columns =
      let key = schema.primary_key in
      elim (Bool-cases (is_empty key)) [
        | inl no_key ↦ rw no_key refl
        | inr some_key ↦ elim (Bool-cases (contains schema.unique key)) [
          | inr fresh ↦ rw (some_key, fresh) refl
          | inl repeated ↦
              rw
                (
                  some_key,
                  repeated,
                  contains-append schema.unique (key ∷ []) columns,
                  contains-append schema.unique [] columns,
                )
                (ground (arith, list_beq_iff key columns))
        ]
      ]

  -- A table passes the check of unique keys exactly when no two of its rows have the same key.
  pub validate_unique_constraints-IsDistinct :
      (rows : Map Text (StoredRow Number Document))
      → UniqueKeys rows
      → (is_ok (validate_unique_constraints json json_scalar_to_string (some schema) rows) ≡ true)
        ↔ IsDistinct json schema rows
  unfolding IsDistinct IsNew
  validate_unique_constraints-IsDistinct rows u = (
    λ passed columns declared.
        (check_constraints-IsNew (checked_constraints schema) rows passed columns
          (contains-checked_constraints columns ∙ declared)).1,
    λ distinct. IsNew-check_constraints (checked_constraints schema) rows u (λ columns declared. (
      λ v k h. unfold lookup in refl,
      distinct columns (sym (contains-checked_constraints columns) ∙ declared),
    )),
  )
