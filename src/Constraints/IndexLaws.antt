-- ===== src/Constraints/IndexLaws.antt =====
-- The index of unique keys follows the rows, and finds the conflicts that a scan finds
-- (src/sql/engine/dml.rs).
use my_sqweel.Prelude.{
  Text, List, [], ◌∷◌, Option, none, some, Bool, true, false, ◌&&◌, ◌||◌, if◌then◌else◌, ◌≡◌, refl,
  sym, arith, Map, lookup, insert, remove, lookup-insert, lookup-remove, lookup-cons, contains,
  contains-extend, contains-add, add, extend, beq_refl, is_some_and, unwrap_or_default, ◌==◌,
  nat_eq, list_eq, option_eq, list_beq_iff, UniqueKeys, Bool-cases, inl, inr,
}
use my_sqweel.Constraints.Schema.{Row, JsonText, TableSchemaHint, StoredRow}
use my_sqweel.Constraints.UniqueKeys.{schema_unique_key, unique_columns}
use my_sqweel.Constraints.UniqueLookup.{
  UniqueLookup, add_key, build_values, build_columns, build_unique_lookup, add_to_unique_lookup,
  remove_from_unique_lookup, keys_at, keys_under, conflicts_by_lookup, scan_rows_for,
  conflicts_by_scan, same_row_key, find_conflict_keys, find_conflict_keys_with_lookup,
}
use my_sqweel.Constraints.LookupLaws.{
  has_key, contains-add_value, keys_at_lem, keys_at-insert, contains-add_columns,
  contains-remove_columns,
}

contains-add_key :
    (key : Option Text) (primary_key : Text) (values : Map Text (List Text)) (v k : Text)
    → contains (unwrap_or_default (lookup v (add_key key primary_key values))) k ≡ (
        contains (unwrap_or_default (lookup v values)) k || ((key == some v) && (primary_key == k)))
unfolding add_key
contains-add_key none primary_key values v k = ground arith
contains-add_key (some value) primary_key values v k =
    contains-add_value value primary_key values v k

contains-add_when :
    (hit : Bool) (j : Text) (s : List Text) (k : Text)
    → contains (if hit then add j s else s) k ≡ (contains s k || (hit && (j == k)))
contains-add_when true j s k = contains-add j s k
contains-add_when false j s k = ground arith

module _ {Number Document : Type 0} (json : JsonText Number Document)
    (schema : TableSchemaHint) where
  -- Whether the row under a row key has a unique key.
  abbrev pub row_has_key : Map Text (StoredRow Number Document) → List Text → Text → Text → Bool
  row_has_key rows columns v k =
      is_some_and (lookup k rows) (λ row. has_key json schema row.row_data columns v)

  -- The index holds exactly the keys of the rows.
  unfoldable pub IsIndexOf : Map Text (StoredRow Number Document) → UniqueLookup → Type 0
  IsIndexOf rows index =
      (columns : List Text)
      → contains (unique_columns schema) columns ≡ true
      → (v k : Text) → contains (keys_at index columns v) k ≡ row_has_key rows columns v k

  contains-build_values :
      (columns : List Text) (values : Map Text (List Text))
      (rows : Map Text (StoredRow Number Document)) (v k : Text)
      → UniqueKeys rows
      → contains (unwrap_or_default (lookup v (build_values json schema columns values rows))) k
        ≡ (contains (unwrap_or_default (lookup v values)) k || row_has_key rows columns v k)
  unfolding build_values
  contains-build_values columns values [] v k u = unfold lookup in ground arith
  contains-build_values columns values ((j, row) ∷ rows) v k (fresh, u) =
      let key = schema_unique_key json schema row.row_data columns in
      elim (Bool-cases (j == k)) [
        | inl same ↦
            rw
              (
                contains-build_values columns (add_key key j values) rows v k u,
                contains-add_key key j values v k,
                lookup-cons k j row rows,
                same,
                sym ((list_beq_iff j k).0 same),
                fresh,
              )
              (ground arith)
        | inr other ↦
            rw
              (
                contains-build_values columns (add_key key j values) rows v k u,
                contains-add_key key j values v k,
                lookup-cons k j row rows,
                other,
              )
              (ground arith)
      ]

  contains-build_columns :
      (rows : Map Text (StoredRow Number Document)) (us : List (List Text)) (index : UniqueLookup)
      (columns : List Text) (v k : Text)
      → UniqueKeys rows
      → contains (keys_at (build_columns json schema rows us index) columns v) k ≡ (
          contains (keys_at index columns v) k
          || (contains us columns && row_has_key rows columns v k))
  unfolding build_columns
  contains-build_columns rows [] index columns v k u = ground arith
  contains-build_columns rows (c ∷ us) index columns v k u =
      let old = unwrap_or_default (lookup c index) in
      let values = build_values json schema c old rows in
      elim (Bool-cases (c == columns)) [
        | inl same ↦
            rw
              (
                contains-build_columns rows us (insert c values index) columns v k u,
                keys_at-insert c values index columns v,
                same,
                contains-build_values c old rows v k u,
                sym ((list_beq_iff c columns).0 same),
                sym (keys_at_lem index c v),
              )
              (ground arith)
        | inr other ↦
            rw
              (
                contains-build_columns rows us (insert c values index) columns v k u,
                keys_at-insert c values index columns v,
                other,
              )
              (ground arith)
      ]

  -- The index built at the start of the statement holds the keys of the table's rows.
  pub build_unique_lookup-IsIndexOf :
      (rows : Map Text (StoredRow Number Document))
      → UniqueKeys rows
      → IsIndexOf rows (build_unique_lookup json schema rows)
  unfolding IsIndexOf
  build_unique_lookup-IsIndexOf rows u columns declared v k =
      rw (contains-build_columns rows (unique_columns schema) [] columns v k u, declared)
        (unfold keys_at lookup in refl)

  -- A row stored under a free row key is added to the index.
  pub add_to_unique_lookup-IsIndexOf :
      (rows : Map Text (StoredRow Number Document)) (index : UniqueLookup) (primary_key : Text)
      (row : StoredRow Number Document)
      → IsIndexOf rows index
      → lookup primary_key rows ≡ none
      → IsIndexOf
          (insert primary_key row rows)
          (add_to_unique_lookup json index (some schema) primary_key row.row_data)
  unfolding IsIndexOf
  add_to_unique_lookup-IsIndexOf rows index primary_key row inv free columns declared v k =
      rw
        (
          contains-add_columns json schema primary_key row.row_data (unique_columns schema) index
              columns v k,
          inv columns declared v k,
          declared,
          lookup-insert primary_key k row rows,
        )
        (elim (Bool-cases (primary_key == k)) [
          | inl same ↦ rw (same, sym ((list_beq_iff primary_key k).0 same), free) (ground arith)
          | inr other ↦ rw other (ground arith)
        ])

  -- A row that is removed leaves the index.
  pub remove_from_unique_lookup-IsIndexOf :
      (rows : Map Text (StoredRow Number Document)) (index : UniqueLookup) (primary_key : Text)
      (row : StoredRow Number Document)
      → IsIndexOf rows index
      → lookup primary_key rows ≡ some row
      → IsIndexOf
          (remove primary_key rows)
          (remove_from_unique_lookup json index (some schema) primary_key row.row_data)
  unfolding IsIndexOf
  remove_from_unique_lookup-IsIndexOf rows index primary_key row inv here columns declared v k =
      rw
        (
          contains-remove_columns json schema primary_key row.row_data (unique_columns schema) index
              columns v k,
          inv columns declared v k,
          declared,
          lookup-remove primary_key k rows,
        )
        (elim (Bool-cases (primary_key == k)) [
          | inl same ↦ rw (same, sym ((list_beq_iff primary_key k).0 same), here) (ground arith)
          | inr other ↦ rw other (ground arith)
        ])

  -- The rows other than one that share a unique key with a row.
  contains-scan_rows_for :
      (columns : List Text) (incoming : Option Text) (rows : Map Text (StoredRow Number Document))
      (conflicts : List Text) (k : Text)
      → UniqueKeys rows
      → contains (scan_rows_for json schema columns incoming rows conflicts) k
        ≡ (contains conflicts k || is_some_and incoming (λ v. row_has_key rows columns v k))
  unfolding scan_rows_for
  contains-scan_rows_for columns none rows conflicts k u = ground arith
  contains-scan_rows_for columns (some v) [] conflicts k u = unfold lookup in ground arith
  contains-scan_rows_for columns (some v) ((j, row) ∷ rows) conflicts k (fresh, u) =
      let hit = has_key json schema row.row_data columns v in
      elim (Bool-cases (j == k)) [
        | inl same ↦
            rw
              (
                contains-scan_rows_for columns (some v) rows
                    (if hit then add j conflicts else conflicts) k u,
                contains-add_when hit j conflicts k,
                lookup-cons k j row rows,
                same,
                sym ((list_beq_iff j k).0 same),
                fresh,
              )
              (ground arith)
        | inr other ↦
            rw
              (
                contains-scan_rows_for columns (some v) rows
                    (if hit then add j conflicts else conflicts) k u,
                contains-add_when hit j conflicts k,
                lookup-cons k j row rows,
                other,
              )
              (ground arith)
      ]

  contains-keys_under :
      (rows : Map Text (StoredRow Number Document)) (index : UniqueLookup) (columns : List Text)
      (key : Option Text) (k : Text)
      → ((v : Text)
          → (w : Text) → contains (keys_at index columns v) w ≡ row_has_key rows columns v w)
      → contains (keys_under index columns key) k
        ≡ is_some_and key (λ v. row_has_key rows columns v k)
  contains-keys_under rows index columns none k inv = refl
  contains-keys_under rows index columns (some v) k inv = inv v k

  -- The two ways to find conflicts accumulate the same rows.
  same_conflicts :
      (row : Row Number Document) (rows : Map Text (StoredRow Number Document))
      (index : UniqueLookup) (us : List (List Text)) (by_lookup by_scan : List Text) (k : Text)
      → UniqueKeys rows
      → ((columns : List Text)
          → contains us columns ≡ true
          → (v w : Text) → contains (keys_at index columns v) w ≡ row_has_key rows columns v w)
      → contains by_lookup k ≡ contains by_scan k
      → contains (conflicts_by_lookup json schema row index us by_lookup) k
        ≡ contains (conflicts_by_scan json schema row rows us by_scan) k
  unfolding conflicts_by_lookup conflicts_by_scan
  same_conflicts row rows index [] by_lookup by_scan k u inv same = same
  same_conflicts row rows index (c ∷ us) by_lookup by_scan k u inv same =
      let key = schema_unique_key json schema row c in
      let here = inv c (rw (beq_refl c) refl) in
      same_conflicts row rows index us (extend by_lookup (keys_under index c key))
        (scan_rows_for json schema c key rows by_scan) k u
        (λ columns declared. inv columns (ground arith))
        (rw
          (
            contains-extend by_lookup (keys_under index c key) k,
            same,
            contains-scan_rows_for c key rows by_scan k u,
            contains-keys_under rows index c key k here,
          )
          refl)

  -- While the index of a statement holds the keys of the rows, the conflicts of a new row found in the
  -- index are those that a scan of all rows finds.
  pub find_conflict_keys_with_lookup-find_conflict_keys :
      (row_key : Text) (row : Row Number Document) (rows : Map Text (StoredRow Number Document))
      (index : UniqueLookup) (k : Text)
      → IsIndexOf rows index
      → UniqueKeys rows
      → contains (find_conflict_keys_with_lookup json row_key row rows (some schema) index) k
        ≡ contains (find_conflict_keys json (some schema) row_key row rows) k
  unfolding IsIndexOf
  find_conflict_keys_with_lookup-find_conflict_keys row_key row rows index k inv u =
      same_conflicts row rows index (unique_columns schema) (same_row_key json row_key rows)
        (same_row_key json row_key rows) k u inv refl
