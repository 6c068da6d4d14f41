-- ===== src/Constraints/LookupLaws.antt =====
-- The index of unique keys of an INSERT agrees with the rows (src/sql/engine/dml.rs).
use my_sqweel.Prelude.{
  Text, List, [], ◌∷◌, Option, none, some, Bool, true, false, not, ◌&&◌, ◌||◌, if◌then◌else◌, ◌≡◌,
  refl, sym, arith, Map, lookup, insert, lookup-insert, lookup-remove, contains, contains-add,
  contains-discard, add, discard, is_empty, unwrap_or_default, ◌==◌, nat_eq, list_eq, option_eq,
  list_beq_iff, Bool-cases, Option-cases, inl, inr, beq_refl,
}
use my_sqweel.Constraints.Schema.{Row, JsonText, TableSchemaHint}
use my_sqweel.Constraints.UniqueKeys.{schema_unique_key}
use my_sqweel.Constraints.UniqueLookup.{
  UniqueLookup, add_value, remove_value, add_columns, remove_columns, keys_at, add_entry,
  remove_entry,
}

pub contains-add_value :
    (value primary_key : Text) (values : Map Text (List Text)) (v k : Text)
    → contains (unwrap_or_default (lookup v (add_value value primary_key values))) k
      ≡ (contains (unwrap_or_default (lookup v values)) k || ((value == v) && (primary_key == k)))
unfolding add_value
contains-add_value value primary_key values v k =
    let old = unwrap_or_default (lookup value values) in
    elim (Bool-cases (value == v)) [
      | inl same ↦
          rw
            (
              lookup-insert value v (add primary_key old) values,
              same,
              contains-add primary_key old k,
              (list_beq_iff value v).0 same,
            )
            refl
      | inr other ↦ rw (lookup-insert value v (add primary_key old) values, other) (ground arith)
    ]

pub contains-is_empty : (s : List Text) (k : Text) → is_empty s ≡ true → contains s k ≡ false
contains-is_empty [] k h = refl
contains-is_empty (j ∷ s) k h = cc

lookup-remove_value :
    (value primary_key : Text) (found : Option (List Text)) (values : Map Text (List Text))
    (v : Text)
    → (value == v) ≡ false
    → lookup v (remove_value value primary_key found values) ≡ lookup v values
unfolding remove_value
lookup-remove_value value primary_key none values v other = refl
lookup-remove_value value primary_key (some keys) values v other =
    let left = discard primary_key keys in
    elim (Bool-cases (is_empty left)) [
      | inl none_left ↦ rw (none_left, lookup-remove value v values, other) refl
      | inr some_left ↦ rw (some_left, lookup-insert value v left values, other) refl
    ]

contains-remove_value_same :
    (value primary_key : Text) (found : Option (List Text)) (values : Map Text (List Text))
    (k : Text)
    → lookup value values ≡ found
    → contains (unwrap_or_default (lookup value (remove_value value primary_key found values))) k
      ≡ (contains (unwrap_or_default found) k && not (primary_key == k))
unfolding remove_value
contains-remove_value_same value primary_key none values k h = rw h refl
contains-remove_value_same value primary_key (some keys) values k h =
    let left = discard primary_key keys in
    elim (Bool-cases (is_empty left)) [
      | inl none_left ↦
          rw
            (
              none_left,
              lookup-remove value value values,
              beq_refl value,
              sym (contains-discard primary_key keys k),
              contains-is_empty left k none_left,
            )
            refl
      | inr some_left ↦
          rw (some_left, lookup-insert value value left values, beq_refl value)
            (contains-discard primary_key keys k)
    ]

contains-remove_value :
    (value primary_key : Text) (values : Map Text (List Text)) (v k : Text)
    → contains
        (unwrap_or_default (lookup v (remove_value value primary_key (lookup value values) values)))
        k
      ≡ (contains (unwrap_or_default (lookup v values)) k
          && not ((value == v) && (primary_key == k)))
contains-remove_value value primary_key values v k = elim (Bool-cases (value == v)) [
  | inl same ↦
      rw (same, sym ((list_beq_iff value v).0 same))
        (contains-remove_value_same value primary_key (lookup value values) values k refl)
  | inr other ↦
      rw (lookup-remove_value value primary_key (lookup value values) values v other, other)
        (ground arith)
]

pub keys_at_lem :
    (index : UniqueLookup) (columns : List Text) (v : Text)
    → keys_at index columns v
      ≡ unwrap_or_default (lookup v (unwrap_or_default (lookup columns index)))
unfolding keys_at
keys_at_lem index columns v = elim (Option-cases (lookup columns index)) [
  | inl absent ↦ rw absent (unfold lookup in refl)
  | inr (values, found) ↦ rw found refl
]

pub keys_at-insert :
    (columns : List Text) (values : Map Text (List Text)) (index : UniqueLookup) (us : List Text)
    (v : Text)
    → keys_at (insert columns values index) us v
      ≡ (if columns == us then unwrap_or_default (lookup v values) else keys_at index us v)
unfolding keys_at
keys_at-insert columns values index us v = elim (Bool-cases (columns == us)) [
  | inl same ↦ rw (lookup-insert columns us values index, same) refl
  | inr other ↦ rw (lookup-insert columns us values index, other) refl
]

contains-add_entry :
    (key : Option Text) (columns : List Text) (primary_key : Text) (index : UniqueLookup)
    (us : List Text) (v k : Text)
    → contains (keys_at (add_entry key columns primary_key index) us v) k ≡ (
        contains (keys_at index us v) k
        || ((columns == us) && ((key == some v) && (primary_key == k))))
unfolding add_entry
contains-add_entry none columns primary_key index us v k = ground arith
contains-add_entry (some value) columns primary_key index us v k =
    let values = unwrap_or_default (lookup columns index) in
    elim (Bool-cases (columns == us)) [
      | inl same ↦
          rw
            (
              keys_at-insert columns (add_value value primary_key values) index us v,
              same,
              contains-add_value value primary_key values v k,
              sym ((list_beq_iff columns us).0 same),
              sym (keys_at_lem index columns v),
            )
            refl
      | inr other ↦
          rw (keys_at-insert columns (add_value value primary_key values) index us v, other)
            (ground arith)
    ]

contains-remove_entry :
    (key : Option Text) (columns : List Text) (primary_key : Text)
    (found : Option (Map Text (List Text))) (index : UniqueLookup) (us : List Text) (v k : Text)
    → lookup columns index ≡ found
    → contains (keys_at (remove_entry key columns primary_key found index) us v) k ≡ (
        contains (keys_at index us v) k
        && not ((columns == us) && ((key == some v) && (primary_key == k))))
unfolding remove_entry
contains-remove_entry none columns primary_key found index us v k h = ground arith
contains-remove_entry (some value) columns primary_key none index us v k h =
    elim (Bool-cases (columns == us)) [
      | inl same ↦
          rw (sym ((list_beq_iff columns us).0 same), keys_at_lem index columns v, h)
            (unfold lookup in refl)
      | inr other ↦ rw other (ground arith)
    ]
contains-remove_entry (some value) columns primary_key (some values) index us v k h =
    let left = remove_value value primary_key (lookup value values) values in
    elim (Bool-cases (columns == us)) [
      | inl same ↦
          rw
            (
              keys_at-insert columns left index us v,
              same,
              contains-remove_value value primary_key values v k,
              sym ((list_beq_iff columns us).0 same),
              keys_at_lem index columns v,
              h,
            )
            refl
      | inr other ↦ rw (keys_at-insert columns left index us v, other) (ground arith)
    ]

module _ {Number Document : Type 0} (json : JsonText Number Document)
    (schema : TableSchemaHint) where
  -- Whether a row has a key under a constraint.
  abbrev pub has_key : Row Number Document → List Text → Text → Bool
  has_key row columns value = schema_unique_key json schema row columns == some value

  pub contains-add_columns :
      (primary_key : Text) (row : Row Number Document) (us : List (List Text))
      (index : UniqueLookup) (columns : List Text) (v k : Text)
      → contains (keys_at (add_columns json schema primary_key row us index) columns v) k ≡ (
          contains (keys_at index columns v) k
          || (contains us columns && (has_key row columns v && (primary_key == k))))
  unfolding add_columns
  contains-add_columns primary_key row [] index columns v k = ground arith
  contains-add_columns primary_key row (u ∷ us) index columns v k =
      let key = schema_unique_key json schema row u in
      let index' = add_entry key u primary_key index in
      elim (Bool-cases (u == columns)) [
        | inl same ↦
            rw
              (
                contains-add_columns primary_key row us index' columns v k,
                contains-add_entry key u primary_key index columns v k,
                same,
                sym ((list_beq_iff u columns).0 same),
              )
              (ground arith)
        | inr other ↦
            rw
              (
                contains-add_columns primary_key row us index' columns v k,
                contains-add_entry key u primary_key index columns v k,
                other,
              )
              (ground arith)
      ]

  pub contains-remove_columns :
      (primary_key : Text) (row : Row Number Document) (us : List (List Text))
      (index : UniqueLookup) (columns : List Text) (v k : Text)
      → contains (keys_at (remove_columns json schema primary_key row us index) columns v) k ≡ (
          contains (keys_at index columns v) k
          && not (contains us columns && (has_key row columns v && (primary_key == k))))
  unfolding remove_columns
  contains-remove_columns primary_key row [] index columns v k = ground arith
  contains-remove_columns primary_key row (u ∷ us) index columns v k =
      let key = schema_unique_key json schema row u in
      let index' = remove_entry key u primary_key (lookup u index) index in
      elim (Bool-cases (u == columns)) [
        | inl same ↦
            rw
              (
                contains-remove_columns primary_key row us index' columns v k,
                contains-remove_entry key u primary_key (lookup u index) index columns v k refl,
                same,
                sym ((list_beq_iff u columns).0 same),
              )
              (ground arith)
        | inr other ↦
            rw
              (
                contains-remove_columns primary_key row us index' columns v k,
                contains-remove_entry key u primary_key (lookup u index) index columns v k refl,
                other,
              )
              (ground arith)
      ]
