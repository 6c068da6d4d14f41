-- ===== src/Queries/SetOperations.antt =====
-- INTERSECT and EXCEPT, with and without ALL (set_intersection and set_difference of
-- src/sql/engine/query.rs). A `HashMap` of counts is an association list.
use my_sqweel.Prelude.{
  ℕ, suc, ◌-◌, Text, text, List, [], ◌∷◌, ◌++◌, map, Option, none, some, Bool, not, ◌&&◌,
  if◌then◌else◌, Map, lookup, insert, add, contains, is_some, eqb, ltb, nat_eq, list_eq,
}
use my_sqweel.Wire.Temporal.{decimal}
use my_sqweel.Constraints.Schema.{Row, JsonText}
use my_sqweel.Constraints.UniqueKeys.{join, encode_json_value}
use my_sqweel.Constraints.Indexes.{value_or_null}

-- A count, 0 for a key that has none.
abbrev pub count_or_zero : Option ℕ → ℕ
count_or_zero none = 0
count_or_zero (some n) = n

-- The name of a column that stands for the n-th of its name.
abbrev row_key : Text → ℕ → Text
row_key name count = if eqb count 1 then name else (name ++ text "#") ++ decimal count

-- The names under which a row holds columns of which some have the same name.
unfoldable pub row_keys_from : Map Text ℕ → List Text → List Text
row_keys_from seen [] = []
row_keys_from seen (name ∷ names) =
    let count = suc (count_or_zero (lookup name seen)) in
    row_key name count ∷ row_keys_from (insert name count seen) names

abbrev pub row_keys_for_columns : List Text → List Text
row_keys_for_columns = row_keys_from []

module _ {Number Document : Type 0} (json : JsonText Number Document) (columns : List Text) where
  -- A row's values, in the order of the columns, between group separators.
  unfoldable pub encode_set_row : Row Number Document → Text
  encode_set_row row = join (29 ∷ []) (
      map (λ key. encode_json_value json (value_or_null json (lookup key row)))
        (row_keys_for_columns columns))

  -- How often each key occurs among the right rows.
  unfoldable pub count_rows : Map Text ℕ → List (Row Number Document) → Map Text ℕ
  count_rows counts [] = counts
  count_rows counts (row ∷ rows) =
      let key = encode_set_row row in
      count_rows (insert key (suc (count_or_zero (lookup key counts))) counts) rows

  unfoldable pub intersect_rows :
      Bool → Map Text ℕ → List Text → List (Row Number Document) → List (Row Number Document)
  intersect_rows distinct counts emitted [] = []
  intersect_rows distinct counts emitted (row ∷ rows) =
      let key = encode_set_row row in
      let count = count_or_zero (lookup key counts) in
      let skipped = intersect_rows distinct counts emitted rows in
      let counted = intersect_rows distinct (insert key (count - 1) counts) emitted rows in
      let marked = intersect_rows distinct counts (add key emitted) rows in
      if eqb count 0
      then skipped
      else if not distinct
      then row ∷ counted
      else if contains emitted key
      then skipped
      else row ∷ marked

  abbrev pub set_intersection :
      List (Row Number Document) → List (Row Number Document) → Bool → List (Row Number Document)
  set_intersection left right all = intersect_rows (not all) (count_rows [] right) [] left

  unfoldable pub subtract_rows :
      Bool → Map Text ℕ → List Text → List (Row Number Document) → List (Row Number Document)
  subtract_rows distinct counts emitted [] = []
  subtract_rows distinct counts emitted (row ∷ rows) =
      let key = encode_set_row row in
      let count = count_or_zero (lookup key counts) in
      let skipped = subtract_rows distinct counts emitted rows in
      let counted = subtract_rows distinct (insert key (count - 1) counts) emitted rows in
      let marked = subtract_rows distinct counts (add key emitted) rows in
      if not distinct
      then (if ltb 0 count then counted else row ∷ skipped)
      else if not (is_some (lookup key counts)) && not (contains emitted key)
      then row ∷ marked
      else skipped

  abbrev pub set_difference :
      List (Row Number Document) → List (Row Number Document) → Bool → List (Row Number Document)
  set_difference left right all = subtract_rows (not all) (count_rows [] right) [] left
