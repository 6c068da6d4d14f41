-- ===== src/Constraints/Tests.antt =====
-- The constraints on small tables, and the theorems at these.
use my_sqweel.Prelude.{
  ℕ, ◌+◌, Text, text, List, [], ◌∷◌, none, some, true, false, if◌then◌else◌, ◌≡◌, ◌≢◌, ◌↔◌, refl,
  arith, Map, lookup, insert, remove, add, extend, discard, contains, length, Result, ok, err, eqb,
  is_ok, all, starts_with, nat_eq, list_eq, option_eq, pair_eq,
}
use my_sqweel.Constraints.Schema.{Value, Row, JsonText, TableSchemaHint, StoredRow}
use my_sqweel.Constraints.UniqueKeys.{schema_unique_key, unique_key_with_prefixes, unique_columns}
use my_sqweel.Constraints.UniqueLookup.{
  add_value, remove_value, add_entry, remove_entry, keys_at, build_unique_lookup, add_columns,
  remove_columns, conflicts_by_lookup, find_conflict_keys, find_conflict_keys_with_lookup,
}
use my_sqweel.Constraints.IndexLaws.{
  IsIndexOf, build_unique_lookup-IsIndexOf, find_conflict_keys_with_lookup-find_conflict_keys,
}
use my_sqweel.Constraints.Indexes.{
  add_entries, remove_entries, remove_from_column, add_row_to_indexes, remove_row_from_indexes,
}
use my_sqweel.Constraints.Storing.{
  InsertParts, InsertRowsOptions, InsertState, store_row, remove_row, remove_conflicts, first_key,
}
use my_sqweel.Constraints.Insert.{
  rekey_row, update_duplicate, resolve_conflicts, place_row, place_rows,
}
use my_sqweel.Constraints.IndexedSteps.{IsIndexed}
use my_sqweel.Constraints.IndexedLaws.{place_rows-IsIndexed}
use my_sqweel.Constraints.InsertLaws.{IsSound, IsDistinct, place_rows-IsSound}
use my_sqweel.Constraints.Validate.{check_rows, check_constraints, validate_unique_constraints}
use my_sqweel.Constraints.ValidateLaws.{validate_unique_constraints-IsDistinct}
use my_sqweel.Constraints.Cascade.{ReferenceParts, out_of_fuel, apply_parent_delete_actions}
use my_sqweel.Constraints.Termination.{apply_parent_delete_actions_termination}
use my_sqweel.Constraints.References.{declared_keys, validate_foreign_key_row}
use my_sqweel.Constraints.ReferenceLaws.{reference_holds, validate_foreign_key_row-reference_holds}

-- Numbers and documents that are their own texts.
abbrev shown : Value ℕ Text → Text
shown Value.null = text "null"
shown (Value.bool b) = if b then text "true" else text "false"
shown (Value.number n) = (48 + n) ∷ []
shown (Value.string s) = s
shown (Value.document d) = d

abbrev json : JsonText ℕ Text
json = record {
  as_i64 = λ n. some ((48 + n) ∷ []);
  as_u64 = λ n. none;
  number_text = λ n. [];
  document_text = λ d. d;
  value_text = shown;
}

abbrev array_text : List (Value ℕ Text) → Value ℕ Text
array_text values = Value.document []

abbrev parts : InsertParts ℕ Text
parts = record {
  current_schema_row = λ row. ok row;
  json_scalar_to_string = shown;
  assigned = λ existing row. ok (insert (text "email") (Value.string (text "b")) existing);
  array_value = array_text;
  same_values = λ a b. false;
}

-- A table with an identity, a unique `email` and a reference to its own rows.
abbrev users : TableSchemaHint
users = record {
  table = text "users";
  temporary = false;
  system_versioned = false;
  columns = [];
  column_order = text "id" ∷ text "email" ∷ text "boss" ∷ [];
  primary_key = text "id" ∷ [];
  unique = (text "email" ∷ []) ∷ [];
  indexes =
      record {
        name = text "by_email";
        columns = text "email" ∷ [];
        unique = true;
        prefix_lengths = [];
      }
      ∷ [];
  foreign_keys =
      record {
        name = text "boss_of";
        columns = text "boss" ∷ [];
        referenced_table = text "users";
        referenced_columns = text "id" ∷ [];
        on_delete = some (text "cascade");
        on_update = none;
      }
      ∷ [];
  check_constraints = [];
  updated_at = none;
}

abbrev user : ℕ → Text → Value ℕ Text → Value ℕ Text × Row ℕ Text
user n email boss = (
  Value.number n,
  (text "id", Value.number n) ∷ (text "email", Value.string email) ∷ (text "boss", boss) ∷ [],
)

abbrev empty : InsertState ℕ Text
empty = record { rows = []; unique_lookup = []; indexes = []; affected = 0; warnings = [] }

empty-IsSound : IsSound json users empty
empty-IsSound = record {
  indexed = record {
    unique = tt;
    indexed = unfold IsIndexOf lookup keys_at in (λ columns declared v k. refl);
  };
  distinct = unfold IsDistinct lookup in (λ columns declared v j k h g. cc);
}

abbrev replacing : InsertRowsOptions
replacing = record { ignore = false; replace = true; updates = false }

abbrev replacing_none : InsertRowsOptions
replacing_none = record { ignore = false; replace = false; updates = false }

abbrev updating : InsertRowsOptions
updating = record { ignore = false; replace = false; updates = true }

abbrev two_users : List (Value ℕ Text × Row ℕ Text)
two_users = user 1 (text "a") Value.null ∷ user 2 (text "a") Value.null ∷ []

abbrev state_of : Result Text (InsertState ℕ Text) → InsertState ℕ Text
state_of (ok s) = s
state_of (err e) = empty

abbrev keys_of {ℓ} : {A : Type ℓ} → Map Text A → List Text
keys_of [] = []
keys_of ((k, a) ∷ m) = k ∷ keys_of m

abbrev replaced : InsertState ℕ Text
replaced = state_of (place_rows json parts (text "users") (some users) 7 replacing two_users empty)

-- REPLACE leaves the second of two rows with the same `email`.
replaced_keys : keys_of replaced.rows ≡ text "2" ∷ []
unfolding place_rows place_row resolve_conflicts remove_conflicts remove_row store_row insert remove
    lookup add extend discard conflicts_by_lookup keys_at add_columns add_entry add_value
    remove_columns remove_entry remove_value unique_columns schema_unique_key
    unique_key_with_prefixes add_row_to_indexes add_entries remove_row_from_indexes remove_entries
    remove_from_column starts_with
replaced_keys = refl

place_rows-IsSound_example : IsSound json users replaced
unfolding place_rows place_row resolve_conflicts remove_conflicts remove_row store_row insert remove
    lookup add extend discard conflicts_by_lookup keys_at add_columns add_entry add_value
    remove_columns remove_entry remove_value unique_columns schema_unique_key
    unique_key_with_prefixes add_row_to_indexes add_entries remove_row_from_indexes remove_entries
    remove_from_column starts_with
place_rows-IsSound_example =
    place_rows-IsSound json users parts (text "users") 7 replacing two_users empty refl
      (refl, (refl, tt)) empty-IsSound refl

abbrev distinct_users : List (Value ℕ Text × Row ℕ Text)
distinct_users = user 1 (text "a") Value.null ∷ user 2 (text "b") (Value.number 1) ∷ []

abbrev inserted : InsertState ℕ Text
inserted =
    state_of
      (place_rows json parts (text "users") (some users) 7 replacing_none distinct_users empty)

inserted-IsSound : IsSound json users inserted
unfolding place_rows place_row resolve_conflicts remove_conflicts remove_row store_row insert remove
    lookup add extend discard conflicts_by_lookup keys_at add_columns add_entry add_value
    remove_columns remove_entry remove_value unique_columns schema_unique_key
    unique_key_with_prefixes add_row_to_indexes add_entries remove_row_from_indexes remove_entries
    remove_from_column starts_with update_duplicate rekey_row first_key check_rows check_constraints
inserted-IsSound =
    place_rows-IsSound json users parts (text "users") 7 replacing_none distinct_users empty refl
      (refl, (refl, tt)) empty-IsSound refl

-- ON DUPLICATE KEY UPDATE gives the first row the `email` of the second.
abbrev updated : InsertState ℕ Text
updated = state_of (
    place_row json parts (text "users") (some users) 8 updating (Value.number 1)
      (user 1 (text "c") Value.null).1 inserted)

updated_duplicates :
    (is_ok (validate_unique_constraints json shown (some users) inserted.rows) ≡ true)
    × (is_ok (validate_unique_constraints json shown (some users) updated.rows) ≡ false)
unfolding place_rows place_row resolve_conflicts remove_conflicts remove_row store_row insert remove
    lookup add extend discard conflicts_by_lookup keys_at add_columns add_entry add_value
    remove_columns remove_entry remove_value unique_columns schema_unique_key
    unique_key_with_prefixes add_row_to_indexes add_entries remove_row_from_indexes remove_entries
    remove_from_column starts_with update_duplicate rekey_row first_key check_rows check_constraints
updated_duplicates = (refl, refl)

place_rows-IsIndexed_example : IsIndexed json users updated
unfolding place_rows place_row resolve_conflicts remove_conflicts remove_row store_row insert remove
    lookup add extend discard conflicts_by_lookup keys_at add_columns add_entry add_value
    remove_columns remove_entry remove_value unique_columns schema_unique_key
    unique_key_with_prefixes add_row_to_indexes add_entries remove_row_from_indexes remove_entries
    remove_from_column starts_with update_duplicate rekey_row first_key check_rows check_constraints
place_rows-IsIndexed_example =
    place_rows-IsIndexed json users parts (text "users") 8 updating
      ((Value.number 1, (user 1 (text "c") Value.null).1) ∷ []) inserted inserted-IsSound.indexed
      refl

-- The keys of two different rows under a constraint on two columns are the same text.
same_text :
    schema_unique_key json users
      ((text "a", Value.string (31 ∷ text "s:")) ∷ (text "b", Value.string []) ∷ [])
      (text "a" ∷ text "b" ∷ [])
    ≡ schema_unique_key json users
        ((text "a", Value.string []) ∷ (text "b", Value.string (31 ∷ text "s:")) ∷ [])
        (text "a" ∷ text "b" ∷ [])
unfolding schema_unique_key unique_key_with_prefixes lookup
same_text = refl

find_conflict_keys_with_lookup-find_conflict_keys_example :
    contains
      (find_conflict_keys_with_lookup json
        (text "3")
        (user 3 (text "a") Value.null).1
        inserted.rows
        (some users)
        (build_unique_lookup json users inserted.rows))
      (text "1")
    ≡ contains
        (find_conflict_keys json
          (some users)
          (text "3")
          (user 3 (text "a") Value.null).1
          inserted.rows)
        (text "1")
unfolding place_rows place_row resolve_conflicts remove_conflicts remove_row store_row insert remove
    lookup add extend discard conflicts_by_lookup keys_at add_columns add_entry add_value
    remove_columns remove_entry remove_value unique_columns schema_unique_key
    unique_key_with_prefixes add_row_to_indexes add_entries remove_row_from_indexes remove_entries
    remove_from_column starts_with update_duplicate rekey_row first_key check_rows check_constraints
find_conflict_keys_with_lookup-find_conflict_keys_example =
    find_conflict_keys_with_lookup-find_conflict_keys json users (text "3")
      (user 3 (text "a") Value.null).1 inserted.rows (build_unique_lookup json users inserted.rows)
      (text "1") (build_unique_lookup-IsIndexOf json users inserted.rows (refl, (refl, tt)))
      (refl, (refl, tt))

validate_unique_constraints-IsDistinct_example :
    (is_ok (validate_unique_constraints json shown (some users) inserted.rows) ≡ true)
    ↔ IsDistinct json users inserted.rows
unfolding place_rows place_row resolve_conflicts remove_conflicts remove_row store_row insert remove
    lookup add extend discard conflicts_by_lookup keys_at add_columns add_entry add_value
    remove_columns remove_entry remove_value unique_columns schema_unique_key
    unique_key_with_prefixes add_row_to_indexes add_entries remove_row_from_indexes remove_entries
    remove_from_column starts_with update_duplicate rekey_row first_key check_rows check_constraints
validate_unique_constraints-IsDistinct_example =
    validate_unique_constraints-IsDistinct json shown users inserted.rows (refl, (refl, tt))

abbrev references : ReferenceParts ℕ Text
references = record {
  current_schema_row = λ table row. ok row;
  mysql_eq = λ a b. eqb (length (shown a)) (length (shown b));
}

abbrev schemas : Map Text TableSchemaHint
schemas = (text "users", users) ∷ []

abbrev tables : Map Text (Map Text (StoredRow ℕ Text))
tables = (text "users", inserted.rows) ∷ []

apply_parent_delete_actions_termination_example :
    apply_parent_delete_actions json references schemas 9 4 (text "users") (text "1" ∷ []) tables []
    ≢ err out_of_fuel
unfolding place_rows place_row resolve_conflicts remove_conflicts remove_row store_row insert remove
    lookup add extend discard conflicts_by_lookup keys_at add_columns add_entry add_value
    remove_columns remove_entry remove_value unique_columns schema_unique_key
    unique_key_with_prefixes add_row_to_indexes add_entries remove_row_from_indexes remove_entries
    remove_from_column starts_with update_duplicate rekey_row first_key check_rows check_constraints
apply_parent_delete_actions_termination_example =
    apply_parent_delete_actions_termination json references schemas 9 4 (text "users")
      (text "1" ∷ []) tables [] (omega arith)

validate_foreign_key_row-reference_holds_example :
    is_ok (
      validate_foreign_key_row json references array_text schemas tables
        (text "users")
        (user 3 (text "c") (Value.number 2)).1)
    ≡ all
        (reference_holds json
          (λ table row. row)
          references.mysql_eq
          array_text
          schemas
          tables
          (user 3 (text "c") (Value.number 2)).1)
        (declared_keys json references array_text schemas tables (lookup (text "users") schemas))
validate_foreign_key_row-reference_holds_example =
    validate_foreign_key_row-reference_holds json (λ table row. row) references.mysql_eq array_text
      schemas tables (text "users") (user 3 (text "c") (Value.number 2)).1
