-- ===== src/Constraints/IndexedLaws.antt =====
-- The index of unique keys follows the rows through every row that an INSERT places
-- (src/sql/engine/dml.rs).
use my_sqweel.Prelude.{
  ℕ, Text, List, [], ◌∷◌, none, some, Bool, true, false, not, ◌&&◌, if◌then◌else◌, ◌≡◌, refl, arith,
  Map, lookup, insert, remove, lookup-insert, lookup-remove, contains, is_empty, ◌==◌, nat_eq,
  list_eq, option_eq, list_beq_iff, UniqueKeys, UniqueKeys-insert, UniqueKeys-remove, Bool-cases,
  inl, inr, ok, >>=-eq-ok, ok_injective, err≢ok, ok_or, ok_or-eq-ok, is_some, text,
}
use mathlib.Core.Path.{subst}
use my_sqweel.Constraints.Schema.{Row, Value, JsonText, TableSchemaHint, StoredRow}
use my_sqweel.Constraints.UniqueLookup.{UniqueLookup, remove_from_unique_lookup}
use my_sqweel.Constraints.LookupLaws.{contains-is_empty}
use my_sqweel.Constraints.IndexLaws.{
  IsIndexOf, add_to_unique_lookup-IsIndexOf, remove_from_unique_lookup-IsIndexOf,
}
use my_sqweel.Constraints.Indexes.{add_row_to_indexes, remove_row_from_indexes}
use my_sqweel.Constraints.Storing.{
  InsertParts, InsertRowsOptions, InsertState, stored_row, remove_conflicts, first_key,
}
use my_sqweel.Constraints.Insert.{
  ignore_row, rekey_row, rekeyed_row, update_duplicate, updated_row_identity, resolve_conflicts,
  conflicts_of, place_row, place_rows,
}
use my_sqweel.Constraints.IndexedSteps.{
  IsIndexed, IsWithout, store_row-IsIndexed, remove_conflicts-IsIndexed, free_without,
}

module _ {ℓ} {A : Type ℓ} where
  UniqueKeys-base :
      (key : Text) (rekeyed : Bool) (rows : Map Text A)
      → UniqueKeys rows
      → UniqueKeys (if rekeyed then remove key rows else rows)
  UniqueKeys-base key true rows u = UniqueKeys-remove key rows u
  UniqueKeys-base key false rows u = u

  lookup-base :
      (key new_key : Text) (a : A) (rows : Map Text A) (k : Text)
      → lookup k (insert new_key a (if not (new_key == key) then remove key rows else rows))
        ≡ lookup k (insert new_key a (remove key rows))
  lookup-base key new_key a rows k = elim (Bool-cases (new_key == key)) [
    | inr other ↦ rw other refl
    | inl same ↦
        rw
          (
            same,
            lookup-insert new_key k a rows,
            lookup-insert new_key k a (remove key rows),
            lookup-remove key k rows,
            (list_beq_iff new_key key).0 same,
          )
          (ground arith)
  ]

  free-base :
      (key new_key : Text) (rows : Map Text A)
      → (not (new_key == key) && is_some (lookup new_key rows)) ≡ false
      → lookup new_key (remove key rows) ≡ none
  free-base key new_key rows allowed =
      rw (lookup-remove key new_key rows)
        (ground (arith, list_beq_iff key new_key, list_beq_iff new_key key))

module _ {Number Document : Type 0} (json : JsonText Number Document)
    (schema : TableSchemaHint) where
  -- An index depends on the rows under the keys alone.
  IsIndexOf-lookup :
      (rows rows' : Map Text (StoredRow Number Document)) (index : UniqueLookup)
      → ((k : Text) → lookup k rows' ≡ lookup k rows)
      → IsIndexOf json schema rows index
      → IsIndexOf json schema rows' index
  unfolding IsIndexOf
  IsIndexOf-lookup rows rows' index same inv columns declared v k =
      rw (same k) (inv columns declared v k)

  module _ (parts : InsertParts Number Document) (table : Text) (now : ℕ) where
    -- The changed row of ON DUPLICATE KEY UPDATE, under its old or its new row key.
    rekey_row-IsIndexed :
        (conflict_key : Text) (existing : StoredRow Number Document) (values : Row Number Document)
        (new_id : Value Number Document) (new_key : Text) (s : InsertState Number Document)
        {next : InsertState Number Document}
        → IsIndexed json schema s
        → lookup conflict_key s.rows ≡ some existing
        → rekey_row json parts table
            (some schema)
            now
            conflict_key
            existing
            values
            (new_id, new_key)
            s
          ≡ ok next
        → IsIndexed json schema next
    unfolding rekey_row
    rekey_row-IsIndexed conflict_key existing values new_id new_key s sound here run =
        let rekeyed = not (new_key == conflict_key) in
        let base = if rekeyed then remove conflict_key s.rows else s.rows in
        let updated =
          rekeyed_row json parts table (some schema) now rekeyed new_id existing values in
        elim (Bool-cases (rekeyed && is_some (lookup new_key s.rows))) [
          | inl refused ↦ absurd (err≢ok (rw refused at run))
          | inr allowed ↦
              let (indexes, _, run₁) =
                >>=-eq-ok
                  (remove_row_from_indexes json parts.current_schema_row (some schema) conflict_key
                    existing.row_data s.indexes)
                  _ (rw allowed at run) in
              let (indexes', _, run₂) =
                >>=-eq-ok
                  (add_row_to_indexes json parts.current_schema_row (some schema) new_key values
                    indexes)
                  _ run₁ in
              subst (IsIndexed json schema) (ok_injective run₂) (record {
                unique =
                    UniqueKeys-insert new_key updated base
                      (UniqueKeys-base conflict_key rekeyed s.rows sound.unique);
                indexed =
                    IsIndexOf-lookup (insert new_key updated (remove conflict_key s.rows))
                      (insert new_key updated base) _
                      (lookup-base conflict_key new_key updated s.rows)
                      (add_to_unique_lookup-IsIndexOf json schema (remove conflict_key s.rows)
                        (remove_from_unique_lookup json s.unique_lookup (some schema) conflict_key
                          existing.row_data)
                        new_key updated
                        (remove_from_unique_lookup-IsIndexOf json schema s.rows s.unique_lookup
                          conflict_key existing sound.indexed here)
                        (free-base conflict_key new_key s.rows allowed));
              })
        ]

    update_duplicate-IsIndexed :
        (row : Row Number Document) (conflict_keys : List Text) (s : InsertState Number Document)
        {next : InsertState Number Document}
        → IsIndexed json schema s
        → update_duplicate json parts table (some schema) now row conflict_keys s ≡ ok next
        → IsIndexed json schema next
    unfolding update_duplicate
    update_duplicate-IsIndexed row conflict_keys s sound run =
        let missing = text "conflict row disappeared" in
        let (conflict_key, _, run₁) = >>=-eq-ok (ok_or (first_key conflict_keys) missing) _ run in
        let (existing, found, run₂) =
          >>=-eq-ok (ok_or (lookup conflict_key s.rows) missing) _ run₁ in
        let (values, _, run₃) = >>=-eq-ok (parts.assigned existing.row_data row) _ run₂ in
        elim (Bool-cases (parts.same_values values existing.row_data)) [
          | inl same ↦ subst (IsIndexed json schema) (ok_injective (rw same at run₃)) sound
          | inr changed ↦
              rekey_row-IsIndexed conflict_key existing values
                (updated_row_identity json parts table (some schema) now existing values).0
                (updated_row_identity json parts table (some schema) now existing values).1 s sound
                (ok_or-eq-ok (lookup conflict_key s.rows) missing found) (rw changed at run₃)
        ]

    resolve_conflicts-IsIndexed :
        (options : InsertRowsOptions) (row_id : Value Number Document) (row : Row Number Document)
        (s : InsertState Number Document) {next : InsertState Number Document}
        → IsIndexed json schema s
        → resolve_conflicts json parts table
            (some schema)
            now
            options
            row_id
            row
            (conflicts_of json parts table (some schema) now row_id row s)
            s
          ≡ ok next
        → IsIndexed json schema next
    unfolding resolve_conflicts ignore_row
    resolve_conflicts-IsIndexed options row_id row s sound run =
        let conflicts = conflicts_of json parts table (some schema) now row_id row s in
        elim (Bool-cases (not options.updates && options.ignore)) [
          | inl ignored ↦
              subst (IsIndexed json schema) (ok_injective (rw ignored at run))
                (record { unique = sound.unique; indexed = sound.indexed })
          | inr not_ignored ↦ elim (Bool-cases options.updates) [
            | inl updates ↦
                update_duplicate-IsIndexed row conflicts s sound
                  (rw updates at (rw not_ignored at run))
            | inr no_updates ↦ elim (Bool-cases options.replace) [
              | inl replaces ↦
                  let (between, removal, rest) =
                    >>=-eq-ok (remove_conflicts json parts table (some schema) now conflicts s) _
                      (rw replaces at (rw no_updates at (rw not_ignored at run))) in
                  let without =
                    remove_conflicts-IsIndexed json schema parts table now conflicts s sound
                      removal in
                  (store_row-IsIndexed json schema parts table now (json.value_text row_id)
                    (stored_row json parts table (some schema) now row_id row) between without.0
                    (free_without json schema parts table now row_id row s between without) rest).0
              | inr plain ↦
                  let refused = rw plain at (rw no_updates at (rw not_ignored at run)) in
                  elim (Bool-cases (contains conflicts (json.value_text row_id))) [
                    | inl same_row ↦ absurd (err≢ok (rw same_row at refused))
                    | inr same_key ↦ absurd (err≢ok (rw same_key at refused))
                  ]
            ]
          ]
        ]

    -- Whatever the options, after a row is placed each row key is there once and the index of the
    -- statement holds exactly the unique keys of the rows.
    place_row-IsIndexed :
        (options : InsertRowsOptions) (row_id : Value Number Document) (row : Row Number Document)
        (s : InsertState Number Document) {next : InsertState Number Document}
        → IsIndexed json schema s
        → place_row json parts table (some schema) now options row_id row s ≡ ok next
        → IsIndexed json schema next
    unfolding place_row
    place_row-IsIndexed options row_id row s sound run =
        let conflicts = conflicts_of json parts table (some schema) now row_id row s in
        elim (Bool-cases (is_empty conflicts)) [
          | inl none_left ↦
              let without : IsWithout json schema parts table now conflicts s s =
                (sound, λ k. rw (contains-is_empty conflicts k none_left) refl) in
              (store_row-IsIndexed json schema parts table now (json.value_text row_id)
                (stored_row json parts table (some schema) now row_id row) s sound
                (free_without json schema parts table now row_id row s s without)
                (rw none_left at run)).0
          | inr found ↦ resolve_conflicts-IsIndexed options row_id row s sound (rw found at run)
        ]

    -- Whatever the options, ON DUPLICATE KEY UPDATE included, a statement that has placed its rows
    -- leaves each row key once and an index that holds exactly the unique keys of the rows, if it was
    -- so before.
    pub place_rows-IsIndexed :
        (options : InsertRowsOptions) (rows : List (Value Number Document × Row Number Document))
        (s : InsertState Number Document) {next : InsertState Number Document}
        → IsIndexed json schema s
        → place_rows json parts table (some schema) now options rows s ≡ ok next
        → IsIndexed json schema next
    unfolding place_rows
    place_rows-IsIndexed options [] s sound run =
        subst (IsIndexed json schema) (ok_injective run) sound
    place_rows-IsIndexed options ((row_id, row) ∷ rows) s sound run =
        let (between, first, rest) =
          >>=-eq-ok (place_row json parts table (some schema) now options row_id row s) _ run in
        place_rows-IsIndexed options rows between
          (place_row-IsIndexed options row_id row s sound first) rest
