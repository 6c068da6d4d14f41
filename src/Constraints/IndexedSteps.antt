-- ===== src/Constraints/IndexedSteps.antt =====
-- The index of unique keys follows the rows when an INSERT stores a row and when it removes the rows in
-- conflict with one (src/sql/engine/dml.rs).
use my_sqweel.Prelude.{
  ℕ, Text, List, [], ◌∷◌, Option, none, some, true, false, if◌then◌else◌, ◌≡◌, refl, sym, arith,
  lookup, insert, lookup-remove, contains, ◌==◌, nat_eq, list_eq, option_eq, list_beq_iff,
  UniqueKeys, UniqueKeys-insert, UniqueKeys-remove, Bool-cases, inl, inr, ok, >>=-eq-ok,
  ok_injective,
}
use mathlib.Core.Path.{subst}
use my_sqweel.Constraints.Schema.{Row, Value, JsonText, TableSchemaHint, StoredRow}
use my_sqweel.Constraints.UniqueKeys.{unique_columns}
use my_sqweel.Constraints.LookupLaws.{has_key}
use my_sqweel.Constraints.IndexLaws.{
  IsIndexOf, row_has_key, add_to_unique_lookup-IsIndexOf, remove_from_unique_lookup-IsIndexOf,
}
use my_sqweel.Constraints.Indexes.{add_row_to_indexes, remove_row_from_indexes}
use my_sqweel.Constraints.Storing.{
  InsertParts, InsertState, store_row, remove_row, remove_conflicts,
}
use my_sqweel.Constraints.Insert.{conflicts_of}
use my_sqweel.Constraints.ConflictLaws.{no_conflict-row_has_key, no_conflict-lookup}

module _ {Number Document : Type 0} (json : JsonText Number Document)
    (schema : TableSchemaHint) where
  -- Each row key is there once, and the statement's index holds the rows' unique keys.
  pub record IsIndexed (s : InsertState Number Document) : Type 0 where
    pub unique : UniqueKeys s.rows
    pub indexed : IsIndexOf json schema s.rows s.unique_lookup

  module _ (parts : InsertParts Number Document) (table : Text) (now : ℕ) where
    pub store_row-IsIndexed :
        (key : Text) (stored : StoredRow Number Document) (s : InsertState Number Document)
        {next : InsertState Number Document}
        → IsIndexed s
        → lookup key s.rows ≡ none
        → store_row json parts table (some schema) now key stored s ≡ ok next
        → IsIndexed next × (next.rows ≡ insert key stored s.rows)
    unfolding store_row
    store_row-IsIndexed key stored s sound free run =
        let (indexes, _, result) =
          >>=-eq-ok
            (add_row_to_indexes json parts.current_schema_row (some schema) key stored.row_data
              s.indexes)
            _ run in
        subst (λ next. IsIndexed next × (next.rows ≡ insert key stored s.rows))
          (ok_injective result)
          (
            record {
              unique = UniqueKeys-insert key stored s.rows sound.unique;
              indexed =
                  add_to_unique_lookup-IsIndexOf json schema s.rows s.unique_lookup key stored
                    sound.indexed free;
            },
            refl,
          )

    -- What is left of the rows after some keys are removed.
    abbrev pub IsWithout :
        List Text → InsertState Number Document → InsertState Number Document → Type 0
    IsWithout keys s next =
        IsIndexed next
        × ((k : Text) → lookup k next.rows ≡ (if contains keys k then none else lookup k s.rows))

    remove_row-IsIndexed :
        (key : Text) (found : Option (StoredRow Number Document)) (s : InsertState Number Document)
        {next : InsertState Number Document}
        → IsIndexed s
        → lookup key s.rows ≡ found
        → remove_row json parts table (some schema) now key found s ≡ ok next
        → IsWithout (key ∷ []) s next
    unfolding remove_row
    remove_row-IsIndexed key none s sound here run =
        subst (IsWithout (key ∷ []) s) (ok_injective run) (
          sound,
          λ k. elim (Bool-cases (key == k)) [
            | inl same ↦ rw (same, sym ((list_beq_iff key k).0 same)) here
            | inr other ↦ rw other refl
          ],
        )
    remove_row-IsIndexed key (some removed) s sound here run =
        let (indexes, _, result) =
          >>=-eq-ok
            (remove_row_from_indexes json parts.current_schema_row (some schema) key
              removed.row_data s.indexes)
            _ run in
        subst (IsWithout (key ∷ []) s) (ok_injective result) (
          record {
            unique = UniqueKeys-remove key s.rows sound.unique;
            indexed =
                remove_from_unique_lookup-IsIndexOf json schema s.rows s.unique_lookup key removed
                  sound.indexed here;
          },
          λ k. rw (lookup-remove key k s.rows) (ground arith),
        )

    pub remove_conflicts-IsIndexed :
        (keys : List Text) (s : InsertState Number Document) {next : InsertState Number Document}
        → IsIndexed s
        → remove_conflicts json parts table (some schema) now keys s ≡ ok next
        → IsWithout keys s next
    unfolding remove_conflicts
    remove_conflicts-IsIndexed [] s sound run =
        subst (IsWithout [] s) (ok_injective run) (sound, λ k. refl)
    remove_conflicts-IsIndexed (key ∷ keys) s sound run =
        let (between, removal, rest) =
          >>=-eq-ok (remove_row json parts table (some schema) now key (lookup key s.rows) s) _
            run in
        let (sound', gone) = remove_row-IsIndexed key (lookup key s.rows) s sound refl removal in
        let (sound'', without) = remove_conflicts-IsIndexed keys between sound' rest in
        (sound'', λ k. rw (without k, gone k) (ground arith))

    -- Nothing that is left after the conflicting rows are removed shares a key with the row.
    pub fresh_without :
        (row_id : Value Number Document) (row : Row Number Document)
        (s next : InsertState Number Document)
        → IsIndexed s
        → IsWithout (conflicts_of json parts table (some schema) now row_id row s) s next
        → (columns : List Text) → contains (unique_columns schema) columns ≡ true
        → (v k : Text) → has_key json schema row columns v ≡ true
        → row_has_key json schema next.rows columns v k ≡ false
    fresh_without row_id row s next sound (sound', without) columns declared v k h =
        elim (Bool-cases
          (contains (conflicts_of json parts table (some schema) now row_id row s) k)) [
            | inl conflict ↦ rw (without k, conflict) refl
            | inr no_conflict ↦
                rw (without k, no_conflict)
                  (no_conflict-row_has_key json schema (json.value_text row_id) row s.rows
                    s.unique_lookup k no_conflict columns v sound.indexed declared h)
          ]

    pub free_without :
        (row_id : Value Number Document) (row : Row Number Document)
        (s next : InsertState Number Document)
        → IsWithout (conflicts_of json parts table (some schema) now row_id row s) s next
        → lookup (json.value_text row_id) next.rows ≡ none
    free_without row_id row s next (sound', without) =
        let key = json.value_text row_id in
        elim (Bool-cases
          (contains (conflicts_of json parts table (some schema) now row_id row s) key)) [
            | inl conflict ↦ rw (without key, conflict) refl
            | inr no_conflict ↦
                rw (without key, no_conflict)
                  (no_conflict-lookup json schema key row s.rows s.unique_lookup no_conflict)
          ]
