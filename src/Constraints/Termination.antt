-- ===== src/Constraints/Termination.antt =====
-- The actions of a DELETE on the referring rows come to an end (src/sql/engine/dml.rs).
use my_sqweel.Prelude.{
  ℕ, ◌+◌, ◌≤◌, ◌<◌, Text, List, [], ◌∷◌, true, ◌≡◌, ◌≢◌, refl, arith, Map, lookup, lookup-cons,
  contains, is_some, unwrap_or_default, ◌==◌, nat_eq, list_eq, pair_eq, list_beq_iff, Bool-cases,
  inl, inr, beq_refl, contains-append, ◌++◌, err, length,
}
use my_sqweel.Constraints.Schema.{JsonText, TableSchemaHint, StoredRow}
use my_sqweel.Constraints.Indexes.{Indexes}
use my_sqweel.Constraints.Cascade.{
  ReferenceParts, out_of_fuel, CascadeState, apply_parent_delete_actions,
}
use my_sqweel.Constraints.Visits.{unvisited}
use my_sqweel.Constraints.Outcomes.{IsWithin, not_out_of_fuel}
use my_sqweel.Constraints.CascadeLaws.{apply_parent_delete_actions_inner-IsDone}

abbrev table_pairs {ℓ} : {A : Type ℓ} → Text → Map Text A → List (Text × Text)
table_pairs table [] = []
table_pairs table ((key, row) ∷ rows) = (table, key) ∷ table_pairs table rows

-- The tables and keys of all rows.
abbrev pub row_pairs {ℓ} : {A : Type ℓ} → Map Text (Map Text A) → List (Text × Text)
row_pairs [] = []
row_pairs ((table, rows) ∷ tables) = table_pairs table rows ++ row_pairs tables

contains-table_pairs {ℓ} :
    {A : Type ℓ} (table : Text) (rows : Map Text A) (key : Text)
    → is_some (lookup key rows) ≡ true
    → contains (table_pairs table rows) (table, key) ≡ true
contains-table_pairs table [] key h = unfold lookup in cc
contains-table_pairs table ((j, row) ∷ rows) key h = elim (Bool-cases (j == key)) [
  | inl same ↦ rw (same, beq_refl table) refl
  | inr other ↦
      rw (contains-table_pairs table rows key (rw other at (rw (lookup-cons key j row rows) at h)))
        (ground arith)
]

contains-row_pairs {ℓ} :
    {A : Type ℓ} (tables : Map Text (Map Text A)) (table key : Text)
    → is_some (lookup key (unwrap_or_default (lookup table tables))) ≡ true
    → contains (row_pairs tables) (table, key) ≡ true
contains-row_pairs [] table key h = unfold lookup in cc
contains-row_pairs ((t, rows) ∷ tables) table key h =
    rw (contains-append (table_pairs t rows) (row_pairs tables) (table, key))
      (elim (Bool-cases (t == table)) [
        | inl same ↦
            let here =
              contains-table_pairs t rows key
                (rw same at (rw (lookup-cons table t rows tables) at h)) in
            ground (arith, here, (list_beq_iff t table).0 same)
        | inr other ↦
            let here =
              contains-row_pairs tables table key
                (rw other at (rw (lookup-cons table t rows tables) at h)) in
            ground (arith, here)
      ])

unvisited-none : (pairs : List (Text × Text)) → unvisited pairs [] ≤ length pairs
unfolding unvisited
unvisited-none [] = omega arith
unvisited-none (p ∷ pairs) = omega (arith, unvisited-none pairs)

module _ {Number Document : Type 0} (json : JsonText Number Document)
    (parts : ReferenceParts Number Document) (schemas : Map Text TableSchemaHint) (now : ℕ) where
  -- With fuel for one recursion per row of the engine and two more, the actions of a DELETE on the rows
  -- that refer to the deleted ones end: they are refused, or leave a state, and never run out of fuel.
  pub apply_parent_delete_actions_termination :
      (fuel : ℕ) (table : Text) (keys : List Text)
      (rows : Map Text (Map Text (StoredRow Number Document))) (indexes : Map Text Indexes)
      → length (row_pairs rows) + 1 < fuel
      → apply_parent_delete_actions json parts schemas now fuel table keys rows indexes
        ≢ err out_of_fuel
  apply_parent_delete_actions_termination fuel table keys rows indexes enough =
      let s : CascadeState Number Document = record {
        rows = rows;
        indexes = indexes;
        visited = [];
      } in
      not_out_of_fuel json parts (row_pairs rows)
        (apply_parent_delete_actions json parts schemas now fuel table keys rows indexes)
        (apply_parent_delete_actions_inner-IsDone json parts schemas now fuel (row_pairs rows) table
          keys s (unfold IsWithin in (λ t k h. contains-row_pairs rows t k h))
          (omega (arith, enough)) (inr (omega (arith, enough, unvisited-none (row_pairs rows)))))
