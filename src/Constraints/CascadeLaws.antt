-- ===== src/Constraints/CascadeLaws.antt =====
-- Each action of a DELETE on the referring rows is done with enough fuel (src/sql/engine/dml.rs).
use my_sqweel.Prelude.{
  ℕ, zero, suc, ◌+◌, ◌≤◌, ◌<◌, Text, List, [], ◌∷◌, Option, none, some, true, ◌||◌, ◌≡◌, refl, sym,
  ◌∙◌, arith, Map, lookup, lookup-insert, contains, is_some, is_empty, unwrap_or_default, ◌==◌,
  nat_eq, list_eq, pair_eq, list_beq_iff, Bool-cases, inl, inr, ◌⊎◌, Result, ok, err,
  to_ascii_uppercase, same_ignoring_case, unwrap_or, text,
}
use mathlib.Core.Path.{subst}
use my_sqweel.Constraints.Schema.{Row, JsonText, ForeignKeyHint, TableSchemaHint, StoredRow}
use my_sqweel.Constraints.Indexes.{Indexes}
use my_sqweel.Constraints.Cascade.{
  ReferenceParts, CascadeError, CascadeState, take_fresh, referencing, parent_values, matching_keys,
  remove_keys, null_keys, store_table, with_table, null_row, nulled, cascade, act_on, apply_actions,
  apply_parent_delete_actions_inner,
}
use my_sqweel.Constraints.Visits.{
  unvisited, unvisited_mono, unvisited_less, take_fresh-grows, take_fresh-progress,
}
use my_sqweel.Constraints.Outcomes.{
  IsWithin, IsDone, within_rows, IsDone-weaken, IsDone->>=, matching_keys-rows, remove_keys-rows,
  fuel_of_parents,
}

module _ {Number Document : Type 0} (json : JsonText Number Document)
    (parts : ReferenceParts Number Document) where
  module _ (schemas : Map Text TableSchemaHint) (now : ℕ) where
    null_row-rows :
        (columns : List Text) (key : Text) (found : Option (StoredRow Number Document))
        (rows : Map Text (StoredRow Number Document)) (k : Text)
        → lookup key rows ≡ found
        → is_some (lookup k (null_row json parts schemas now columns key found rows))
          ≡ is_some (lookup k rows)
    null_row-rows columns key none rows k h = refl
    null_row-rows columns key (some row) rows k h =
        rw (lookup-insert key k (nulled json parts schemas now columns row) rows)
          (elim (Bool-cases (key == k)) [
            | inl same ↦ rw (same, sym ((list_beq_iff key k).0 same), h) refl
            | inr other ↦ rw other refl
          ])

    null_keys-rows :
        (columns keys : List Text) (rows : Map Text (StoredRow Number Document)) (k : Text)
        → is_some (lookup k (null_keys json parts schemas now columns keys rows))
          ≡ is_some (lookup k rows)
    unfolding null_keys
    null_keys-rows columns [] rows k = refl
    null_keys-rows columns (key ∷ keys) rows k =
        null_keys-rows columns keys
          (null_row json parts schemas now columns key (lookup key rows) rows) k
        ∙ null_row-rows columns key (lookup key rows) rows k refl

    with_table-IsDone :
        (pairs : List (Text × Text)) (table : Text)
        (next_rows : Map Text (StoredRow Number Document)) (s : CascadeState Number Document)
        (indexes : Result Text (Map Text Indexes))
        → IsWithin json parts pairs s
        → ((k : Text) → is_some (lookup k next_rows) ≡ true → contains pairs (table, k) ≡ true)
        → IsDone json parts pairs s.visited
            (with_table json parts schemas now table next_rows s indexes)
    unfolding IsWithin IsDone
    with_table-IsDone pairs table next_rows s (err message) within new = tt
    with_table-IsDone pairs table next_rows s (ok indexes) within new = (
      λ t k h. elim (Bool-cases (table == t)) [
        | inl same ↦
            subst (λ t. contains pairs (t, k) ≡ true) ((list_beq_iff table t).0 same)
              (new k (rw same at (rw (lookup-insert table t next_rows s.rows) at h)))
        | inr other ↦ within t k (rw other at (rw (lookup-insert table t next_rows s.rows) at h))
      ],
      λ p h. h,
    )

    store_table-IsDone :
        (pairs : List (Text × Text)) (table : Text)
        (next_rows : Map Text (StoredRow Number Document)) (s : CascadeState Number Document)
        → IsWithin json parts pairs s
        → ((k : Text) → is_some (lookup k next_rows) ≡ true → contains pairs (table, k) ≡ true)
        → IsDone json parts pairs s.visited (store_table json parts schemas now table next_rows s)
    unfolding store_table IsWithin IsDone
    store_table-IsDone pairs table next_rows s within new =
        with_table-IsDone pairs table next_rows s _ within new

    module _
        (recur : Text
          → List Text
          → CascadeState Number Document
          → Result CascadeError (CascadeState Number Document))
        (fuel : ℕ) (pairs : List (Text × Text))
        (recurs : (table : Text) (keys : List Text) (s : CascadeState Number Document)
          → IsWithin json parts pairs s
          → (is_empty keys ≡ true) ⊎ (unvisited pairs s.visited + 1 < fuel)
          → IsDone json parts pairs s.visited (recur table keys s)) where
      cascade-IsDone :
          (table : Text) (rows : Map Text (StoredRow Number Document)) (matching : List Text)
          (s : CascadeState Number Document)
          → IsWithin json parts pairs s
          → unvisited pairs s.visited + 1 ≤ fuel
          → ((k : Text) → is_some (lookup k rows) ≡ true → contains pairs (table, k) ≡ true)
          → ((k : Text) → contains matching k ≡ true → is_some (lookup k rows) ≡ true)
          → IsDone json parts pairs s.visited
              (cascade json parts schemas now recur table rows matching s)
      unfolding cascade
      cascade-IsDone table rows matching s within bound known matched =
          let taken = take_fresh table matching s.visited in
          let s' : CascadeState Number Document = record {
            rows = s.rows;
            indexes = s.indexes;
            visited = taken.1;
          } in
          let within' : IsWithin json parts pairs s' = unfold IsWithin in (λ t k h. within t k h) in
          let grows = take_fresh-grows table matching s.visited in
          let first : IsDone json parts pairs taken.1 (recur table taken.0 s') =
            elim (take_fresh-progress table matching s.visited) [
              | inl none_fresh ↦ recurs table taken.0 s' within' (inl none_fresh)
              | inr (k, here, before, after) ↦ recurs table taken.0 s' within' (
                  inr (
                    omega (
                      arith,
                      bound,
                      unvisited_less pairs s.visited taken.1 (table, k) grows
                          (known k (matched k here)) before after,
                    )))
            ] in
          IsDone->>= json parts pairs s.visited (recur table taken.0 s') _
            (IsDone-weaken json parts pairs s.visited taken.1 (recur table taken.0 s') grows first)
            (λ next within_next grown.
              store_table-IsDone pairs table (remove_keys json parts taken.0 rows) next within_next
                (λ k h. known k (remove_keys-rows json parts taken.0 rows k h)))

      act_on-IsDone :
          (table : Text) (foreign_key : ForeignKeyHint)
          (rows : Map Text (StoredRow Number Document)) (matching : List Text)
          (s : CascadeState Number Document)
          → IsWithin json parts pairs s
          → unvisited pairs s.visited + 1 ≤ fuel
          → ((k : Text) → is_some (lookup k rows) ≡ true → contains pairs (table, k) ≡ true)
          → ((k : Text) → contains matching k ≡ true → is_some (lookup k rows) ≡ true)
          → IsDone json parts pairs s.visited
              (act_on json parts schemas now recur table foreign_key rows matching s)
      unfolding act_on
      act_on-IsDone table foreign_key rows matching s within bound known matched =
          let action = to_ascii_uppercase (unwrap_or (text "RESTRICT") foreign_key.on_delete) in
          let same : IsDone json parts pairs s.visited (ok s) =
            unfold IsDone in (within, λ p h. h) in
          elim (Bool-cases (is_empty matching)) [
            | inl none_matching ↦ rw none_matching same
            | inr some_matching ↦ elim (Bool-cases (action == text "CASCADE")) [
              | inl cascades ↦
                  rw (some_matching, cascades)
                    (cascade-IsDone table rows matching s within bound known matched)
              | inr not_cascade ↦ elim (Bool-cases (action == text "SET NULL")) [
                | inl nulls ↦
                    rw (some_matching, not_cascade, nulls)
                      (store_table-IsDone pairs table
                        (null_keys json parts schemas now foreign_key.columns matching rows) s
                        within
                        (λ k h.
                          known k (sym (null_keys-rows foreign_key.columns matching rows k) ∙ h)))
                | inr not_null ↦
                    elim (Bool-cases
                      ((action == text "RESTRICT") || (action == text "NO ACTION"))) [
                        | inl restricts ↦
                            rw (some_matching, not_cascade, not_null, restricts)
                              (unfold IsDone in tt)
                        | inr unknown ↦
                            rw (some_matching, not_cascade, not_null, unknown) (unfold IsDone in tt)
                      ]
              ]
            ]
          ]

      apply_actions-IsDone :
          (table : Text) (keys : List Text) (parents : List (Row Number Document))
          (references : List (Text × ForeignKeyHint)) (s : CascadeState Number Document)
          → IsWithin json parts pairs s
          → unvisited pairs s.visited + 1 ≤ fuel
          → IsDone json parts pairs s.visited
              (apply_actions json parts schemas now recur table keys parents references s)
      unfolding apply_actions
      apply_actions-IsDone table keys parents [] s within bound =
          unfold IsDone in (within, λ p h. h)
      apply_actions-IsDone table keys parents ((child_table, foreign_key) ∷ others) s within bound =
          let child_rows = unwrap_or_default (lookup child_table s.rows) in
          let matching =
            matching_keys json parts foreign_key (same_ignoring_case child_table table) keys parents
              child_rows in
          IsDone->>= json parts pairs s.visited
            (act_on json parts schemas now recur child_table foreign_key child_rows matching s) _
            (act_on-IsDone child_table foreign_key child_rows matching s within bound
              (within_rows json parts pairs s child_table within)
              (matching_keys-rows json parts foreign_key (same_ignoring_case child_table table) keys
                parents child_rows))
            (λ next within_next grown.
              apply_actions-IsDone table keys parents others next within_next
                (omega (arith, bound, unvisited_mono pairs s.visited next.visited grown)))

    pub apply_parent_delete_actions_inner-IsDone :
        (fuel : ℕ) (pairs : List (Text × Text)) (table : Text) (keys : List Text)
        (s : CascadeState Number Document)
        → IsWithin json parts pairs s
        → 1 ≤ fuel
        → (is_empty keys ≡ true) ⊎ (unvisited pairs s.visited + 1 < fuel)
        → IsDone json parts pairs s.visited
            (apply_parent_delete_actions_inner json parts schemas now fuel table keys s)
    unfolding apply_parent_delete_actions_inner
    apply_parent_delete_actions_inner-IsDone zero pairs table keys s within positive bound =
        absurd (omega (arith, positive))
    apply_parent_delete_actions_inner-IsDone (suc fuel) pairs table keys s within positive bound =
        let parents = parent_values json parts (unwrap_or_default (lookup table s.rows)) keys in
        elim (Bool-cases (is_empty parents)) [
          | inl no_parents ↦ rw no_parents (unfold IsDone in (within, λ p h. h))
          | inr some_parents ↦
              let enough =
                fuel_of_parents json parts (unwrap_or_default (lookup table s.rows)) keys
                  (unvisited pairs s.visited) fuel some_parents bound in
              rw some_parents (
                apply_actions-IsDone (apply_parent_delete_actions_inner json parts schemas now fuel)
                  fuel pairs
                  (λ t ks s' within' bound'.
                    apply_parent_delete_actions_inner-IsDone fuel pairs t ks s' within'
                      (omega (arith, enough)) bound')
                  table keys parents (referencing schemas table) s within (omega (arith, enough)))
        ]
