-- ===== src/Constraints/Outcomes.antt =====
-- The outcomes of the actions of a DELETE on the referring rows, and the rows that the actions find
-- (src/sql/engine/dml.rs).
use my_sqweel.Prelude.{
  ℕ, suc, ◌+◌, ◌<◌, Text, List, [], ◌∷◌, Bool, true, false, ◌≡◌, ◌≢◌, refl, sym, arith, Map, lookup,
  remove, lookup-cons, lookup-remove, contains, is_some, is_empty, unwrap_or_default, ◌==◌, nat_eq,
  list_eq, pair_eq, Bool-cases, inl, inr, ◌⊎◌, err≢ok, Result, ok, err, ◌>>=◌,
}
use my_sqweel.Constraints.Schema.{Row, JsonText, ForeignKeyHint, StoredRow}
use my_sqweel.Constraints.Cascade.{
  ReferenceParts, CascadeError, refused, out_of_fuel, CascadeState, parent_values, matching_keys,
  remove_keys,
}

module _ {Number Document : Type 0} (json : JsonText Number Document)
    (parts : ReferenceParts Number Document) where
  abbrev pub has_row : CascadeState Number Document → Text → Text → Bool
  has_row s table key = is_some (lookup key (unwrap_or_default (lookup table s.rows)))

  -- Every row is one of the pairs of a table and a row key.
  unfoldable pub IsWithin : List (Text × Text) → CascadeState Number Document → Type 0
  IsWithin pairs s =
      (table key : Text) → has_row s table key ≡ true → contains pairs (table, key) ≡ true

  pub within_rows :
      (pairs : List (Text × Text)) (s : CascadeState Number Document) (table : Text)
      → IsWithin pairs s
      → (k : Text) → has_row s table k ≡ true
      → contains pairs (table, k) ≡ true
  unfolding IsWithin
  within_rows pairs s table within = within table

  -- The actions have an outcome other than that the fuel is used up: a refusal, or a state with these
  -- rows at most, in which nothing visited before is forgotten.
  unfoldable pub IsDone :
      List (Text × Text)
      → List (Text × Text)
      → Result CascadeError (CascadeState Number Document)
      → Type 0
  IsDone pairs visited (err (refused message)) = Unit
  IsDone pairs visited (err out_of_fuel) = ⊥
  IsDone pairs visited (ok s) =
      IsWithin pairs s
      × ((p : Text × Text) → contains visited p ≡ true → contains s.visited p ≡ true)

  pub IsDone-weaken :
      (pairs before visited : List (Text × Text))
      (outcome : Result CascadeError (CascadeState Number Document))
      → ((p : Text × Text) → contains before p ≡ true → contains visited p ≡ true)
      → IsDone pairs visited outcome
      → IsDone pairs before outcome
  unfolding IsDone
  IsDone-weaken pairs before visited (err (refused message)) grows done = tt
  IsDone-weaken pairs before visited (err out_of_fuel) grows done = done
  IsDone-weaken pairs before visited (ok s) grows (within, grows') =
      (within, λ p h. grows' p (grows p h))

  pub IsDone->>= :
      (pairs visited : List (Text × Text))
      (step : Result CascadeError (CascadeState Number Document))
      (next : CascadeState Number Document → Result CascadeError (CascadeState Number Document))
      → IsDone pairs visited step
      → ((s : CascadeState Number Document)
          → IsWithin pairs s
          → ((p : Text × Text) → contains visited p ≡ true → contains s.visited p ≡ true)
          → IsDone pairs s.visited (next s))
      → IsDone pairs visited (step >>= next)
  unfolding IsDone
  IsDone->>= pairs visited (err (refused message)) next done rest = tt
  IsDone->>= pairs visited (err out_of_fuel) next done rest = absurd done
  IsDone->>= pairs visited (ok s) next (within, grows) rest =
      IsDone-weaken pairs visited s.visited (next s) grows (rest s within grows)

  pub not_out_of_fuel :
      (pairs : List (Text × Text)) (outcome : Result CascadeError (CascadeState Number Document))
      → IsDone pairs [] outcome
      → outcome ≢ err out_of_fuel
  unfolding IsDone
  not_out_of_fuel pairs (ok s) done same = err≢ok (sym same)
  not_out_of_fuel pairs (err (refused message)) done same = cc
  not_out_of_fuel pairs (err out_of_fuel) done same = done

  pub matching_keys-rows :
      (foreign_key : ForeignKeyHint) (same_table : Bool) (parent_keys : List Text)
      (parents : List (Row Number Document)) (rows : Map Text (StoredRow Number Document))
      (k : Text)
      → contains (matching_keys json parts foreign_key same_table parent_keys parents rows) k ≡ true
      → is_some (lookup k rows) ≡ true
  unfolding matching_keys
  matching_keys-rows foreign_key same_table parent_keys parents [] k h = cc
  matching_keys-rows foreign_key same_table parent_keys parents ((key, child) ∷ rows) k h =
      rw (lookup-cons k key child rows) (elim (Bool-cases (key == k)) [
        | inl same ↦ rw same refl
        | inr other ↦
            rw other
              (matching_keys-rows foreign_key same_table parent_keys parents rows k (ground arith))
      ])

  pub remove_keys-rows :
      (keys : List Text) (rows : Map Text (StoredRow Number Document)) (k : Text)
      → is_some (lookup k (remove_keys json parts keys rows)) ≡ true
      → is_some (lookup k rows) ≡ true
  unfolding remove_keys
  remove_keys-rows [] rows k h = h
  remove_keys-rows (key ∷ keys) rows k h =
      let before = remove_keys-rows keys (remove key rows) k h in
      ground (arith, lookup-remove key k rows)

  -- Rows without a key have no parents.
  pub fuel_of_parents :
      (rows : Map Text (StoredRow Number Document)) (keys : List Text) (n fuel : ℕ)
      → is_empty (parent_values json parts rows keys) ≡ false
      → (is_empty keys ≡ true) ⊎ (n + 1 < suc fuel)
      → n + 1 < suc fuel
  unfolding parent_values
  fuel_of_parents rows [] n fuel some_parents bound = cc
  fuel_of_parents rows (k ∷ keys) n fuel some_parents (inl none_left) = cc
  fuel_of_parents rows (k ∷ keys) n fuel some_parents (inr bound) = bound
