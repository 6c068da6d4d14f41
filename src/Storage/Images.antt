-- ===== src/Storage/Images.antt =====
-- What storage holds of an engine state, and which tables its difference visits (src/storage/delta.rs).
use my_sqweel.Prelude.{
  Text, List, [], ◌∷◌, ◌++◌, Option, none, some, true, ◌||◌, ◌≡◌, refl, arith, UniqueKeys, Map,
  lookup, add, contains, contains-add, contains-append, fold, is_some, nat_eq, list_eq, option_eq,
  pair_eq,
}
use my_sqweel.Storage.Contract.{metadata_eq, catalog_eq, TableState, Contents}
use my_sqweel.Storage.Delta.{
  Snapshot, EngineState, keys, get_in, storage_catalog, snapshot_tables, table_names,
}

module _ {Schema Auto StoredRow : Type 0} where
  -- The stored state of a table, and a row, in a database.
  abbrev pub stored_table : Text → Snapshot Schema Auto StoredRow → Option (TableState Schema Auto)
  stored_table t s =
      get_in (lookup t s.schemas)
        (λ schema. some (record { schema = schema; auto_increment = lookup t s.auto_inc }))

  abbrev pub stored_row : Text → Text → Snapshot Schema Auto StoredRow → Option StoredRow
  stored_row t k s = get_in (lookup t s.rows) (λ rows. lookup k rows)

module _ {Value Schema Auto StoredRow : Type 0} where
  abbrev pub table_of :
      EngineState Value Schema Auto StoredRow → Text → Text → Option (TableState Schema Auto)
  table_of state d t = get_in (lookup d state.databases) (stored_table t)

  abbrev pub row_of :
      EngineState Value Schema Auto StoredRow → Text → Text → Text → Option StoredRow
  row_of state d t k = get_in (lookup d state.databases) (stored_row t k)

  -- Maps have each key once, and a table with rows has a schema.
  pub record IsConsistent (state : EngineState Value Schema Auto StoredRow) : Type 0 where
    pub databases : UniqueKeys state.databases
    pub rows :
        (d : Text) (s : Snapshot Schema Auto StoredRow)
        → lookup d state.databases ≡ some s
        → (t : Text) (rs : Map Text StoredRow) → lookup t s.rows ≡ some rs
        → UniqueKeys rs × (is_some (lookup t s.schemas) ≡ true)

  -- The backend holds exactly this engine state.
  pub record Holds (state : EngineState Value Schema Auto StoredRow)
      (c : Contents Value Schema Auto StoredRow) : Type 0 where
    pub catalog : c.catalog ≡ some (storage_catalog state)
    pub tables : (d t : Text) → c.tables d t ≡ table_of state d t
    pub rows : (d t k : Text) → c.rows d t k ≡ row_of state d t k

pub contains-keys {ℓ} :
    {V : Type ℓ} (m : Map Text V) (k : Text) → contains (keys m) k ≡ is_some (lookup k m)
unfolding keys lookup
contains-keys [] k = refl
contains-keys ((j, v) ∷ m) k = ground (arith, contains-keys m k)

contains-fold-add :
    (xs ts : List Text) (k : Text)
    → contains (fold (λ ts t. add t ts) ts xs) k ≡ (contains ts k || contains xs k)
contains-fold-add [] ts k = ground arith
contains-fold-add (x ∷ xs) ts k =
    ground (arith, contains-fold-add xs (add x ts) k, contains-add x ts k)

module _ {Schema Auto StoredRow : Type 0} where
  -- Every table with a schema or rows, before or after, is visited.
  pub contains-table_names :
      (previous : Option (Snapshot Schema Auto StoredRow))
      (current : Snapshot Schema Auto StoredRow) (t : Text)
      → contains (table_names previous current) t ≡ (
          (is_some (get_in previous (λ s. lookup t s.schemas))
            || is_some (get_in previous (λ s. lookup t s.rows)))
          || (is_some (lookup t current.schemas) || is_some (lookup t current.rows)))
  unfolding table_names snapshot_tables get_in
  contains-table_names none current t = ground (
    arith,
    contains-fold-add (keys current.schemas ++ keys current.rows) [] t,
    contains-append (keys current.schemas) (keys current.rows) t,
    contains-keys current.schemas t,
    contains-keys current.rows t,
  )
  contains-table_names (some p) current t =
      let before = keys p.schemas ++ keys p.rows in
      let after = keys current.schemas ++ keys current.rows in
      ground (
        arith,
        contains-fold-add (before ++ after) [] t,
        contains-append before after t,
        contains-append (keys p.schemas) (keys p.rows) t,
        contains-append (keys current.schemas) (keys current.rows) t,
        contains-keys p.schemas t,
        contains-keys p.rows t,
        contains-keys current.schemas t,
        contains-keys current.rows t,
      )
