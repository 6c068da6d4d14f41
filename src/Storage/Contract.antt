-- ===== src/Storage/Contract.antt =====
-- The storage contract of src/storage/async_store.rs: the mutations of a commit, and what a backend holds,
-- as a function of database, table and row key. Row, schema, number and JSON types are parameters.
use my_sqweel.Prelude.{
  ℕ, Text, List, Option, none, some, Bool, true, ◌&&◌, ◌≡◌, ◌↔◌, arith, Map, is_empty, ◌==◌, Eq,
  if◌then◌else◌, nat_eq, list_eq, pair_eq, list_beq_iff, fold,
}

pub record DatabaseMetadata : Type 0 where
  pub views : Map Text Text
  pub index_comments : Map Text Text

abbrev pub metadata_beq : DatabaseMetadata → DatabaseMetadata → Bool
metadata_beq a b = (a.views == b.views) && (a.index_comments == b.index_comments)

pub metadata_beq_iff : (a b : DatabaseMetadata) → (metadata_beq a b ≡ true) ↔ (a ≡ b)
metadata_beq_iff a b = (
  λ h. ground (arith, list_beq_iff a.views b.views, list_beq_iff a.index_comments b.index_comments),
  λ h. ground (arith, list_beq_iff a.views b.views, list_beq_iff a.index_comments b.index_comments),
)

instance abbrev pub metadata_eq : Eq DatabaseMetadata
metadata_eq = record { beq = metadata_beq; beq_decides = metadata_beq_iff }

pub record StorageCatalog (Value : Type 0) : Type 0 where
  pub version : ℕ
  pub metadata : Value
  pub databases : Map Text DatabaseMetadata

module _ {Value : Type 0} ⦃e : Eq Value⦄ where
  abbrev pub catalog_beq : StorageCatalog Value → StorageCatalog Value → Bool
  catalog_beq a b =
      (a.version == b.version) && (a.metadata == b.metadata) && (a.databases == b.databases)

  pub catalog_beq_iff : (a b : StorageCatalog Value) → (catalog_beq a b ≡ true) ↔ (a ≡ b)
  catalog_beq_iff a b = (
    λ h. ground (arith, e.beq_decides a.metadata b.metadata, list_beq_iff a.databases b.databases),
    λ h. ground (arith, e.beq_decides a.metadata b.metadata, list_beq_iff a.databases b.databases),
  )

instance abbrev pub catalog_eq : {Value : Type 0} ⦃e : Eq Value⦄ → Eq (StorageCatalog Value)
catalog_eq = record { beq = catalog_beq; beq_decides = catalog_beq_iff }

pub record TableState (Schema Auto : Type 0) : Type 0 where
  pub schema : Schema
  pub auto_increment : Option Auto

pub data RowMutation (StoredRow : Type 0) : Type 0 where
  put : Text → Text → Text → StoredRow → RowMutation StoredRow
  delete : Text → Text → Text → RowMutation StoredRow

pub data MetadataMutation (Value Schema Auto : Type 0) : Type 0 where
  put_catalog : StorageCatalog Value → MetadataMutation Value Schema Auto
  delete_database : Text → MetadataMutation Value Schema Auto
  put_table : Text → Text → TableState Schema Auto → MetadataMutation Value Schema Auto
  delete_table : Text → Text → MetadataMutation Value Schema Auto

pub record StorageBatch (Value Schema Auto StoredRow : Type 0) : Type 0 where
  pub metadata : List (MetadataMutation Value Schema Auto)
  pub rows : List (RowMutation StoredRow)

pub record Contents (Value Schema Auto StoredRow : Type 0) : Type 0 where
  pub catalog : Option (StorageCatalog Value)
  pub tables : Text → Text → Option (TableState Schema Auto)
  pub rows : Text → Text → Text → Option StoredRow

module _ {Value Schema Auto StoredRow : Type 0} where
  unfoldable pub batch_is_empty : StorageBatch Value Schema Auto StoredRow → Bool
  batch_is_empty b = is_empty b.metadata && is_empty b.rows

  -- A deleted table or database loses its rows too.
  unfoldable pub apply_metadata :
      Contents Value Schema Auto StoredRow
      → MetadataMutation Value Schema Auto
      → Contents Value Schema Auto StoredRow
  apply_metadata c (put_catalog catalog) = record c { catalog = some catalog }
  apply_metadata c (delete_database database) = record c {
    tables = λ d t. if database == d then none else c.tables d t;
    rows = λ d t k. if database == d then none else c.rows d t k;
  }
  apply_metadata c (put_table database table state) = record c {
    tables = λ d t. if (database == d) && (table == t) then some state else c.tables d t;
  }
  apply_metadata c (delete_table database table) = record c {
    tables = λ d t. if (database == d) && (table == t) then none else c.tables d t;
    rows = λ d t k. if (database == d) && (table == t) then none else c.rows d t k;
  }

  unfoldable pub apply_row :
      Contents Value Schema Auto StoredRow
      → RowMutation StoredRow
      → Contents Value Schema Auto StoredRow
  apply_row c (put database table key row) = record c {
    rows =
        λ d t k. if (database == d) && (table == t) && (key == k) then some row else c.rows d t k;
  }
  apply_row c (delete database table key) = record c {
    rows = λ d t k. if (database == d) && (table == t) && (key == k) then none else c.rows d t k;
  }

  -- Metadata before rows, as the contract asks.
  unfoldable pub commit_batch :
      Contents Value Schema Auto StoredRow
      → StorageBatch Value Schema Auto StoredRow
      → Contents Value Schema Auto StoredRow
  commit_batch c b =
      if batch_is_empty b then c else fold apply_row (fold apply_metadata c b.metadata) b.rows
