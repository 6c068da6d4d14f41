-- ===== src/Storage/Folds.antt =====
-- What a commit leaves at one table or row: the last mutation that touches it decides.
use my_sqweel.Prelude.{
  Text, List, [], ◌∷◌, Option, none, some, Bool, true, false, ◌&&◌, ◌≡◌, refl, arith, All, any,
  fold, if◌then◌else◌, ◌==◌, nat_eq, list_eq,
}
use my_sqweel.Storage.Contract.{
  StorageCatalog, TableState, RowMutation, put, delete, MetadataMutation, put_catalog,
  delete_database, put_table, delete_table, Contents, batch_is_empty, apply_metadata, apply_row,
  commit_batch,
}

module _ {StoredRow : Type 0} (d t k : Text) where
  abbrev pub touches_row : RowMutation StoredRow → Bool
  touches_row (put database table key row) = (database == d) && (table == t) && (key == k)
  touches_row (delete database table key) = (database == d) && (table == t) && (key == k)

module _ {StoredRow : Type 0} where
  abbrev pub written_row : RowMutation StoredRow → Option StoredRow
  written_row (put database table key row) = some row
  written_row (delete database table key) = none

module _ {Value Schema Auto : Type 0} where
  abbrev pub touches_table : Text → Text → MetadataMutation Value Schema Auto → Bool
  touches_table d t (put_catalog c) = false
  touches_table d t (delete_database database) = database == d
  touches_table d t (put_table database table state) = (database == d) && (table == t)
  touches_table d t (delete_table database table) = (database == d) && (table == t)

  abbrev pub deletes_table : Text → Text → MetadataMutation Value Schema Auto → Bool
  deletes_table d t (put_catalog c) = false
  deletes_table d t (delete_database database) = database == d
  deletes_table d t (put_table database table state) = false
  deletes_table d t (delete_table database table) = (database == d) && (table == t)

  abbrev pub written_table : MetadataMutation Value Schema Auto → Option (TableState Schema Auto)
  written_table (put_catalog c) = none
  written_table (delete_database database) = none
  written_table (put_table database table state) = some state
  written_table (delete_table database table) = none

  abbrev pub writes_catalog : MetadataMutation Value Schema Auto → Bool
  writes_catalog (put_catalog c) = true
  writes_catalog (delete_database database) = false
  writes_catalog (put_table database table state) = false
  writes_catalog (delete_table database table) = false

  abbrev pub written_catalog :
      StorageCatalog Value → MetadataMutation Value Schema Auto → StorageCatalog Value
  written_catalog v (put_catalog c) = c
  written_catalog v (delete_database database) = v
  written_catalog v (put_table database table state) = v
  written_catalog v (delete_table database table) = v

module _ {Value Schema Auto StoredRow : Type 0} where
  -- A row on which all mutations of a list agree.
  pub fold-apply_row :
      (d t k : Text) (v : Option StoredRow) (ms : List (RowMutation StoredRow))
      (c : Contents Value Schema Auto StoredRow)
      → All (λ m. touches_row d t k m ≡ true → written_row m ≡ v) ms
      → (fold apply_row c ms).rows d t k ≡ (if any (touches_row d t k) ms then v else c.rows d t k)
  unfolding apply_row
  fold-apply_row d t k v [] c h = refl
  fold-apply_row d t k v (put database table key row ∷ ms) c (hm, h) =
      ground (arith, fold-apply_row d t k v ms (apply_row c (put database table key row)) h, hm)
  fold-apply_row d t k v (delete database table key ∷ ms) c (hm, h) =
      ground (arith, fold-apply_row d t k v ms (apply_row c (delete database table key)) h, hm)

  pub fold-apply_row-metadata :
      (ms : List (RowMutation StoredRow)) (c : Contents Value Schema Auto StoredRow)
      → ((fold apply_row c ms).catalog ≡ c.catalog) × ((fold apply_row c ms).tables ≡ c.tables)
  unfolding apply_row
  fold-apply_row-metadata [] c = (refl, refl)
  fold-apply_row-metadata (put database table key row ∷ ms) c =
      fold-apply_row-metadata ms (apply_row c (put database table key row))
  fold-apply_row-metadata (delete database table key ∷ ms) c =
      fold-apply_row-metadata ms (apply_row c (delete database table key))

  pub fold-apply_metadata-tables :
      (d t : Text) (v : Option (TableState Schema Auto))
      (ms : List (MetadataMutation Value Schema Auto)) (c : Contents Value Schema Auto StoredRow)
      → All (λ m. touches_table d t m ≡ true → written_table m ≡ v) ms
      → (fold apply_metadata c ms).tables d t
        ≡ (if any (touches_table d t) ms then v else c.tables d t)
  unfolding apply_metadata
  fold-apply_metadata-tables d t v [] c h = refl
  fold-apply_metadata-tables d t v (put_catalog x ∷ ms) c (hm, h) =
      fold-apply_metadata-tables d t v ms (apply_metadata c (put_catalog x)) h
  fold-apply_metadata-tables d t v (delete_database db ∷ ms) c (hm, h) =
      ground
        (arith, fold-apply_metadata-tables d t v ms (apply_metadata c (delete_database db)) h, hm)
  fold-apply_metadata-tables d t v (put_table db tb st ∷ ms) c (hm, h) =
      ground
        (arith, fold-apply_metadata-tables d t v ms (apply_metadata c (put_table db tb st)) h, hm)
  fold-apply_metadata-tables d t v (delete_table db tb ∷ ms) c (hm, h) =
      ground
        (arith, fold-apply_metadata-tables d t v ms (apply_metadata c (delete_table db tb)) h, hm)

  pub fold-apply_metadata-rows :
      (d t k : Text) (ms : List (MetadataMutation Value Schema Auto))
      (c : Contents Value Schema Auto StoredRow)
      → (fold apply_metadata c ms).rows d t k
        ≡ (if any (deletes_table d t) ms then none else c.rows d t k)
  unfolding apply_metadata
  fold-apply_metadata-rows d t k [] c = refl
  fold-apply_metadata-rows d t k (put_catalog x ∷ ms) c =
      fold-apply_metadata-rows d t k ms (apply_metadata c (put_catalog x))
  fold-apply_metadata-rows d t k (delete_database db ∷ ms) c =
      ground (arith, fold-apply_metadata-rows d t k ms (apply_metadata c (delete_database db)))
  fold-apply_metadata-rows d t k (put_table db tb st ∷ ms) c =
      fold-apply_metadata-rows d t k ms (apply_metadata c (put_table db tb st))
  fold-apply_metadata-rows d t k (delete_table db tb ∷ ms) c =
      ground (arith, fold-apply_metadata-rows d t k ms (apply_metadata c (delete_table db tb)))

  pub fold-apply_metadata-catalog :
      (v : StorageCatalog Value) (ms : List (MetadataMutation Value Schema Auto))
      (c : Contents Value Schema Auto StoredRow)
      → All (λ m. written_catalog v m ≡ v) ms
      → (fold apply_metadata c ms).catalog ≡ (if any writes_catalog ms then some v else c.catalog)
  unfolding apply_metadata
  fold-apply_metadata-catalog v [] c h = refl
  fold-apply_metadata-catalog v (put_catalog x ∷ ms) c (hm, h) =
      ground (arith, fold-apply_metadata-catalog v ms (apply_metadata c (put_catalog x)) h, hm)
  fold-apply_metadata-catalog v (delete_database db ∷ ms) c (hm, h) =
      fold-apply_metadata-catalog v ms (apply_metadata c (delete_database db)) h
  fold-apply_metadata-catalog v (put_table db tb st ∷ ms) c (hm, h) =
      fold-apply_metadata-catalog v ms (apply_metadata c (put_table db tb st)) h
  fold-apply_metadata-catalog v (delete_table db tb ∷ ms) c (hm, h) =
      fold-apply_metadata-catalog v ms (apply_metadata c (delete_table db tb)) h

  -- The test for an empty batch changes nothing.
  pub commit_batch-fold :
      (c : Contents Value Schema Auto StoredRow) (ms : List (MetadataMutation Value Schema Auto))
      (rs : List (RowMutation StoredRow))
      → commit_batch c (record { metadata = ms; rows = rs })
        ≡ fold apply_row (fold apply_metadata c ms) rs
  unfolding commit_batch batch_is_empty
  commit_batch-fold c [] [] = refl
  commit_batch-fold c [] (r ∷ rs) = refl
  commit_batch-fold c (m ∷ ms) rs = refl

module _ {Value Schema Auto : Type 0} where
  pub deletes-touches :
      (d t : Text) (ms : List (MetadataMutation Value Schema Auto))
      → any (deletes_table d t) ms ≡ true
      → any (touches_table d t) ms ≡ true
  deletes-touches d t [] hit = hit
  deletes-touches d t (put_catalog c ∷ ms) hit = deletes-touches d t ms hit
  deletes-touches d t (delete_database db ∷ ms) hit = ground (arith, deletes-touches d t ms, hit)
  deletes-touches d t (put_table db tb st ∷ ms) hit = ground (arith, deletes-touches d t ms, hit)
  deletes-touches d t (delete_table db tb ∷ ms) hit = ground (arith, deletes-touches d t ms, hit)
