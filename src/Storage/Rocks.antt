-- ===== src/Storage/Rocks.antt =====
-- `RocksDbStore` of src/storage/mod.rs: hashes in a key-value database, whose operations are the fields of an
-- interface. A stored key is the hash's key, a zero byte and the field.
use my_sqweel.Prelude.{
  ℕ, zero, suc, ◌+◌, ◌-◌, ◌^◌, max, min, Text, List, [], ◌∷◌, ◌++◌, Option, none, some, Bool, true,
  false, not, ◌≡◌, Map, lookup, length, drop, take, last?, map, fold, ltb, is_some_and, starts_with,
  text_ltb, ◌==◌, nat_eq, list_eq, if◌then◌else◌,
}

-- RocksDB: `entries` are its keys and values in the order of its iterator.
pub record KeyValue (Db : Type 0) : Type 0 where
  pub entries : Db → Map Text Text
  pub put_entry : Text → Text → Db → Db
  pub delete_entry : Text → Db → Db
  pub entries-put_entry :
      (key value other : Text) (db : Db)
      → lookup other (entries (put_entry key value db))
        ≡ (if key == other then some value else lookup other (entries db))
  pub entries-delete_entry :
      (key other : Text) (db : Db)
      → lookup other (entries (delete_entry key db))
        ≡ (if key == other then none else lookup other (entries db))

pub data StorageWrite : Type 0 where
  h_set : Text → Text → Text → StorageWrite
  h_del : Text → Text → StorageWrite
  del : Text → StorageWrite

unfoldable pub namespace_prefix : Text → Text
namespace_prefix key = key ++ (0 ∷ [])

unfoldable pub field_key : Text → Text → Text
field_key key field = namespace_prefix key ++ field

-- `IteratorMode::From(start, Direction::Forward)`.
unfoldable pub iterate_from : Text → Map Text Text → Map Text Text
iterate_from start [] = []
iterate_from start ((key, value) ∷ rest) =
    let later = iterate_from start rest in if text_ltb key start then later else (key, value) ∷ rest

-- `k <= cursor`, for a cursor.
unfoldable pub is_passed : Option Text → Text → Bool
is_passed cursor key = is_some_and cursor (λ c. not (text_ltb c key))

-- The loop, with the number of rows still wanted.
unfoldable pub scan_page : Text → Option Text → ℕ → Map Text Text → Map Text Text
scan_page prefix cursor wanted [] = []
scan_page prefix cursor zero entries = []
scan_page prefix cursor (suc wanted) ((key, value) ∷ rest) =
    let skip = scan_page prefix cursor (suc wanted) rest in
    let keep = scan_page prefix cursor wanted rest in
    if not (starts_with prefix key)
    then []
    else if is_passed cursor key
    then skip
    else (key, value) ∷ keep

module _ {Db : Type 0} (store : KeyValue Db) where
  unfoldable pub scan_prefix_page : Db → Text → Option Text → ℕ → Map Text Text
  scan_prefix_page db prefix cursor count =
      scan_page prefix cursor (max count 1)
        (iterate_from (elim cursor [ none ↦ prefix | some c ↦ c ]) (store.entries db))

  -- `usize::MAX` rows.
  unfoldable pub scan_prefix : Db → Text → Map Text Text
  scan_prefix db prefix = scan_prefix_page db prefix none (2 ^ 64 - 1)

  unfoldable pub hset : Db → Text → Text → Text → Db
  hset db key field value = store.put_entry (field_key key field) value db

  unfoldable pub hdel : Db → Text → Text → Db
  hdel db key field = store.delete_entry (field_key key field) db

  unfoldable pub hgetall : Db → Text → Map Text Text
  hgetall db key =
      map (λ (p : Text × Text). (drop (length (namespace_prefix key)) p.0, p.1))
        (scan_prefix db (namespace_prefix key))

  -- The marker of the end, and a cursor that starts from the beginning.
  abbrev pub end_marker : Text
  end_marker = b'0' ∷ []

  unfoldable pub start_cursor : Text → Option Text → Option Text
  start_cursor key none = none
  start_cursor key (some cursor) =
      if cursor == end_marker then none else some (namespace_prefix key ++ cursor)

  unfoldable pub next_cursor : Bool → Map Text Text → Text
  next_cursor false rows = end_marker
  next_cursor true rows = elim (last? rows) [ none ↦ [] | some row ↦ row.0 ]

  unfoldable pub hscan : Db → Text → Option Text → ℕ → Text × Map Text Text
  hscan db key cursor count =
      let prefix = namespace_prefix key in
      let found =
        scan_prefix_page db prefix (start_cursor key cursor) (min (count + 1) (2 ^ 64 - 1)) in
      let rows =
        map (λ (p : Text × Text). (drop (length prefix) p.0, p.1)) (take (max count 1) found) in
      (next_cursor (ltb (max count 1) (length found)) rows, rows)

  -- The deletions of `Del` are those of the keys that are stored when the batch is built.
  unfoldable pub batch_write : Db → Db → StorageWrite → Db
  batch_write before db (h_set key field value) = hset db key field value
  batch_write before db (h_del key field) = hdel db key field
  batch_write before db (del key) =
      fold (λ d (p : Text × Text). store.delete_entry p.0 d) db
        (scan_prefix before (namespace_prefix key))

  unfoldable pub write_batch : Db → List StorageWrite → Db
  write_batch db writes = fold (batch_write db) db writes

  -- `RocksDbStorage::scan_rows`, with the rows still encoded.
  unfoldable pub scan_rows : Db → Text → Option Text → ℕ → Map Text Text × Option Text
  scan_rows db key cursor limit =
      let page = hscan db key cursor limit in
      (page.1, if page.0 == end_marker then none else some page.0)
