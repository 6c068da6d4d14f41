-- ===== src/Storage/Tests.antt =====
-- The refinement of storage at a concrete change: rows, schemas and counters are numbers.
use my_sqweel.Prelude.{
  ℕ, Text, [], ◌∷◌, some, true, ◌≡◌, refl, sym, ap, ◌∙◌, arith, Map, lookup, add, UniqueKeys,
  is_some, nat_eq, list_eq, list_beq_iff,
}
use my_sqweel.Prelude.{
  none, ◌+◌, ◌≢◌, true, insert, remove, lookup-insert, lookup-remove, starts_with, text_ltb,
}
use my_sqweel.Storage.Rocks.{
  KeyValue, h_set, del, namespace_prefix, field_key, iterate_from, is_passed, scan_page,
  scan_prefix_page, hscan, scan_rows, start_cursor, next_cursor, write_batch,
}
use my_sqweel.Prelude.{Option, is_plain, eqb, ◌-◌, if◌then◌else◌}
use my_sqweel.Storage.RocksBackend.{Json, rows_key, rocks_commit}
use my_sqweel.Storage.RocksBackendLaws.{rocks_commit-other}
use my_sqweel.Storage.RocksLaws.{write_batch-other}
use my_sqweel.Storage.CounterLaws.{recount, AgreeOnTables, storage_batch-recount}
use my_sqweel.Storage.Contract.{Contents, delete, put, delete_table, commit_batch}
use my_sqweel.Storage.Delta.{
  Snapshot, EngineState, storage_catalog, storage_batch, catalog_change, dropped_databases,
  database_tables, database_rows, table_changes, schema_changes, table_names, snapshot_tables, keys,
  get_in, row_changes, row_deletes, row_delete, row_puts, row_put,
}
use my_sqweel.Storage.Images.{table_of, row_of, IsConsistent, Holds}
use my_sqweel.Storage.Refinement.{commit_batch-storage_batch}

abbrev app : Text
app = b'a' ∷ []

abbrev items : Text
items = b'i' ∷ []

abbrev users : Text
users = b'u' ∷ []

abbrev image : Map Text ℕ → Map Text (Map Text ℕ) → EngineState ℕ ℕ ℕ ℕ
image schemas rows = record {
  metadata = 0;
  databases =
      (
        app,
        record { schemas = schemas; rows = rows; auto_inc = []; views = []; index_comments = [] },
      )
      ∷ [];
}

-- `items` has one row, which changes; `users` is dropped.
abbrev before : EngineState ℕ ℕ ℕ ℕ
before =
    image ((items, 1) ∷ (users, 2) ∷ []) ((items, (app, 10) ∷ []) ∷ (users, (app, 20) ∷ []) ∷ [])

abbrev after : EngineState ℕ ℕ ℕ ℕ
after = image ((items, 1) ∷ []) ((items, (app, 11) ∷ []) ∷ [])

batch : storage_batch before after ≡ record {
  metadata = delete_table app users ∷ [];
  rows = put app items app 11 ∷ delete app users app ∷ [];
}
unfolding storage_batch storage_catalog catalog_change dropped_databases database_tables
    database_rows table_changes schema_changes table_names snapshot_tables keys get_in row_changes
    row_deletes row_delete row_puts row_put lookup add
batch = refl

abbrev stored : Contents ℕ ℕ ℕ ℕ
stored = record {
  catalog = some (storage_catalog before);
  tables = table_of before;
  rows = row_of before;
}

stored-Holds : Holds before stored
stored-Holds = record { catalog = refl; tables = λ d t. refl; rows = λ d t k. refl }

lookup-one :
    {V : Type 0} (k j : Text) (v w : V) → lookup k ((j, v) ∷ []) ≡ some w → (j ≡ k) × (v ≡ w)
unfolding lookup
lookup-one k j v w h = (ground (arith, list_beq_iff j k), ground (arith, list_beq_iff j k))

after_rows :
    (d : Text) (s : Snapshot ℕ ℕ ℕ)
    → lookup d after.databases ≡ some s
    → (t : Text) (rs : Map Text ℕ) → lookup t s.rows ≡ some rs
    → UniqueKeys rs × (is_some (lookup t s.schemas) ≡ true)
unfolding lookup
after_rows d s here t rs there =
    let S : Snapshot ℕ ℕ ℕ = record {
      schemas = (items, 1) ∷ [];
      rows = (items, (app, 11) ∷ []) ∷ [];
      auto_inc = [];
      views = [];
      index_comments = [];
    } in
    let is_s : S ≡ s = (lookup-one d app S s here).1 in
    let found : lookup t S.rows ≡ some rs =
      ap (λ (x : Snapshot ℕ ℕ ℕ). lookup t x.rows) is_s ∙ there in
    let one = lookup-one t items ((app, 11) ∷ []) rs found in
    (rw (sym one.1) (refl, tt), rw (sym is_s) (ground (arith, one.0, list_beq_iff items t)))

after-IsConsistent : IsConsistent after
unfolding lookup
after-IsConsistent = record { databases = (refl, tt); rows = after_rows }

commit_batch-storage_batch_example : Holds after (commit_batch stored (storage_batch before after))
commit_batch-storage_batch_example =
    commit_batch-storage_batch before after stored after-IsConsistent stored-Holds

-- The engine's counter of the column `c` of `items`, which stands under `i:c`.
abbrev engine_counters : Text → Map Text ℕ
engine_counters database = ((b'i' ∷ b':' ∷ b'c' ∷ []), 7) ∷ []

counters_agree : AgreeOnTables engine_counters after
unfolding lookup
counters_agree = (
  λ table h. ground (
    arith,
    list_beq_iff items table,
    list_beq_iff (b'i' ∷ b':' ∷ b'c' ∷ []) table,
    list_beq_iff (b'i' ∷ b':' ∷ b'c' ∷ []) items,
  ),
  tt,
)

-- The counter is not stored.
storage_batch-recount_example :
    storage_batch before (recount engine_counters after) ≡ storage_batch before after
storage_batch-recount_example = storage_batch-recount engine_counters before after counters_agree

-- The database as a list of entries, which the test keeps in the order of their keys.
abbrev map_store : KeyValue (Map Text Text)
map_store = record {
  entries = λ m. m;
  put_entry = insert;
  delete_entry = remove;
  entries-put_entry = λ key value other db. lookup-insert key other value db;
  entries-delete_entry = λ key other db. lookup-remove key other db;
}

-- The hash `a` with the fields `0` and `1`, and the hash `i` with one field.
abbrev two_hashes : Map Text Text
two_hashes =
    ((b'a' ∷ 0 ∷ b'0' ∷ []), (b'x' ∷ []))
    ∷ ((b'a' ∷ 0 ∷ b'1' ∷ []), (b'y' ∷ []))
    ∷ ((b'i' ∷ 0 ∷ b'0' ∷ []), (b'z' ∷ []))
    ∷ []

app_not_items : app ≢ items
app_not_items same = ground (arith, list_beq_iff app items, same)

users_not_items : users ≢ items
users_not_items same = ground (arith, list_beq_iff users items, same)

write_batch-other_example :
    lookup
      (field_key items (b'0' ∷ []))
      (write_batch map_store two_hashes (del app ∷ h_set users app app ∷ []))
    ≡ lookup (field_key items (b'0' ∷ [])) two_hashes
write_batch-other_example =
    write_batch-other map_store two_hashes (del app ∷ h_set users app app ∷ []) items (b'0' ∷ [])
      refl ((refl, app_not_items), ((refl, users_not_items), tt))

-- A page that ends at the field `0` looks like the last one, though the field `1` follows.
ends_early : scan_rows map_store two_hashes app none 1 ≡ (((b'0' ∷ []), (b'x' ∷ [])) ∷ [], none)
unfolding scan_rows hscan next_cursor start_cursor scan_prefix_page scan_page is_passed iterate_from
    namespace_prefix starts_with text_ltb
ends_early = refl

full_page :
    scan_rows map_store two_hashes app none 2
    ≡ (((b'0' ∷ []), (b'x' ∷ [])) ∷ ((b'1' ∷ []), (b'y' ∷ [])) ∷ [], none)
unfolding scan_rows hscan next_cursor start_cursor scan_prefix_page scan_page is_passed iterate_from
    namespace_prefix starts_with text_ltb
full_page = refl

-- In place of JSON: code points two higher, so that 1 can end the first name.
abbrev shift : Text → Text
shift [] = []
shift (c ∷ s) = (c + 2) ∷ shift s

abbrev unshift : Text → Text
unshift [] = []
unshift (c ∷ s) = (c - 2) ∷ unshift s

abbrev encode_pair : Text → Text → Text
encode_pair [] t = 1 ∷ shift t
encode_pair (c ∷ d) t = (c + 2) ∷ encode_pair d t

abbrev prepend : ℕ → Option (Text × Text) → Option (Text × Text)
prepend c none = none
prepend c (some (d, t)) = some (c ∷ d, t)

abbrev decode_pair : Text → Option (Text × Text)
decode_pair [] = none
decode_pair (c ∷ s) =
    let rest = prepend (c - 2) (decode_pair s) in if eqb c 1 then some ([], unshift s) else rest

unshift-shift : (t : Text) → unshift (shift t) ≡ t
unshift-shift [] = refl
unshift-shift (c ∷ t) = ground (arith, unshift-shift t)

decode_pair-encode_pair : (d t : Text) → decode_pair (encode_pair d t) ≡ some (d, t)
decode_pair-encode_pair [] t = ground (arith, unshift-shift t)
decode_pair-encode_pair (c ∷ d) t = ground (arith, decode_pair-encode_pair d t)

shift-is_plain : (t : Text) → is_plain (shift t) ≡ true
shift-is_plain [] = refl
shift-is_plain (c ∷ t) = ground (arith, shift-is_plain t)

encode_pair-is_plain : (d t : Text) → is_plain (encode_pair d t) ≡ true
encode_pair-is_plain [] t = ground (arith, shift-is_plain t)
encode_pair-is_plain (c ∷ d) t = ground (arith, encode_pair-is_plain d t)

abbrev toy_json : Json ℕ ℕ ℕ ℕ
toy_json = record {
  catalog_text = λ c. c.version ∷ [];
  state_text = λ s. s.schema ∷ [];
  row_text = λ r. r ∷ [];
  encode_table_key = encode_pair;
  decode_table_key = decode_pair;
  decode-encode = decode_pair-encode_pair;
  encode-is_plain = encode_pair-is_plain;
}

-- A row of `items`, while `users` is dropped and gets a row.
rocks_commit-other_example :
    lookup (field_key (rows_key toy_json app items) app) (
      rocks_commit toy_json map_store
        ((field_key (rows_key toy_json app items) app, b'x' ∷ []) ∷ [])
        (record { metadata = delete_table app users ∷ []; rows = put app users app 5 ∷ [] }))
    ≡ lookup
        (field_key (rows_key toy_json app items) app)
        ((field_key (rows_key toy_json app items) app, b'x' ∷ []) ∷ [])
rocks_commit-other_example =
    rocks_commit-other toy_json map_store
      ((field_key (rows_key toy_json app items) app, b'x' ∷ []) ∷ [])
      (record { metadata = delete_table app users ∷ []; rows = put app users app 5 ∷ [] }) app items
      app (refl, tt) (refl, tt)
