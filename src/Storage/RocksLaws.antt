-- ===== src/Storage/RocksLaws.antt =====
-- Scans and batches of `RocksDbStore` (src/storage/mod.rs).
use my_sqweel.Prelude.{
  is_plain, ℕ, zero, suc, ◌-◌, ◌^◌, ◌≤◌, max, Text, List, [], ◌∷◌, Option, none, true, false, ◌≡◌,
  ◌≢◌, refl, sym, ap, ◌∙◌, arith, All, All-weaken, Map, lookup, length, fold, starts_with,
  starts_with-append, list_beq_iff, nat_eq, list_eq, Bool-cases, inl, inr,
}
use my_sqweel.Storage.Rocks.{
  KeyValue, StorageWrite, h_set, h_del, del, namespace_prefix, field_key, is_passed, scan_page,
  scan_prefix_page, scan_prefix, hset, hdel, batch_write, write_batch,
}

abbrev pub write_key : StorageWrite → Text
write_key (h_set key field value) = key
write_key (h_del key field) = key
write_key (del key) = key

namespace_prefix-eq :
    (k j f : Text)
    → is_plain k ≡ true
    → is_plain j ≡ true
    → starts_with (namespace_prefix k) (field_key j f) ≡ true
    → k ≡ j
unfolding namespace_prefix field_key starts_with
namespace_prefix-eq [] [] f pk pj h = refl
namespace_prefix-eq [] (d ∷ j) f pk pj h = absurd (ground (arith, pj, h))
namespace_prefix-eq (c ∷ k) [] f pk pj h = absurd (ground (arith, pk, h))
namespace_prefix-eq (c ∷ k) (d ∷ j) f pk pj h = ground (arith, namespace_prefix-eq k j f, pk, pj, h)

field_key-eq :
    (k j f g : Text) → is_plain k ≡ true → is_plain j ≡ true → field_key k f ≡ field_key j g → k ≡ j
unfolding field_key
field_key-eq k j f g pk pj h =
    namespace_prefix-eq k j g pk pj
      (ap (starts_with (namespace_prefix k)) (sym h) ∙ starts_with-append (namespace_prefix k) f)

-- A scan returns keys with the prefix, after the cursor.
scan_page-prefix :
    (prefix : Text) (cursor : Option Text) (wanted : ℕ) (entries : Map Text Text)
    → All
        (λ (p : Text × Text). (starts_with prefix p.0 ≡ true) × (is_passed cursor p.0 ≡ false))
        (scan_page prefix cursor wanted entries)
unfolding scan_page
scan_page-prefix prefix cursor wanted [] = tt
scan_page-prefix prefix cursor zero ((key, value) ∷ rest) = tt
scan_page-prefix prefix cursor (suc wanted) ((key, value) ∷ rest) =
    elim (Bool-cases (starts_with prefix key)) [
      | inr other ↦ rw other tt
      | inl inside ↦ elim (Bool-cases (is_passed cursor key)) [
        | inl passed ↦ rw (inside, passed) (scan_page-prefix prefix cursor (suc wanted) rest)
        | inr new ↦ rw (inside, new) ((inside, new), scan_page-prefix prefix cursor wanted rest)
      ]
    ]

length-scan_page :
    (prefix : Text) (cursor : Option Text) (wanted : ℕ) (entries : Map Text Text)
    → length (scan_page prefix cursor wanted entries) ≤ wanted
unfolding scan_page
length-scan_page prefix cursor wanted [] = omega arith
length-scan_page prefix cursor zero ((key, value) ∷ rest) = omega arith
length-scan_page prefix cursor (suc wanted) ((key, value) ∷ rest) = ground (
  arith,
  length-scan_page prefix cursor (suc wanted) rest,
  length-scan_page prefix cursor wanted rest,
)

module _ {Db : Type 0} (store : KeyValue Db) where
  -- The size of a page, and the keys in it.
  pub scan_prefix_page-bounds :
      (db : Db) (prefix : Text) (cursor : Option Text) (count : ℕ)
      → (length (scan_prefix_page store db prefix cursor count) ≤ max count 1)
        × All
            (λ (p : Text × Text). (starts_with prefix p.0 ≡ true) × (is_passed cursor p.0 ≡ false))
            (scan_prefix_page store db prefix cursor count)
  unfolding scan_prefix_page
  scan_prefix_page-bounds db prefix cursor count = (
    length-scan_page prefix cursor (max count 1) _,
    scan_page-prefix prefix cursor (max count 1) _,
  )

  fold-delete_entry :
      (other : Text) (ps : Map Text Text) (db : Db)
      → All (λ (p : Text × Text). p.0 ≢ other) ps
      → lookup other (store.entries (fold (λ d (p : Text × Text). store.delete_entry p.0 d) db ps))
        ≡ lookup other (store.entries db)
  fold-delete_entry other [] db h = refl
  fold-delete_entry other ((k, v) ∷ ps) db (hk, h) =
      fold-delete_entry other ps (store.delete_entry k db) h
      ∙ ground (arith, store.entries-delete_entry k other db, hk, list_beq_iff k other)

  batch_write-other :
      (before db : Db) (w : StorageWrite) (key field : Text)
      → is_plain key ≡ true
      → is_plain (write_key w) ≡ true
      → write_key w ≢ key
      → lookup (field_key key field) (store.entries (batch_write store before db w))
        ≡ lookup (field_key key field) (store.entries db)
  unfolding batch_write hset hdel
  batch_write-other before db (h_set k f v) key field plain pk ne =
      store.entries-put_entry (field_key k f) v (field_key key field) db
      ∙ ground (
        arith,
        list_beq_iff (field_key k f) (field_key key field),
        field_key-eq k key f field pk plain,
        ne,
      )
  batch_write-other before db (h_del k f) key field plain pk ne =
      store.entries-delete_entry (field_key k f) (field_key key field) db
      ∙ ground (
        arith,
        list_beq_iff (field_key k f) (field_key key field),
        field_key-eq k key f field pk plain,
        ne,
      )
  batch_write-other before db (del k) key field plain pk ne =
      let prefix = namespace_prefix k in
      fold-delete_entry (field_key key field) (scan_prefix store before prefix) db (
        unfold scan_prefix in
        All-weaken
          (λ (p : Text × Text). (starts_with prefix p.0 ≡ true) × (is_passed none p.0 ≡ false))
          (λ (p : Text × Text). p.0 ≢ field_key key field)
          (scan_prefix_page store before prefix none (2 ^ 64 - 1))
          (scan_prefix_page-bounds before prefix none (2 ^ 64 - 1)).1
          (λ p (inside, fresh) same. ne (
            namespace_prefix-eq k key field pk plain
              (ap (starts_with prefix) (sym same) ∙ inside))))

  batch_writes-other :
      (before : Db) (writes : List StorageWrite) (db : Db) (key field : Text)
      → is_plain key ≡ true
      → All (λ w. (is_plain (write_key w) ≡ true) × (write_key w ≢ key)) writes
      → lookup (field_key key field) (store.entries (fold (batch_write store before) db writes))
        ≡ lookup (field_key key field) (store.entries db)
  batch_writes-other before [] db key field plain h = refl
  batch_writes-other before (w ∷ writes) db key field plain ((pw, ne), h) =
      batch_writes-other before writes (batch_write store before db w) key field plain h
      ∙ batch_write-other before db w key field plain pw ne

  -- A batch changes only the hashes that it names: as long as no key contains a zero byte, every field of
  -- every other hash keeps its value, also when whole hashes are deleted.
  pub write_batch-other :
      (db : Db) (writes : List StorageWrite) (key field : Text)
      → is_plain key ≡ true
      → All (λ w. (is_plain (write_key w) ≡ true) × (write_key w ≢ key)) writes
      → lookup (field_key key field) (store.entries (write_batch store db writes))
        ≡ lookup (field_key key field) (store.entries db)
  unfolding write_batch
  write_batch-other db writes key field plain h = batch_writes-other db writes db key field plain h
