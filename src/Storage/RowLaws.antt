-- ===== src/Storage/RowLaws.antt =====
-- The row mutations of one table (src/storage/delta.rs) write what the new state has, and all that differs.
use my_sqweel.Prelude.{
  Text, List, ◌++◌, Option, none, some, true, false, ◌≡◌, refl, sym, ◌∙◌, arith, ◌⊎◌, inl, inr, All,
  All-append, All-flat_map, All-every, any, any-append, any-flat_map-contains, any-flat_map-lookup,
  All-lookup, UniqueKeys, Map, lookup, ◌==◌, Eq, nat_eq, list_eq, option_eq, pair_eq, list_beq_iff,
  option_beq_iff, Option-cases, Bool-cases,
}
use my_sqweel.Storage.Contract.{metadata_eq, catalog_eq, RowMutation}
use my_sqweel.Storage.Delta.{keys, get_in, row_delete, row_put, row_deletes, row_puts}
use my_sqweel.Storage.Folds.{touches_row, written_row}
use my_sqweel.Storage.Images.{contains-keys}

module _ {StoredRow : Type 0} ⦃er : Eq StoredRow⦄ where
  abbrev pub block_rows :
      Text
      → Text
      → Option (Map Text StoredRow)
      → Option (Map Text StoredRow)
      → List (RowMutation StoredRow)
  block_rows d t old new = row_deletes d t old new ++ row_puts d t old new

  abbrev pub row_in : Text → Option (Map Text StoredRow) → Option StoredRow
  row_in k rows = get_in rows (λ m. lookup k m)

  abbrev pub UniqueIn : Option (Map Text StoredRow) → Type 0
  UniqueIn rows = (m : Map Text StoredRow) → rows ≡ some m → UniqueKeys m

  -- A mutation that touches the row belongs to this table and writes `v`.
  abbrev pub SoundRow :
      Text → Text → Text → Text → Text → Option StoredRow → RowMutation StoredRow → Type 0
  SoundRow d t d' t' k v m =
      touches_row d' t' k m ≡ true → (d ≡ d') × (t ≡ t') × (written_row m ≡ v)

  row_delete_sound :
      (d t : Text) (new : Option (Map Text StoredRow)) (d' t' k x : Text)
      → All (SoundRow d t d' t' k (row_in k new)) (row_delete d t new x)
  unfolding row_delete get_in
  row_delete_sound d t none d' t' k x =
      (λ touched. ground (arith, list_beq_iff d d', list_beq_iff t t'), tt)
  row_delete_sound d t (some m) d' t' k x = elim (Option-cases (lookup x m)) [
    | inl gone ↦ rw gone (
      λ touched. ground (arith, list_beq_iff d d', list_beq_iff t t', list_beq_iff x k, gone),
      tt,
    )
    | inr (r, kept) ↦ rw kept tt
  ]

  row_deletes_sound :
      (d t : Text) (old new : Option (Map Text StoredRow)) (d' t' k : Text)
      → All (SoundRow d t d' t' k (row_in k new)) (row_deletes d t old new)
  unfolding row_deletes
  row_deletes_sound d t none new d' t' k = tt
  row_deletes_sound d t (some rows) new d' t' k =
      All-flat_map (λ (x : Text). Unit {0}) (SoundRow d t d' t' k (row_in k new))
        (row_delete d t new) (keys rows) (All-every (λ (x : Text). Unit {0}) (keys rows) (λ x. tt))
        (λ x _. row_delete_sound d t new d' t' k x)

  row_put_sound :
      (d t : Text) (old : Option (Map Text StoredRow)) (m : Map Text StoredRow) (d' t' k : Text)
      (p : Text × StoredRow)
      → lookup p.0 m ≡ some p.1
      → All (SoundRow d t d' t' k (lookup k m)) (row_put d t old p)
  unfolding row_put
  row_put_sound d t old m d' t' k (x, r) here =
      elim (Bool-cases (get_in old (λ rows. lookup x rows) == some r)) [
        | inl same ↦ rw same tt
        | inr new ↦ rw new (
          λ touched. ground (arith, list_beq_iff d d', list_beq_iff t t', list_beq_iff x k, here),
          tt,
        )
      ]

  row_puts_sound :
      (d t : Text) (old new : Option (Map Text StoredRow)) (d' t' k : Text)
      → UniqueIn new
      → All (SoundRow d t d' t' k (row_in k new)) (row_puts d t old new)
  unfolding row_puts get_in
  row_puts_sound d t old none d' t' k u = tt
  row_puts_sound d t old (some m) d' t' k u =
      All-flat_map (λ (p : Text × StoredRow). lookup p.0 m ≡ some p.1)
        (SoundRow d t d' t' k (lookup k m)) (row_put d t old) m (All-lookup m (u m refl))
        (row_put_sound d t old m d' t' k)

  -- Each mutation of a table's rows writes what the new state has.
  pub block_rows_sound :
      (d t : Text) (old new : Option (Map Text StoredRow)) (d' t' k : Text)
      → UniqueIn new
      → All (SoundRow d t d' t' k (row_in k new)) (block_rows d t old new)
  block_rows_sound d t old new d' t' k u =
      All-append _ (row_deletes d t old new) (row_puts d t old new)
        (row_deletes_sound d t old new d' t' k) (row_puts_sound d t old new d' t' k u)

  row_deletes_complete :
      (d t : Text) (old new : Option (Map Text StoredRow)) (k : Text) (r : StoredRow)
      → row_in k old ≡ some r
      → row_in k new ≡ none
      → any (touches_row d t k) (row_deletes d t old new) ≡ true
  unfolding row_deletes row_delete get_in
  row_deletes_complete d t none new k r was gone = cc
  row_deletes_complete d t (some rows) none k r was gone =
      any-flat_map-contains (touches_row d t k) (row_delete d t none) (keys rows) k
        (ground (arith, contains-keys rows k))
        (ground (arith, list_beq_iff d d, list_beq_iff t t, list_beq_iff k k))
  row_deletes_complete d t (some rows) (some m) k r was gone =
      any-flat_map-contains (touches_row d t k) (row_delete d t (some m)) (keys rows) k
        (ground (arith, contains-keys rows k))
        (ground (arith, gone, list_beq_iff d d, list_beq_iff t t, list_beq_iff k k))

  row_puts_complete :
      (d t : Text) (old new : Option (Map Text StoredRow)) (k : Text) (r : StoredRow)
      → row_in k new ≡ some r
      → (row_in k old == some r) ≡ false
      → any (touches_row d t k) (row_puts d t old new) ≡ true
  unfolding row_puts row_put get_in
  row_puts_complete d t old none k r there changed = cc
  row_puts_complete d t old (some m) k r there changed =
      any-flat_map-lookup (touches_row d t k) (row_put d t old) m k r there
        (ground (arith, changed, list_beq_iff d d, list_beq_iff t t, list_beq_iff k k))

  -- A row that differs is written or deleted.
  pub block_rows_complete :
      (d t : Text) (old new : Option (Map Text StoredRow)) (k : Text)
      → (any (touches_row d t k) (block_rows d t old new) ≡ true) ⊎ (row_in k old ≡ row_in k new)
  block_rows_complete d t old new k = elim (Option-cases (row_in k new)) [
    | inl gone ↦ elim (Option-cases (row_in k old)) [
      | inl never ↦ inr (never ∙ sym gone)
      | inr (r, was) ↦ inl (
          any-append (touches_row d t k) (row_deletes d t old new) (row_puts d t old new)
          ∙ ground (arith, row_deletes_complete d t old new k r was gone))
    ]
    | inr (r, there) ↦ elim (Bool-cases (row_in k old == some r)) [
      | inl same ↦ inr ((option_beq_iff (row_in k old) (some r)).0 same ∙ sym there)
      | inr changed ↦ inl (
          any-append (touches_row d t k) (row_deletes d t old new) (row_puts d t old new)
          ∙ ground (arith, row_puts_complete d t old new k r there changed))
    ]
  ]
