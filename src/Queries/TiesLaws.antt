-- ===== src/Queries/TiesLaws.antt =====
-- The rows that FETCH FIRST ... WITH TIES leaves (src/sql/engine/query.rs).
use my_sqweel.Prelude.{
  ℕ, zero, suc, ◌+◌, ◌-◌, ◌^◌, ◌≤◌, ◌<◌, Text, List, [], ◌∷◌, map, Option, if◌then◌else◌, leb, eqb,
  min, length, take, drop, unwrap_or, Eq, ◌==◌, list_eq, Result, ok, ◌≡◌, refl, sym, ◌∙◌, ap, arith,
  Bool-cases, inl, inr,
}
use my_sqweel.Queries.Ties.{order_values, count_peers, with_peers, apply_fetch_with_ties}

suc_add : (m n : ℕ) → suc m + n ≡ suc (m + n)
suc_add m n = omega arith

zero_add : (n : ℕ) → 0 + n ≡ n
zero_add n = omega arith

module _ {Row Expr Value : Type 0} ⦃e : Eq Value⦄ (value : Expr → Row → Value)
    (order_by : List Expr) where
  abbrev evaluated : Expr → Row → Result Text Value
  evaluated expr row = ok (value expr row)

  -- The longest run of rows at the front with the same values under ORDER BY as a row.
  abbrev pub same_order : Row → List Row → List Row
  same_order boundary [] = []
  same_order boundary (row ∷ rows) =
      let rest = same_order boundary rows in
      if map (λ expr. value expr row) order_by == map (λ expr. value expr boundary) order_by
      then row ∷ rest
      else []

  -- The rows after an offset, as many as are fetched, and the peers of the last of them.
  abbrev pub with_ties : ℕ → List Row → List Row
  with_ties n [] = []
  with_ties zero (row ∷ rows) = []
  with_ties (suc zero) (row ∷ rows) = row ∷ same_order row rows
  with_ties (suc (suc n)) (row ∷ rows) = row ∷ with_ties (suc n) rows

  order_values_lem :
      (exprs : List Expr) (row : Row)
      → order_values evaluated order_by exprs row ≡ ok (map (λ expr. value expr row) exprs)
  unfolding order_values
  order_values_lem [] row = refl
  order_values_lem (expr ∷ exprs) row = rw (order_values_lem exprs row) refl

  count_peers_lem :
      (boundary : Row) (rows : List Row)
      → count_peers evaluated order_by (map (λ expr. value expr boundary) order_by) rows
        ≡ ok (length (same_order boundary rows))
  unfolding count_peers
  count_peers_lem boundary [] = refl
  count_peers_lem boundary (row ∷ rows) =
      elim (Bool-cases
        (map (λ expr. value expr row) order_by == map (λ expr. value expr boundary) order_by)) [
          | inl same ↦ rw (order_values_lem order_by row, same, count_peers_lem boundary rows) refl
          | inr other ↦ rw (order_values_lem order_by row, other) refl
        ]

  take-same_order :
      (boundary : Row) (rows : List Row)
      → take (length (same_order boundary rows)) rows ≡ same_order boundary rows
  take-same_order boundary [] = refl
  take-same_order boundary (row ∷ rows) =
      elim (Bool-cases
        (map (λ expr. value expr row) order_by == map (λ expr. value expr boundary) order_by)) [
          | inl same ↦ rw (same, take-same_order boundary rows) refl
          | inr other ↦ rw other refl
        ]

  -- What is cut from the rows, from the rows at the boundary on.
  abbrev cut : ℕ → ℕ → List Row → List Row → List Row
  cut start index rows [] = drop start rows
  cut start index rows (boundary ∷ others) =
      drop start (take (suc (index + length (same_order boundary others))) rows)

  with_peers_lem :
      (start index : ℕ) (rows others : List Row)
      → with_peers evaluated order_by start index rows others ≡ ok (cut start index rows others)
  with_peers_lem start index rows [] = refl
  with_peers_lem start index rows (boundary ∷ others) =
      let n = length (same_order boundary others) in
      let one : index + 1 + n ≡ suc (index + n) = omega arith in
      rw (order_values_lem order_by boundary, count_peers_lem boundary others, one) refl

  cut-first :
      (index : ℕ) (row : Row) (rows others : List Row)
      → cut 0 (suc index) (row ∷ rows) others ≡ row ∷ cut 0 index rows others
  cut-first index row rows [] = refl
  cut-first index row rows (boundary ∷ others) =
      ap (λ t. take (suc t) (row ∷ rows)) (suc_add index (length (same_order boundary others)))

  cut-next :
      (start index : ℕ) (row : Row) (rows others : List Row)
      → cut (suc start) (suc index) (row ∷ rows) others ≡ cut start index rows others
  cut-next start index row rows [] = refl
  cut-next start index row rows (boundary ∷ others) =
      ap (λ t. drop (suc start) (take (suc t) (row ∷ rows)))
        (suc_add index (length (same_order boundary others)))

  cut_first_rows :
      (index : ℕ) (rows : List Row)
      → cut 0 index rows (drop index rows) ≡ with_ties (suc index) rows
  cut_first_rows zero [] = refl
  cut_first_rows (suc index) [] = refl
  cut_first_rows zero (row ∷ rows) =
      ap (λ t. take (suc t) (row ∷ rows)) (zero_add (length (same_order row rows)))
      ∙ ap (λ r. row ∷ r) (take-same_order row rows)
  cut_first_rows (suc index) (row ∷ rows) =
      cut-first index row rows (drop index rows) ∙ ap (λ r. row ∷ r) (cut_first_rows index rows)

  cut_rows :
      (start n : ℕ) (rows : List Row)
      → cut start (start + n) rows (drop (start + n) rows) ≡ with_ties (suc n) (drop start rows)
  cut_rows zero n rows = ap (λ t. cut 0 t rows (drop t rows)) (zero_add n) ∙ cut_first_rows n rows
  cut_rows (suc start) n [] = ap (λ t. cut (suc start) t [] (drop {A = Row} t [])) (suc_add start n)
  cut_rows (suc start) n (row ∷ rows) =
      ap (λ t. cut (suc start) t (row ∷ rows) (drop t (row ∷ rows))) (suc_add start n)
      ∙ cut-next start (start + n) row rows (drop (start + n) rows)
      ∙ cut_rows start n rows

  drop_all : (n : ℕ) (rows : List Row) → length rows ≤ n → drop n rows ≡ []
  drop_all zero [] h = refl
  drop_all zero (row ∷ rows) h = absurd (omega (arith, h))
  drop_all (suc n) [] h = refl
  drop_all (suc n) (row ∷ rows) h = drop_all n rows (omega (arith, h))

  with_ties-zero : (rows : List Row) → with_ties 0 rows ≡ []
  with_ties-zero [] = refl
  with_ties-zero (row ∷ rows) = refl

  -- When the expressions of ORDER BY have values and the offset and the quantity add up to a number
  -- below 2^64, the result is the rows after the offset, as many as the quantity and then the run of
  -- rows that agree with the last of these under ORDER BY. Without a quantity it is the rows' count.
  pub apply_fetch_with_ties-with_ties :
      (rows : List Row) (quantity offset : Option ℕ)
      → unwrap_or 0 offset + unwrap_or (length rows) quantity < 2 ^ 64
      → apply_fetch_with_ties evaluated order_by rows quantity offset
        ≡ ok (with_ties (unwrap_or (length rows) quantity) (drop (unwrap_or 0 offset) rows))
  unfolding apply_fetch_with_ties
  apply_fetch_with_ties-with_ties rows quantity offset small =
      let taken = unwrap_or (length rows) quantity in
      let start = unwrap_or 0 offset in
      elim (Bool-cases (eqb taken 0)) [
        | inl none_taken ↦
            let zero_taken : taken ≡ 0 = ground (arith, none_taken) in
            rw (none_taken, zero_taken, with_ties-zero (drop start rows)) refl
        | inr some_taken ↦ elim (Bool-cases (leb (length rows) start)) [
          | inl past ↦ rw (some_taken, past, drop_all start rows (ground (arith, past))) refl
          | inr before ↦
              let n = taken - 1 in
              let index : min (start + taken) (2 ^ 64 - 1) - 1 ≡ start + n =
                ground (arith, some_taken, small) in
              let next : taken ≡ suc n = ground (arith, some_taken) in
              rw
                (
                  some_taken,
                  before,
                  index,
                  with_peers_lem start (start + n) rows (drop (start + n) rows),
                  cut_rows start n rows,
                )
                (ap (λ t. ok (with_ties t (drop start rows))) (sym next))
        ]
      ]
