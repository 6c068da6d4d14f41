-- ===== src/Queries/Ties.antt =====
-- FETCH FIRST ... WITH TIES (apply_fetch_with_ties of src/sql/engine/query.rs). The rows are sorted, and
-- the expressions of ORDER BY are evaluated by `eval`.
use my_sqweel.Prelude.{
  ℕ, suc, ◌+◌, ◌-◌, ◌^◌, Text, List, [], ◌∷◌, Option, ◌||◌, if◌then◌else◌, leb, eqb, min, length,
  take, drop, unwrap_or, Eq, ◌==◌, list_eq, Result, ok, ◌>>=◌,
}

module _ {Row Expr Value : Type 0} ⦃e : Eq Value⦄ (eval : Expr → Row → Result Text Value)
    (order_by : List Expr) where
  -- The values of a row under ORDER BY.
  unfoldable pub order_values : List Expr → Row → Result Text (List Value)
  order_values [] row = ok []
  order_values (expr ∷ exprs) row =
      eval expr row >>= λ value. order_values exprs row >>= λ values. ok (value ∷ values)

  -- How many rows at the front have the boundary's values.
  unfoldable pub count_peers : List Value → List Row → Result Text ℕ
  count_peers boundary [] = ok 0
  count_peers boundary (row ∷ rows) =
      let rest = count_peers boundary rows in
      order_values order_by row >>= λ peer.
      if peer == boundary then (rest >>= λ n. ok (suc n)) else ok 0

  -- The rows up to the end of the boundary row's peers, if there is a boundary row.
  abbrev pub with_peers : ℕ → ℕ → List Row → List Row → Result Text (List Row)
  with_peers start boundary_index rows [] = ok (drop start rows)
  with_peers start boundary_index rows (boundary_row ∷ others) =
      order_values order_by boundary_row >>= λ boundary. count_peers boundary others >>= λ peers.
      ok (drop start (take (boundary_index + 1 + peers) rows))

  -- A sum of two usize numbers stops at the largest.
  unfoldable pub apply_fetch_with_ties : List Row → Option ℕ → Option ℕ → Result Text (List Row)
  apply_fetch_with_ties rows quantity offset =
      let taken = unwrap_or (length rows) quantity in
      let start = unwrap_or 0 offset in
      let boundary_index = min (start + taken) (2 ^ 64 - 1) - 1 in
      if eqb taken 0 || leb (length rows) start
      then ok []
      else with_peers start boundary_index rows (drop boundary_index rows)
