-- ===== src/Queries/Tests.antt =====
-- The pieces of query execution on small inputs, and the theorems at these.
use my_sqweel.Prelude.{
  ℕ, ◌+◌, ◌-◌, ◌^◌, ◌≤◌, ◌<◌, ◌↔◌, min, ltb, Text, text, List, [], ◌∷◌, none, some, Bool, true,
  false, if◌then◌else◌, ◌≡◌, refl, arith, lookup, insert, add, drop, Result, ok, nat_eq, list_eq,
}
use my_sqweel.Constraints.Schema.{Value, Row, JsonText}
use my_sqweel.Queries.SetOperations.{
  encode_set_row, row_keys_from, count_rows, intersect_rows, set_intersection, subtract_rows,
  set_difference,
}
use my_sqweel.Queries.SetLaws.{
  occurrences, set_intersection-occurrences, set_difference-occurrences,
}
use my_sqweel.Queries.Frames.{
  WindowFrameUnits, WindowFrameBound, WindowFrame, bounded_frame, window_frame_positions,
}
use my_sqweel.Queries.FrameExactness.{window_frame_positions_rows}
use my_sqweel.Queries.Ties.{apply_fetch_with_ties, count_peers, order_values}
use my_sqweel.Queries.TiesLaws.{with_ties, apply_fetch_with_ties-with_ties}

abbrev json : JsonText ℕ Text
json = record {
  as_i64 = λ n. some ((48 + n) ∷ []);
  as_u64 = λ n. none;
  number_text = λ n. [];
  document_text = λ d. d;
  value_text = λ v. [];
}

abbrev row : ℕ → Row ℕ Text
row n = (text "a", Value.number n) ∷ []

abbrev left : List (Row ℕ Text)
left = row 1 ∷ row 2 ∷ row 1 ∷ row 1 ∷ []

abbrev right : List (Row ℕ Text)
right = row 3 ∷ row 1 ∷ row 1 ∷ []

operations :
    (set_intersection json (text "a" ∷ []) left right true ≡ row 1 ∷ row 1 ∷ [])
    × (set_difference json (text "a" ∷ []) left right true ≡ row 2 ∷ row 1 ∷ [])
    × (set_intersection json (text "a" ∷ []) left right false ≡ row 1 ∷ [])
    × (set_difference json (text "a" ∷ []) left right false ≡ row 2 ∷ [])
unfolding intersect_rows subtract_rows count_rows encode_set_row row_keys_from lookup insert add
operations = (refl, refl, refl, refl)

set_intersection-occurrences_example :
    occurrences json
      (text "a" ∷ [])
      (text "i:1")
      (set_intersection json (text "a" ∷ []) left right true)
    ≡ (if true
        then min
            (occurrences json (text "a" ∷ []) (text "i:1") left)
            (occurrences json (text "a" ∷ []) (text "i:1") right)
        else min 1 (
            min
              (occurrences json (text "a" ∷ []) (text "i:1") left)
              (occurrences json (text "a" ∷ []) (text "i:1") right)))
set_intersection-occurrences_example =
    set_intersection-occurrences json (text "a" ∷ []) left right true (text "i:1")

set_difference-occurrences_example :
    occurrences json
      (text "a" ∷ [])
      (text "i:1")
      (set_difference json (text "a" ∷ []) left right true)
    ≡ (if true
        then occurrences json (text "a" ∷ []) (text "i:1") left
          - occurrences json (text "a" ∷ []) (text "i:1") right
        else if ltb 0 (occurrences json (text "a" ∷ []) (text "i:1") right)
        then 0
        else min 1 (occurrences json (text "a" ∷ []) (text "i:1") left))
set_difference-occurrences_example =
    set_difference-occurrences json (text "a" ∷ []) left right true (text "i:1")

-- A frame whose bounds are expressions that are numbers.
abbrev rows_frame : WindowFrameBound ℕ → WindowFrameBound ℕ → WindowFrame ℕ
rows_frame start end = record {
  units = WindowFrameUnits.rows;
  start_bound = start;
  end_bound = some end;
}

abbrev value_of : ℕ → Result Text ℕ
value_of n = ok n

-- ROWS BETWEEN 1 PRECEDING AND 1 FOLLOWING at the first of three rows; and frames that lie past the
-- last row and before the first, which the code moves to these rows.
frames :
    (window_frame_positions value_of 0 3 0 0 true (
        some
          (rows_frame (WindowFrameBound.preceding (some 1)) (WindowFrameBound.following (some 1))))
      ≡ ok (some (0, 2)))
    × (window_frame_positions value_of 2 3 2 2 true (
          some (
            rows_frame (WindowFrameBound.following (some 1)) (WindowFrameBound.following (some 2))))
        ≡ ok (some (2, 3)))
    × (window_frame_positions value_of 0 3 0 0 true (
          some (
            rows_frame (WindowFrameBound.preceding (some 2)) (WindowFrameBound.preceding (some 1))))
        ≡ ok (some (0, 1)))
unfolding window_frame_positions bounded_frame
frames = (refl, refl, refl)

-- Two expressions, with the values 1 and 2.
abbrev one_or_two : Bool → ℕ
one_or_two true = 1
one_or_two false = 2

one_or_two_bound : (b : Bool) → one_or_two b < 2 ^ 62
one_or_two_bound true = omega arith
one_or_two_bound false = omega arith

window_frame_positions_rows_example :
    (start end : ℕ) × (window_frame_positions
        (λ b. ok (one_or_two b))
        1
        3
        1
        1
        true
        (some (record {
          units = WindowFrameUnits.rows;
          start_bound = WindowFrameBound.preceding (some true);
          end_bound = some WindowFrameBound.current_row;
        }))
      ≡ ok (some (start, end)))
    × ((j : ℕ) → ((start ≤ j) × (j < end)) ↔ ((j < 3) × (1 ≤ j + one_or_two true) × (j ≤ 1)))
window_frame_positions_rows_example =
    window_frame_positions_rows one_or_two 1 3 1 1 (omega arith) (omega arith) one_or_two_bound true
      (WindowFrameBound.preceding (some true)) (some WindowFrameBound.current_row) 1 refl
      (omega arith) (omega arith) (omega arith)

abbrev scores : List ℕ
scores = 9 ∷ 7 ∷ 7 ∷ 7 ∷ 3 ∷ []

ties :
    apply_fetch_with_ties (λ (e n : ℕ). ok n) (0 ∷ []) scores (some 1) (some 1)
    ≡ ok (7 ∷ 7 ∷ 7 ∷ [])
unfolding apply_fetch_with_ties count_peers order_values
ties = refl

apply_fetch_with_ties-with_ties_example :
    apply_fetch_with_ties (λ (e n : ℕ). ok n) (0 ∷ []) scores (some 2) (some 1)
    ≡ ok (with_ties (λ (e n : ℕ). n) (0 ∷ []) 2 (drop 1 scores))
apply_fetch_with_ties-with_ties_example =
    apply_fetch_with_ties-with_ties (λ (e n : ℕ). n) (0 ∷ []) scores (some 2) (some 1) (omega arith)
