-- ===== src/Queries/FrameLaws.antt =====
-- Which rows a window frame has (src/sql/engine/query.rs).
use my_sqweel.Prelude.{
  ℕ, ◌≤◌, ◌<◌, Text, Option, none, some, Bool, true, false, if◌then◌else◌, leb, ltb, ◌≡◌, arith,
  Bool-cases, inl, inr, Result, ok, >>=-eq-ok, ok_injective, err≢ok,
}
use mathlib.Core.Path.{subst}
use my_sqweel.Queries.Frames.{
  WindowFrameBound, WindowFrame, is_range, is_groups, is_unacceptable, end_or_current, raw_bound,
  bound_position, frame_of, bounded_frame, window_frame_positions,
}

-- A frame with a row has its rows within the partition.
abbrev pub IsInside : ℕ → Option (ℕ × ℕ) → Type 0
IsInside len none = Unit
IsInside len (some (start, end)) = (start < end) × (end ≤ len)

module _ {Expr : Type 0} (expr_to_usize : Expr → Result Text ℕ)
    (position len peer_start peer_end : ℕ) (inside : position < len) where
  bound_position_bounds :
      (current : ℕ) (bound : WindowFrameBound Expr) {at_bound : ℕ}
      → current < len
      → bound_position expr_to_usize position len peer_start peer_end current bound ≡ ok at_bound
      → at_bound < len
  bound_position_bounds current WindowFrameBound.current_row here run =
      subst (λ n. n < len) (ok_injective run) here
  bound_position_bounds current (WindowFrameBound.preceding none) here run =
      subst (λ n. n < len) (ok_injective run) (omega arith)
  bound_position_bounds current (WindowFrameBound.following none) here run =
      subst (λ n. n < len) (ok_injective run) (omega arith)
  bound_position_bounds current (WindowFrameBound.preceding (some offset)) here run =
      let (n, _, result) = >>=-eq-ok (expr_to_usize offset) _ run in
      subst (λ n. n < len) (ok_injective result) (omega arith)
  bound_position_bounds current (WindowFrameBound.following (some offset)) here run =
      let (n, _, result) = >>=-eq-ok (expr_to_usize offset) _ run in
      subst (λ n. n < len) (ok_injective result) (omega arith)

  frame_of-IsInside :
      (start end : ℕ)
      → start < len
      → end < len
      → IsInside len (frame_of expr_to_usize position len peer_start peer_end start end)
  frame_of-IsInside start end first last = elim (Bool-cases (leb start end)) [
    | inl ordered ↦ rw ordered (ground arith, ground arith)
    | inr reversed ↦ rw reversed tt
  ]

  module _ (before : peer_start ≤ position) (after : position ≤ peer_end)
      (last : peer_end < len) where
    bounded_frame-IsInside :
        (range_frame : Bool) (start_bound end_bound : WindowFrameBound Expr)
        {frame : Option (ℕ × ℕ)}
        → bounded_frame expr_to_usize position len peer_start peer_end range_frame start_bound
            end_bound
          ≡ ok frame
        → IsInside len frame
    unfolding bounded_frame
    bounded_frame-IsInside range_frame start_bound end_bound run =
        let raw = raw_bound expr_to_usize position len peer_start peer_end in
        let (raw_start, _, run₁) = >>=-eq-ok (raw start_bound) _ run in
        let (raw_end, _, run₂) = >>=-eq-ok (raw end_bound) _ run₁ in
        elim (Bool-cases (ltb raw_end raw_start)) [
          | inl reversed ↦ subst (IsInside len) (ok_injective (rw reversed at run₂)) tt
          | inr ordered ↦
              let at = bound_position expr_to_usize position len peer_start peer_end in
              let first_row = if range_frame then peer_start else position in
              let last_row = if range_frame then peer_end else position in
              let (start, start_at, run₃) =
                >>=-eq-ok (at first_row start_bound) _ (rw ordered at run₂) in
              let (end, end_at, run₄) = >>=-eq-ok (at last_row end_bound) _ run₃ in
              subst (IsInside len) (ok_injective run₄) (
                frame_of-IsInside start end
                  (bound_position_bounds first_row start_bound (ground arith) start_at)
                  (bound_position_bounds last_row end_bound (ground arith) end_at))
        ]

    -- When a row's peers are in its partition, a frame that the row is given is not empty and has no
    -- position outside the partition; the alternative is that there is no frame.
    pub window_frame_positions-bounds :
        (ordered : Bool) (spec : Option (WindowFrame Expr)) {frame : Option (ℕ × ℕ)}
        → window_frame_positions expr_to_usize position len peer_start peer_end ordered spec
          ≡ ok frame
        → IsInside len frame
    unfolding window_frame_positions
    window_frame_positions-bounds true none run =
        subst (IsInside len) (ok_injective run) (omega arith, omega arith)
    window_frame_positions-bounds false none run =
        subst (IsInside len) (ok_injective run) (omega arith, omega arith)
    window_frame_positions-bounds ordered (some frame) run =
        elim (Bool-cases (is_unacceptable frame)) [
          | inl refused ↦ absurd (err≢ok (rw refused at run))
          | inr acceptable ↦ elim (Bool-cases (is_groups frame.units)) [
            | inl unsupported ↦ absurd (err≢ok (rw unsupported at (rw acceptable at run)))
            | inr supported ↦
                bounded_frame-IsInside (is_range frame.units) frame.start_bound
                  (end_or_current frame.end_bound) (rw supported at (rw acceptable at run))
          ]
        ]
