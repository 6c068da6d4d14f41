-- ===== src/Queries/FrameExactness.antt =====
-- The rows of a ROWS frame are those that its bounds describe (src/sql/engine/query.rs).
use my_sqweel.Prelude.{
  ℕ, ◌+◌, ◌^◌, ◌≤◌, ◌<◌, ◌↔◌, Text, Option, none, some, Bool, true, false, leb, ltb, ◌≡◌, refl,
  arith, Result, ok,
}
use my_sqweel.Queries.Frames.{
  WindowFrameUnits, WindowFrameBound, is_unacceptable, end_or_current, raw_bound, bound_position,
  bounded_frame, window_frame_positions,
}

module _ {Expr : Type 0} (value : Expr → ℕ) (position : ℕ) where
  -- Whether a row of the partition is not before a frame's start, and not after its end.
  abbrev pub IsFromStart : WindowFrameBound Expr → ℕ → Type 0
  IsFromStart WindowFrameBound.current_row j = position ≤ j
  IsFromStart (WindowFrameBound.preceding none) j = Unit
  IsFromStart (WindowFrameBound.preceding (some e)) j = position ≤ j + value e
  IsFromStart (WindowFrameBound.following none) j = ⊥
  IsFromStart (WindowFrameBound.following (some e)) j = position + value e ≤ j

  abbrev pub IsToEnd : WindowFrameBound Expr → ℕ → Type 0
  IsToEnd WindowFrameBound.current_row j = j ≤ position
  IsToEnd (WindowFrameBound.preceding none) j = ⊥
  IsToEnd (WindowFrameBound.preceding (some e)) j = j + value e ≤ position
  IsToEnd (WindowFrameBound.following none) j = Unit
  IsToEnd (WindowFrameBound.following (some e)) j = j ≤ position + value e

module _ {Expr : Type 0} (value : Expr → ℕ) (position len peer_start peer_end : ℕ)
    (inside : position < len) (small : len ≤ 2 ^ 62) (offsets : (e : Expr) → value e < 2 ^ 62) where
  abbrev evaluated : Expr → Result Text ℕ
  evaluated e = ok (value e)

  abbrev raw : WindowFrameBound Expr → Result Text ℕ
  raw = raw_bound evaluated position len peer_start peer_end

  abbrev place : WindowFrameBound Expr → Result Text ℕ
  place = bound_position evaluated position len peer_start peer_end position

  start_place :
      (bound : WindowFrameBound Expr) (i : ℕ)
      → i < len
      → IsFromStart value position bound i
      → (start raw_start : ℕ) × (place bound ≡ ok start)
        × (raw bound ≡ ok raw_start)
        × (raw_start ≤ i + 2 ^ 63)
        × ((j : ℕ) → j < len → (start ≤ j) ↔ IsFromStart value position bound j)
  start_place WindowFrameBound.current_row i row h =
      (_, _, refl, refl, omega arith, λ j inside'. (λ g. g, λ g. g))
  start_place (WindowFrameBound.preceding none) i row h =
      (_, _, refl, refl, omega arith, λ j inside'. (λ g. tt, λ g. omega arith))
  start_place (WindowFrameBound.following none) i row h = absurd h
  start_place (WindowFrameBound.preceding (some e)) i row h = (
    _,
    _,
    refl,
    refl,
    omega (arith, offsets e),
    λ j inside'. (λ g. omega arith, λ g. omega arith),
  )
  start_place (WindowFrameBound.following (some e)) i row h = (
    _,
    _,
    refl,
    refl,
    omega (arith, offsets e),
    λ j inside'. (λ g. omega (arith, offsets e), λ g. omega (arith, offsets e)),
  )

  end_place :
      (bound : WindowFrameBound Expr) (i : ℕ)
      → i < len
      → IsToEnd value position bound i
      → (end raw_end : ℕ) × (place bound ≡ ok end)
        × (raw bound ≡ ok raw_end)
        × (i + 2 ^ 63 ≤ raw_end)
        × (end < len)
        × ((j : ℕ) → j < len → (j ≤ end) ↔ IsToEnd value position bound j)
  end_place WindowFrameBound.current_row i row h =
      (_, _, refl, refl, omega arith, omega arith, λ j inside'. (λ g. g, λ g. g))
  end_place (WindowFrameBound.preceding none) i row h = absurd h
  end_place (WindowFrameBound.following none) i row h =
      (_, _, refl, refl, omega arith, omega arith, λ j inside'. (λ g. tt, λ g. omega arith))
  end_place (WindowFrameBound.preceding (some e)) i row h = (
    _,
    _,
    refl,
    refl,
    omega (arith, offsets e),
    omega arith,
    λ j inside'. (λ g. omega arith, λ g. omega arith),
  )
  end_place (WindowFrameBound.following (some e)) i row h = (
    _,
    _,
    refl,
    refl,
    omega (arith, offsets e),
    omega arith,
    λ j inside'. (λ g. omega (arith, offsets e), λ g. omega (arith, offsets e)),
  )

  -- When some row is in a ROWS frame by its bounds, the frame is that of exactly the rows of the
  -- partition that are so. The partition and the offsets are below 2^62, and the bounds are not
  -- FOLLOWING with CURRENT ROW.
  pub window_frame_positions_rows :
      (ordered : Bool) (start_bound : WindowFrameBound Expr)
      (end_bound : Option (WindowFrameBound Expr)) (i : ℕ)
      → is_unacceptable (record {
        units = WindowFrameUnits.rows;
        start_bound = start_bound;
        end_bound = end_bound;
      })
        ≡ false
      → i < len
      → IsFromStart value position start_bound i
      → IsToEnd value position (end_or_current end_bound) i
      → (start end : ℕ) × (window_frame_positions evaluated position len peer_start peer_end ordered
            (some (record {
              units = WindowFrameUnits.rows;
              start_bound = start_bound;
              end_bound = end_bound;
            }))
          ≡ ok (some (start, end)))
        × ((j : ℕ)
            → ((start ≤ j) × (j < end)) ↔ (
                (j < len)
                × IsFromStart value position start_bound j
                × IsToEnd value position (end_or_current end_bound) j))
  unfolding window_frame_positions bounded_frame
  window_frame_positions_rows ordered start_bound end_bound i acceptable row from to =
      let (start, raw_start, start_at, raw_start_at, low, start_iff) =
        start_place start_bound i row from in
      let (end, raw_end, end_at, raw_end_at, high, last, end_iff) =
        end_place (end_or_current end_bound) i row to in
      let start_first = (start_iff i row).1 from in
      let end_last = (end_iff i row).1 to in
      let ordered_raw : ltb raw_end raw_start ≡ false = ground (arith, low, high) in
      let ordered_rows : leb start end ≡ true = ground (arith, start_first, end_last) in
      (
        start,
        end + 1,
        rw (acceptable, raw_start_at, raw_end_at, ordered_raw, start_at, end_at, ordered_rows) refl,
        λ j. (
          λ g.
              let j_inside : j < len = omega (arith, g.1, last) in
              (j_inside, (start_iff j j_inside).0 g.0, (end_iff j j_inside).0 (omega (arith, g.1))),
          λ g. ((start_iff j g.0).1 g.1, omega (arith, (end_iff j g.0).1 g.2)),
        ),
      )
