-- ===== src/Queries/Frames.antt =====
-- The rows of a window frame, as positions in their partition (window_frame_positions of
-- src/sql/engine/query.rs). A signed 64-bit number is its value plus 2^63, so that their orders agree.
use my_sqweel.Prelude.{
  ℕ, ◌+◌, ◌-◌, ◌%◌, ◌^◌, Text, text, Option, none, some, Bool, true, false, ◌&&◌, ◌||◌,
  if◌then◌else◌, leb, ltb, min, Result, ok, err, ◌>>=◌,
}

pub data WindowFrameUnits : Type 0 where
  rows : WindowFrameUnits
  range : WindowFrameUnits
  groups : WindowFrameUnits

-- A bound whose offset is an expression, or that has no offset (UNBOUNDED).
pub data WindowFrameBound (Expr : Type 0) : Type 0 where
  current_row : WindowFrameBound Expr
  preceding : Option Expr → WindowFrameBound Expr
  following : Option Expr → WindowFrameBound Expr

pub record WindowFrame (Expr : Type 0) : Type 0 where
  pub units : WindowFrameUnits
  pub start_bound : WindowFrameBound Expr
  pub end_bound : Option (WindowFrameBound Expr)

abbrev pub is_range : WindowFrameUnits → Bool
is_range WindowFrameUnits.rows = false
is_range WindowFrameUnits.range = true
is_range WindowFrameUnits.groups = false

abbrev pub is_groups : WindowFrameUnits → Bool
is_groups WindowFrameUnits.rows = false
is_groups WindowFrameUnits.range = false
is_groups WindowFrameUnits.groups = true

module _ {Expr : Type 0} where
  abbrev is_current : Option (WindowFrameBound Expr) → Bool
  is_current none = false
  is_current (some WindowFrameBound.current_row) = true
  is_current (some (WindowFrameBound.preceding e)) = false
  is_current (some (WindowFrameBound.following e)) = false

  abbrev is_preceding : Option (WindowFrameBound Expr) → Bool
  is_preceding none = false
  is_preceding (some WindowFrameBound.current_row) = false
  is_preceding (some (WindowFrameBound.preceding e)) = true
  is_preceding (some (WindowFrameBound.following e)) = false

  abbrev is_following : Option (WindowFrameBound Expr) → Bool
  is_following none = false
  is_following (some WindowFrameBound.current_row) = false
  is_following (some (WindowFrameBound.preceding e)) = false
  is_following (some (WindowFrameBound.following e)) = true

  abbrev pub is_unacceptable : WindowFrame Expr → Bool
  is_unacceptable frame =
      (is_following (some frame.start_bound) && is_current frame.end_bound)
      || (is_range frame.units
          && (is_current (some frame.start_bound) && is_preceding frame.end_bound))

  abbrev pub end_or_current : Option (WindowFrameBound Expr) → WindowFrameBound Expr
  end_or_current none = WindowFrameBound.current_row
  end_or_current (some bound) = bound

  module _ (expr_to_usize : Expr → Result Text ℕ) (position len peer_start peer_end : ℕ) where
    abbrev pub raw_bound : WindowFrameBound Expr → Result Text ℕ
    raw_bound WindowFrameBound.current_row = ok ((position + 2 ^ 63) % 2 ^ 64)
    raw_bound (WindowFrameBound.preceding none) = ok 0
    raw_bound (WindowFrameBound.following none) = ok (2 ^ 64 - 1)
    raw_bound (WindowFrameBound.preceding (some offset)) =
        expr_to_usize offset >>= λ n. ok ((position + 2 ^ 63 + (2 ^ 64 - n % 2 ^ 64)) % 2 ^ 64)
    raw_bound (WindowFrameBound.following (some offset)) =
        expr_to_usize offset >>= λ n. ok ((position + 2 ^ 63 + n) % 2 ^ 64)

    -- The position of a bound: `current` is that of CURRENT ROW.
    abbrev pub bound_position : ℕ → WindowFrameBound Expr → Result Text ℕ
    bound_position current WindowFrameBound.current_row = ok current
    bound_position current (WindowFrameBound.preceding none) = ok 0
    bound_position current (WindowFrameBound.following none) = ok (len - 1)
    bound_position current (WindowFrameBound.preceding (some offset)) =
        expr_to_usize offset >>= λ n. ok (position - n)
    bound_position current (WindowFrameBound.following (some offset)) =
        expr_to_usize offset >>= λ n. ok (min (min (position + n) (2 ^ 64 - 1)) (len - 1))

    -- The first position and the one past the last, or nothing if the frame is empty.
    abbrev pub frame_of : ℕ → ℕ → Option (ℕ × ℕ)
    frame_of start end = if leb start end then some (start, end + 1) else none

    unfoldable pub bounded_frame :
        Bool → WindowFrameBound Expr → WindowFrameBound Expr → Result Text (Option (ℕ × ℕ))
    bounded_frame range_frame start_bound end_bound = raw_bound start_bound >>= λ raw_start.
        raw_bound end_bound >>= λ raw_end.
        if ltb raw_end raw_start
        then ok none
        else bound_position (if range_frame then peer_start else position) start_bound >>= λ start.
            bound_position (if range_frame then peer_end else position) end_bound >>= λ end.
            ok (frame_of start end)

    unfoldable pub window_frame_positions :
        Bool → Option (WindowFrame Expr) → Result Text (Option (ℕ × ℕ))
    window_frame_positions ordered none =
        ok (some (if ordered then (0, peer_end + 1) else (0, len)))
    window_frame_positions ordered (some frame) =
        if is_unacceptable frame
        then err (text "Unacceptable combination of window frame bound specifications")
        else if is_groups frame.units
        then err (text "GROUPS window frames are not supported")
        else bounded_frame (is_range frame.units) frame.start_bound (end_or_current frame.end_bound)
