-- ===== src/Units/Exec/Shuffle.antt =====
-- The lanes that SHFL reads from (src/units/exec_core.cpp).
use native.Mathlib.Nat.{mod-lt, mod-le}
use proto_gpu.Prelude.{ℕ, ◌+◌, ◌-◌, ◌%◌, ◌≤◌, ◌<◌, bit_and, Bool, true, false, arith}
use proto_gpu.Units.Exec.{shfl_width_from_clamp, shfl_src_lane}

-- A clamp gives a segment width from 1 to 32, and in either mode a lane reads from a lane of its own
-- segment of that width.
pub shfl_src_lane-shfl_width_from_clamp :
    (do_down : Bool) (lane lane_or_idx clamp : ℕ)
    → let width = shfl_width_from_clamp clamp in
      let src = shfl_src_lane do_down lane lane_or_idx clamp in
      (1 ≤ width) × (width ≤ 32) × (lane - lane % width ≤ src) × (src < lane - lane % width + width)
unfolding shfl_src_lane shfl_width_from_clamp
shfl_src_lane-shfl_width_from_clamp do_down lane lane_or_idx clamp =
    (bounds.0, bounds.1, (segment do_down).0, (segment do_down).1)
  where
    width : ℕ
    width = shfl_width_from_clamp clamp

    bounds : (1 ≤ width) × (width ≤ 32)
    bounds = ground arith

    segment :
        (down : Bool)
        → (lane - lane % width ≤ shfl_src_lane down lane lane_or_idx clamp)
          × (shfl_src_lane down lane lane_or_idx clamp < lane - lane % width + width)
    segment true = ground (arith, mod-lt lane bounds.0, mod-le lane width)
    segment false = ground (arith, mod-lt (bit_and lane_or_idx 0x1f) bounds.0)
