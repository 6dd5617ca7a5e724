-- ===== src/Simt/Stack.antt =====
-- The reconvergence stack of a warp (SimtExecutor::run of src/simt/simt.cpp). A stack is a list
-- with its top first; in the source the top is the back of the vector. Events are left out.
pub mod Lanes
pub mod Keeps
use proto_gpu.Prelude.{
  ℕ, zero, suc, ◌+◌, Bool, true, false, ◌&&◌, Option, none, some, List, [], ◌∷◌, ◌==◌,
  if◌then◌else◌, length,
}
use proto_gpu.Contracts.{
  LaneMask, Code, lane_mask_and, lane_mask_not_width, lane_mask_or_same_width, lane_mask_empty,
  e_reconv_invalid,
}
use proto_gpu.Contracts.Words.{to_u64}
use proto_gpu.Warp.{SimtFrame, WarpState}

-- The nearest join frame for the point takes the lanes that arrived.
unfoldable pub merge_join : ℕ → LaneMask → List SimtFrame → Option (List SimtFrame)
merge_join reconv_pc arrived [] = none
merge_join reconv_pc arrived (f ∷ rest) =
    let more = merge_join reconv_pc arrived rest in
    if f.is_join && f.pc == reconv_pc
    then some (record f { active = lane_mask_or_same_width f.active arrived } ∷ rest)
    else elim more [ none ↦ none | some merged ↦ some (f ∷ merged) ]

-- How the loop ends: a path to run, no frame left, or no join frame for a path that arrived.
pub data Normal : Type 0 where
  runs : SimtFrame → List SimtFrame → Normal
  ended : Normal
  broken : List SimtFrame → Normal

abbrev pub live_top : LaneMask → SimtFrame → SimtFrame
live_top exited top = record top { active = lane_mask_and top.active (lane_mask_not_width exited) }

-- The `while (true)` loop on fuel; `none` is out of fuel.
unfoldable pub normalize : ℕ → LaneMask → List SimtFrame → Option Normal
unfolding merge_join
normalize fuel exited [] = some ended
normalize zero exited (top ∷ rest) = none
normalize (suc fuel) exited (top ∷ rest) =
    let live = live_top exited top in
    let popped = normalize fuel exited rest in
    if lane_mask_empty live.active
    then popped
    else if live.is_join
    then some (runs (record live { is_join = false }) rest)
    else if live.pc == live.reconv_pc
    then elim (merge_join live.pc live.active rest) [
      | none ↦ some (broken rest)
      | some merged ↦ normalize fuel exited merged
    ]
    else some (runs live rest)

-- The warp after the loop, with the diagnostic of a broken stack.
abbrev pub settle : ℕ → WarpState → Normal → WarpState × Option Code
settle warp_size warp (runs top rest) =
    (record warp { simt_stack = top ∷ rest; pc = top.pc; active = top.active }, none)
settle warp_size warp ended = (
  record warp { simt_stack = []; done = true; active = record { width = warp_size; bits_lo = 0 } },
  none,
)
settle warp_size warp (broken rest) = (record warp { simt_stack = rest }, some e_reconv_invalid)

-- A divergent branch, as it is kept until the instruction commits.
pub record PendingSplit : Type 0 where
  pub target_pc : ℕ
  pub reconv_pc : ℕ
  pub taken : LaneMask
  pub fallthrough : LaneMask

abbrev pub join_frame : ℕ → PendingSplit → ℕ → SimtFrame
join_frame warp_size split outer_reconv = record {
  pc = split.reconv_pc;
  active = record { width = warp_size; bits_lo = 0 };
  reconv_pc = outer_reconv;
  is_join = true;
}

abbrev pub fall_frame : PendingSplit → ℕ → SimtFrame
fall_frame split old_pc = record {
  pc = to_u64 (old_pc + 1);
  active = split.fallthrough;
  reconv_pc = split.reconv_pc;
  is_join = false;
}

abbrev pub taken_frame : PendingSplit → SimtFrame
taken_frame split = record {
  pc = split.target_pc;
  active = split.taken;
  reconv_pc = split.reconv_pc;
  is_join = false;
}

-- The end of an instruction: a split replaces the top by a join frame and two paths, and any
-- other instruction moves the top on.
unfoldable pub advance : ℕ → ℕ → Option PendingSplit → Option ℕ → List SimtFrame → List SimtFrame
advance warp_size old_pc split next_pc [] = []
advance warp_size old_pc (some split) next_pc (top ∷ rest) =
    taken_frame split ∷ fall_frame split old_pc ∷ join_frame warp_size split top.reconv_pc ∷ rest
advance warp_size old_pc none (some pc) (top ∷ rest) = record top { pc = pc } ∷ rest
advance warp_size old_pc none none (top ∷ rest) = record top { pc = to_u64 (old_pc + 1) } ∷ rest

-- `warp.pc` and `warp.active` from the top of the stack.
abbrev pub refresh : WarpState → List SimtFrame → WarpState
refresh warp [] = record warp { simt_stack = []; done = true }
refresh warp (top ∷ rest) = record warp {
  simt_stack = top ∷ rest;
  pc = top.pc;
  active = top.active;
}

unfoldable pub commit : ℕ → Option PendingSplit → Option ℕ → WarpState → WarpState
unfolding advance
commit warp_size split next_pc warp =
    if warp.done
    then warp
    else refresh warp (advance warp_size warp.pc split next_pc warp.simt_stack)
