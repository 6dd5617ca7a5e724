-- ===== src/Simt/Step/Turns.antt =====
-- What a turn of a warp comes to (src/simt/simt.cpp).
use mathlib.Core.Option
use proto_gpu.Prelude.{
  ℕ, ◌<◌, ◌≤◌, ◌≡◌, ◌⊎◌, true, false, Option, some, List, [], ◌∷◌, length, get_elem?,
}
use proto_gpu.Contracts.{InstRecord, lane_mask_empty, e_pc_oob, e_reconv_invalid}
use proto_gpu.Contracts.Words.{is_neg64}
use proto_gpu.Instruction.{DescriptorRegistry}
use proto_gpu.Units.Exec.Floats.{FloatOps}
use proto_gpu.Units.Mem.{MemState}
use proto_gpu.Warp.{WarpState, SimtFrame}
use proto_gpu.Simt.Stack.{runs, ended, broken}
use proto_gpu.Simt.Stack.Keeps.{Keeps}
use proto_gpu.Simt.Step.{Outcome, warp_ends, stops_with, outcome, run_inst}

-- A path of the warp `old` is on top, with a lane and none that left; of the lanes that have not left
-- the stack has those of `old`.
pub record IsRunning (old w : WarpState) : Type 0 where
  pub top : SimtFrame
  pub rest : List SimtFrame
  pub on_top : w.simt_stack ≡ top ∷ rest
  pub at_pc : w.pc ≡ top.pc
  pub in_lanes : w.active ≡ top.active
  pub same_exited : w.exited ≡ old.exited
  pub keeps : Keeps old.exited old.simt_stack (runs top rest)

module _ (fl : FloatOps) (registry : DescriptorRegistry) (warp_size : ℕ) (points : List (Option ℕ))
    (insts : List InstRecord) (m : MemState) where
  -- The outcomes of a turn: the warp ends, as no lane is left; the instruction at its pc runs, which
  -- is in the kernel; or the run stops, as the pc is outside of the kernel, or as a path has come to
  -- its reconvergence point without a join frame.
  pub data Turned : Outcome → Type 0 where
    leaves :
        (w : WarpState)
        → w.done ≡ true
        → w.simt_stack ≡ []
        → lane_mask_empty w.active ≡ true
        → Keeps m.warp.exited m.warp.simt_stack ended
        → Turned (warp_ends (record m { warp = w }))
    executes :
        (w : WarpState) (inst : InstRecord)
        → IsRunning m.warp w
        → is_neg64 w.pc ≡ false
        → w.pc < length insts
        → get_elem? insts w.pc ≡ some inst
        → Turned (outcome (run_inst fl registry warp_size points (record m { warp = w }) inst))
    outside :
        (w : WarpState)
        → IsRunning m.warp w
        → (is_neg64 w.pc ≡ true) ⊎ (length insts ≤ w.pc)
        → Turned (stops_with e_pc_oob (record m { warp = w }))
    unjoined :
        (w : WarpState)
        → Keeps m.warp.exited m.warp.simt_stack (broken w.simt_stack)
        → Turned (stops_with e_reconv_invalid (record m { warp = w }))
