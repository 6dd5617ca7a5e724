-- ===== src/Tests/Registers.antt =====
-- Register micro-ops, thread indices and local memory at concrete inputs.
use proto_gpu.Prelude.{
  ◌≤◌, ◌-◌, ◌%◌, ℕ, zero, suc, ◌^◌, ◌+◌, ◌*◌, ◌<◌, ◌≡◌, ◌≢◌, refl, true, false, [], ◌∷◌, arith,
}
use proto_gpu.Contracts.{
  LaneMask, Dim3, Operand, OperandKind, ValueType, AddrSpace, MicroOp, MicroOpKind, MicroOpOp,
  lane_mask_and, lane_mask_test,
}
use proto_gpu.Contracts.Masks.{lane_mask_test_past}
use proto_gpu.Warp.{
  read_operand_lane, read_reg_lane, reg_lane_index, WarpState, tid_x, tid_y, tid_z,
}
use proto_gpu.Warp.Builtins.{IsBlock, tid_linear}
use proto_gpu.Units.Exec.{exec_step, add_int}
use proto_gpu.Units.Exec.Floats.{FloatOps}
use proto_gpu.Units.Exec.{shfl_width_from_clamp, shfl_src_lane}
use proto_gpu.Units.Exec.Shuffle.{shfl_src_lane-shfl_width_from_clamp}
use proto_gpu.Units.Exec.LaneWise.Alu.{exec_step-Effect, Effect, Reads}
use proto_gpu.Units.Mem.{local_effective_addr, thread_linear_global}
use proto_gpu.Units.Mem.Windows.{local_effective_addr-ne}

-- Stands for the machine's floats; the integer micro-ops do not use it.
abbrev pub no_floats : FloatOps
no_floats = record {
  f32_add = λ a b. 0;
  f32_mul = λ a b. 0;
  f32_fma = λ a b c. 0;
  f32_of_u32 = λ a. 0;
}

abbrev register : ℕ → Operand
register n = record {
  kind = OperandKind.reg;
  type = ValueType.u32;
  reg_id = n;
  pred_id = 0;
  imm_i64 = 0;
  symbol = "";
  special = "";
}

abbrev literal : ℕ → Operand
literal n = record (register 0) { kind = OperandKind.imm; imm_i64 = n }

abbrev two_lanes : LaneMask
two_lanes = record { width = 2; bits_lo = 3 }

abbrev one_lane : LaneMask
one_lane = record { width = 2; bits_lo = 1 }

abbrev block6 : Dim3
block6 = record { x = 3; y = 2; z = 1 }

abbrev warp2 : WarpState
warp2 = record {
  launch = record { grid_dim = block6; block_dim = block6; warp_size = 2 };
  ctaid = record { x = 0; y = 0; z = 0 };
  warpid = 1;
  lane_base_thread_linear = 2;
  pc = 0;
  done = false;
  active = two_lanes;
  exited = record { width = 2; bits_lo = 0 };
  simt_stack = [];
  r_u32 = 0 ∷ 0 ∷ 40 ∷ 50 ∷ [];
  r_u64 = [];
  p = [];
}

-- r0 = r1 + 2, in lane 0 only
abbrev add_two : MicroOp
add_two = record {
  kind = MicroOpKind.exec;
  op = MicroOpOp.add;
  inputs = register 1 ∷ literal 2 ∷ [];
  outputs = register 0 ∷ [];
  attrs = record { type = ValueType.u32; space = AddrSpace.global; flags = [] };
  guard = one_lane;
}

abbrev values : ℕ → ℕ → ℕ
values k zero = 40
values k (suc i) = 2

operands_known :
    (k : ℕ) → lane_mask_test one_lane k ≡ true → Reads warp2 k (values k) 0 add_two.inputs
unfolding lane_mask_test read_operand_lane read_reg_lane reg_lane_index
operands_known zero e = (refl, (refl, tt))
operands_known (suc zero) e = absurd cc
operands_known (suc (suc k)) e =
    let past = lane_mask_test_past one_lane (suc (suc k)) (omega arith) in absurd cc

exec_step-Effect_example :
    Effect warp2 (register 0) one_lane (λ k. 42) (exec_step no_floats add_two warp2)
unfolding lane_mask_and add_int
exec_step-Effect_example =
    exec_step-Effect no_floats add_two warp2 (register 0) (λ xs. add_int (xs 0) (xs 1)) values refl
      refl refl (omega arith) (omega arith, (omega arith, tt)) operands_known refl

block6-IsBlock : IsBlock block6
block6-IsBlock = record {
  x_pos = omega arith;
  y_pos = omega arith;
  z_pos = omega arith;
  counted = omega arith;
}

tid_linear_example :
    (tid_x warp2 1 < 3)
    × (tid_y warp2 1 < 2)
    × (tid_z warp2 1 < 1)
    × (3 * (tid_y warp2 1 + 2 * tid_z warp2 1) + tid_x warp2 1 ≡ 3)
tid_linear_example = tid_linear warp2 1 block6-IsBlock (omega arith)

neighbours :
    (thread_linear_global warp2 0 ≢ thread_linear_global warp2 1)
    × (thread_linear_global warp2 0 < 2 ^ 52)
    × (thread_linear_global warp2 1 < 2 ^ 52)
unfolding thread_linear_global
neighbours = (omega arith, omega arith, omega arith)

local_effective_addr-ne_example : local_effective_addr warp2 0 16 ≢ local_effective_addr warp2 1 16
local_effective_addr-ne_example =
    local_effective_addr-ne warp2 warp2 0 1 16 16 neighbours.0 neighbours.1 neighbours.2
      (omega arith) (omega arith)

-- segments of 8 lanes: lane 13 reads from lanes 8 to 15
shfl_src_lane-shfl_width_from_clamp_example :
    (1 ≤ shfl_width_from_clamp 0x1800)
    × (shfl_width_from_clamp 0x1800 ≤ 32)
    × (13 - 13 % shfl_width_from_clamp 0x1800 ≤ shfl_src_lane true 13 4 0x1800)
    × (shfl_src_lane true 13 4 0x1800
        < 13 - 13 % shfl_width_from_clamp 0x1800 + shfl_width_from_clamp 0x1800)
shfl_src_lane-shfl_width_from_clamp_example = shfl_src_lane-shfl_width_from_clamp true 13 4 0x1800
