-- ===== src/Warp.antt =====
-- The state of a warp (include/gpusim/units.h), its register file, and the operands that the
-- units read: the helpers that src/units/exec_core.cpp and src/units/mem_unit.cpp share.
pub mod Lanes
pub mod Regs
pub mod Builtins
use proto_gpu.Prelude.{
  ℕ, ◌+◌, ◌*◌, ◌/◌, ◌%◌, ◌^◌, suc, Bool, true, false, not, ◌||◌, String, str_eq, Option, none, some,
  List, ltb, leb, ◌==◌, if◌then◌else◌, length, get_or, set, resize,
}
use proto_gpu.Contracts.{
  LaneMask, Dim3, LaunchConfig, Operand, OperandKind, ValueType, Code, StepResult, error,
  not_blocked,
}
use proto_gpu.Contracts.Words.{to_u32, to_u64, is_neg64}

pub record SimtFrame : Type 0 where
  pub pc : ℕ
  pub active : LaneMask
  pub reconv_pc : ℕ
  pub is_join : Bool

-- The head of `simt_stack` is the back of the vector.
pub record WarpState : Type 0 where
  pub launch : LaunchConfig
  pub ctaid : Dim3
  pub warpid : ℕ
  pub lane_base_thread_linear : ℕ
  pub pc : ℕ
  pub done : Bool
  pub active : LaneMask
  pub exited : LaneMask
  pub simt_stack : List SimtFrame
  pub r_u32 : List ℕ
  pub r_u64 : List ℕ
  pub p : List ℕ

abbrev pub is_wide : ValueType → Bool
is_wide ValueType.u64 = true
is_wide ValueType.s64 = true
is_wide _ = false

-- size_t arithmetic
unfoldable pub reg_lane_index : ℕ → ℕ → ℕ → ℕ
reg_lane_index reg lane warp_size = to_u64 (reg * warp_size + lane)

abbrev pub reg_of : Operand → ℕ
reg_of o = if is_neg64 o.reg_id then 0 else o.reg_id

unfoldable pub read_reg_lane : Operand → WarpState → ℕ → ℕ
read_reg_lane o warp lane = elim o.kind [
  | OperandKind.reg ↦
      let warp_size = warp.active.width in
      let idx = reg_lane_index (reg_of o) lane warp_size in
      if warp_size == 0
      then 0
      else if leb warp_size lane
      then 0
      else if is_wide o.type
      then get_or warp.r_u64 idx 0
      else get_or warp.r_u32 idx 0
  | _ ↦ 0
]

-- `if (idx >= v.size()) v.resize(idx + 1); v[idx] = x;`
unfoldable pub store_at : List ℕ → ℕ → ℕ → List ℕ
store_at v idx x = if leb (length v) idx then set (resize v (idx + 1)) idx x else set v idx x

unfoldable pub write_reg_lane : Operand → WarpState → ℕ → ℕ → WarpState
write_reg_lane o warp lane v = elim o.kind [
  | OperandKind.reg ↦
      let warp_size = warp.active.width in
      let idx = reg_lane_index (reg_of o) lane warp_size in
      if warp_size == 0
      then warp
      else if leb warp_size lane
      then warp
      else if is_wide o.type
      then record warp { r_u64 = store_at warp.r_u64 idx v }
      else record warp { r_u32 = store_at warp.r_u32 idx (to_u32 v) }
  | _ ↦ warp
]

abbrev pub thread_linear : WarpState → ℕ → ℕ
thread_linear warp lane = to_u64 (warp.lane_base_thread_linear + lane)

unfoldable pub tid_x : WarpState → ℕ → ℕ
tid_x warp lane = to_u32 (thread_linear warp lane % warp.launch.block_dim.x)

unfoldable pub tid_y : WarpState → ℕ → ℕ
tid_y warp lane =
    to_u32 (thread_linear warp lane / warp.launch.block_dim.x % warp.launch.block_dim.y)

unfoldable pub tid_z : WarpState → ℕ → ℕ
tid_z warp lane =
    let bxy64 = to_u64 (warp.launch.block_dim.x * warp.launch.block_dim.y) in
    to_u32 (thread_linear warp lane / (if bxy64 == 0 then 1 else bxy64))

unfoldable pub read_special_u32 : String → WarpState → ℕ → Option ℕ
unfolding tid_x tid_y tid_z
read_special_u32 name warp lane =
    if warp.launch.block_dim.x == 0 || warp.launch.block_dim.y == 0 || warp.launch.block_dim.z == 0
    then some 0
    else if str_eq name "tid.x"
    then some (tid_x warp lane)
    else if str_eq name "tid.y"
    then some (tid_y warp lane)
    else if str_eq name "tid.z"
    then some (tid_z warp lane)
    else if str_eq name "ntid.x"
    then some warp.launch.block_dim.x
    else if str_eq name "ntid.y"
    then some warp.launch.block_dim.y
    else if str_eq name "ntid.z"
    then some warp.launch.block_dim.z
    else if str_eq name "ctaid.x"
    then some warp.ctaid.x
    else if str_eq name "ctaid.y"
    then some warp.ctaid.y
    else if str_eq name "ctaid.z"
    then some warp.ctaid.z
    else if str_eq name "nctaid.x"
    then some warp.launch.grid_dim.x
    else if str_eq name "nctaid.y"
    then some warp.launch.grid_dim.y
    else if str_eq name "nctaid.z"
    then some warp.launch.grid_dim.z
    else if str_eq name "laneid"
    then some lane
    else if str_eq name "warpid"
    then some warp.warpid
    else none

unfoldable pub read_operand_lane : Operand → WarpState → ℕ → Option ℕ
unfolding read_reg_lane read_special_u32
read_operand_lane o warp lane = elim o.kind [
  | OperandKind.imm ↦ some o.imm_i64
  | OperandKind.reg ↦ some (read_reg_lane o warp lane)
  | OperandKind.special ↦ read_special_u32 o.special warp lane
  | _ ↦ some 0
]

-- The results of a unit's step.
abbrev pub failed : Code → StepResult
failed c = record {
  progressed = false;
  warp_done = false;
  blocked_reason = error;
  diag = some c;
  next_pc = none;
}

abbrev pub progress : StepResult
progress = record {
  progressed = true;
  warp_done = false;
  blocked_reason = not_blocked;
  diag = none;
  next_pc = none;
}

abbrev pub already_done : StepResult
already_done = record {
  progressed = false;
  warp_done = true;
  blocked_reason = not_blocked;
  diag = none;
  next_pc = none;
}
