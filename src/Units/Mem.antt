-- ===== src/Units/Mem.antt =====
-- MemUnit::step (src/units/mem_unit.cpp). Its state beside the warp is the address spaces (`mem_`)
-- and the sparse bytes of local memory (`local_`). The store log of a debug build is left out.
pub mod LittleEndian
pub mod Windows
pub mod RoundTrip
use proto_gpu.Prelude.{
  ℕ, zero, suc, ◌+◌, ◌*◌, ◌/◌, ◌%◌, ◌^◌, bit_or, Bool, true, false, not, ◌&&◌, Option, none, some,
  List, [], ◌∷◌, leb, ◌==◌, if◌then◌else◌, length,
}
use proto_gpu.Contracts.{
  AddrSpace, ValueType, LaneMask, Operand, OperandKind, MicroOp, MicroOpOp, Code, StepResult,
  lane_mask_and, e_uop_arity, e_special_unknown, e_ld_param_kind, e_param_miss, e_ld_global_kind,
  e_ld_local_kind, e_ld_space, e_st_global_kind, e_st_local_kind, e_st_space, e_global_align,
  e_global_miss, e_uop_unsupported,
}
use proto_gpu.Contracts.Words.{to_u8, to_u64, is_neg64}
use proto_gpu.Warp.{
  WarpState, read_reg_lane, write_reg_lane, read_operand_lane, failed, progress, already_done,
}
use proto_gpu.Warp.Lanes.{for_lanes}
use proto_gpu.Memory.{
  AddrSpaceManager, read_param_symbol, read_global, write_global, read_bytes, write_bytes,
}

-- The base register, if there is one, is read as a U64.
unfoldable pub eval_addr_lane : Operand → WarpState → ℕ → ℕ
eval_addr_lane o warp lane =
    let base_reg = record o { kind = OperandKind.reg; type = ValueType.u64 } in
    to_u64 ((if is_neg64 o.reg_id then 0 else read_reg_lane base_reg warp lane) + o.imm_i64)

unfoldable pub thread_linear_global : WarpState → ℕ → ℕ
thread_linear_global warp lane =
    let grid = warp.launch.grid_dim in
    let block = warp.launch.block_dim in
    let cta_linear = to_u64 (warp.ctaid.x + grid.x * (warp.ctaid.y + grid.y * warp.ctaid.z)) in
    let threads_per_block = to_u64 (block.x * block.y * block.z) in
    to_u64 (cta_linear * threads_per_block + (warp.lane_base_thread_linear + lane))

abbrev pub local_stride : ℕ
local_stride = 4096

unfoldable pub local_effective_addr : WarpState → ℕ → ℕ → ℕ
unfolding thread_linear_global
local_effective_addr warp lane local_addr =
    to_u64 (thread_linear_global warp lane * local_stride + local_addr)

-- `for (i = 0; i < size; i++) out.push_back((v >> (8 * i)) & 0xFF)`
unfoldable pub pack_from : ℕ → ℕ → ℕ → List ℕ
pack_from v i zero = []
pack_from v i (suc left) = to_u8 (v / 2 ^ (8 * i)) ∷ pack_from v (suc i) left

unfoldable pub pack_le : ℕ → ℕ → List ℕ
unfolding pack_from
pack_le v size = pack_from v 0 size

-- `for (i = 0; i < bytes.size() && i < 8; i++) v |= bytes[i] << (8 * i)`
unfoldable pub unpack_from : List ℕ → ℕ → ℕ → ℕ
unpack_from [] i v = v
unpack_from (b ∷ bytes) i v =
    if leb 8 i then v else unpack_from bytes (suc i) (bit_or v (to_u64 (b * 2 ^ (8 * i))))

unfoldable pub unpack_le : List ℕ → ℕ
unfolding unpack_from
unpack_le bytes = unpack_from bytes 0 0

unfoldable pub type_size : ValueType → ℕ
type_size ValueType.u64 = 8
type_size ValueType.s64 = 8
type_size _ = 4

-- The warp, with the memories that the unit keeps.
pub record MemState : Type 0 where
  pub warp : WarpState
  pub mem : AddrSpaceManager
  pub local_bytes : ℕ → Option ℕ

abbrev pub Step : Type 0
Step = ℕ → MemState → MemState × Option Code

abbrev pub to_reg : Operand → ℕ → ℕ → MemState → MemState
to_reg out lane v s = record s { warp = write_reg_lane out s.warp lane v }

-- the lane bodies, each up to its `return r` or its last write
unfoldable pub ld_param_lane : Operand → ℕ → Step
ld_param_lane out v lane s = (to_reg out lane v s, none)

unfoldable pub ld_global_lane : Operand → Operand → ℕ → Step
unfolding eval_addr_lane unpack_le
ld_global_lane out src sz lane s =
    let addr = eval_addr_lane src s.warp lane in
    if not (sz == 0) && not (addr % sz == 0)
    then (s, some e_global_align)
    else elim (read_global s.mem addr sz) [
      | none ↦ (s, some e_global_miss)
      | some bytes ↦ (to_reg out lane (unpack_le bytes) s, none)
    ]

unfoldable pub ld_local_lane : Operand → Operand → ℕ → Step
unfolding eval_addr_lane unpack_le local_effective_addr
ld_local_lane out src sz lane s =
    let eff = local_effective_addr s.warp lane (eval_addr_lane src s.warp lane) in
    (to_reg out lane (unpack_le (read_bytes s.local_bytes eff sz)) s, none)

-- what a global store answers for
abbrev pub stored_or_miss : MemState → AddrSpaceManager × Bool → MemState × Option Code
stored_or_miss s (mem, true) = (record s { mem = mem }, none)
stored_or_miss s (mem, false) = (s, some e_global_miss)

unfoldable pub st_global_lane : Operand → Operand → ℕ → Step
unfolding eval_addr_lane pack_le
st_global_lane dst val sz lane s =
    let addr = eval_addr_lane dst s.warp lane in
    if not (sz == 0) && not (addr % sz == 0)
    then (s, some e_global_align)
    else elim (read_operand_lane val s.warp lane) [
      | none ↦ (s, some e_special_unknown)
      | some v ↦ stored_or_miss s (write_global s.mem addr (pack_le v sz))
    ]

unfoldable pub st_local_lane : Operand → Operand → ℕ → Step
unfolding eval_addr_lane pack_le local_effective_addr
st_local_lane dst val sz lane s =
    let eff = local_effective_addr s.warp lane (eval_addr_lane dst s.warp lane) in
    elim (read_operand_lane val s.warp lane) [
      | none ↦ (s, some e_special_unknown)
      | some v ↦ (record s { local_bytes = write_bytes s.local_bytes eff (pack_le v sz) }, none)
    ]

abbrev pub conclude : MemState × Option Code → MemState × StepResult
conclude (s, none) = (s, progress)
conclude (s, some c) = (s, failed c)

abbrev pub is_symbol : OperandKind → Bool
is_symbol OperandKind.symbol = true
is_symbol _ = false

abbrev pub is_addr : OperandKind → Bool
is_addr OperandKind.addr = true
is_addr _ = false

unfoldable pub load : MicroOp → LaneMask → Operand → Operand → MemState → MemState × StepResult
unfolding ld_param_lane ld_global_lane ld_local_lane type_size
load uop mask src out s =
    let sz = type_size uop.attrs.type in
    elim uop.attrs.space [
      | AddrSpace.param ↦
          if not (is_symbol src.kind)
          then (s, failed e_ld_param_kind)
          else elim (read_param_symbol s.mem src.symbol sz) [
            | none ↦ (s, failed e_param_miss)
            | some bytes ↦ conclude (for_lanes mask (ld_param_lane out (unpack_le bytes)) s)
          ]
      | AddrSpace.global ↦
          if not (is_addr src.kind)
          then (s, failed e_ld_global_kind)
          else conclude (for_lanes mask (ld_global_lane out src sz) s)
      | AddrSpace.local ↦
          if not (is_addr src.kind)
          then (s, failed e_ld_local_kind)
          else conclude (for_lanes mask (ld_local_lane out src sz) s)
      | _ ↦ (s, failed e_ld_space)
    ]

unfoldable pub store : MicroOp → LaneMask → Operand → Operand → MemState → MemState × StepResult
unfolding st_global_lane st_local_lane type_size
store uop mask dst val s =
    let sz = type_size uop.attrs.type in
    elim uop.attrs.space [
      | AddrSpace.global ↦
          if not (is_addr dst.kind)
          then (s, failed e_st_global_kind)
          else conclude (for_lanes mask (st_global_lane dst val sz) s)
      | AddrSpace.local ↦
          if not (is_addr dst.kind)
          then (s, failed e_st_local_kind)
          else conclude (for_lanes mask (st_local_lane dst val sz) s)
      | _ ↦ (s, failed e_st_space)
    ]

unfoldable pub mem_op :
    MicroOp → LaneMask → List Operand → List Operand → MemState → MemState × StepResult
unfolding load store
mem_op uop mask inputs outputs s = elim uop.op [
  | MicroOpOp.ld ↦ elim inputs [
    | src ∷ [] ↦ elim outputs [ out ∷ [] ↦ load uop mask src out s | _ ↦ (s, failed e_uop_arity) ]
    | _ ↦ (s, failed e_uop_arity)
  ]
  | MicroOpOp.st ↦ elim inputs [
    | dst ∷ val ∷ [] ↦ elim outputs [ [] ↦ store uop mask dst val s | _ ↦ (s, failed e_uop_arity) ]
    | _ ↦ (s, failed e_uop_arity)
  ]
  | _ ↦ (s, failed e_uop_unsupported)
]

unfoldable pub mem_step : MicroOp → MemState → MemState × StepResult
unfolding mem_op
mem_step uop s =
    if s.warp.done
    then (s, already_done)
    else mem_op uop (lane_mask_and s.warp.active uop.guard) uop.inputs uop.outputs s
