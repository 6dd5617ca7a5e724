-- ===== src/Contracts.antt =====
-- The shared data contracts: include/gpusim/contracts.h and src/common/contracts.cpp.
-- An unsigned w-bit integer is a number below `2 ^ w`. A signed 64-bit integer (a PC, a register
-- id, an immediate) is its bit pattern, and is negative from `2 ^ 63` up.
pub mod Words
pub mod Masks
use proto_gpu.Prelude.{
  ℕ, ◌-◌, ◌/◌, ◌^◌, ◌≡◌, bit_and, bit_or, Bool, true, false, not, String, str_eq, Option, List, ltb,
  leb, ◌==◌, if◌then◌else◌,
}

pub data AddrSpace : Type 0 where
  global shared local const param : AddrSpace

pub data ValueType : Type 0 where
  u32 s32 u64 s64 f32 : ValueType

pub record LaneMask : Type 0 where
  pub width : ℕ
  pub bits_lo : ℕ

pub record Dim3 : Type 0 where
  pub x : ℕ
  pub y : ℕ
  pub z : ℕ

pub record LaunchConfig : Type 0 where
  pub grid_dim : Dim3
  pub block_dim : Dim3
  pub warp_size : ℕ

pub data OperandKind : Type 0 where
  reg pred imm addr symbol special : OperandKind

pub record Operand : Type 0 where
  pub kind : OperandKind
  pub type : ValueType
  pub reg_id : ℕ
  pub pred_id : ℕ
  pub imm_i64 : ℕ
  pub symbol : String
  pub special : String

pub record PredGuard : Type 0 where
  pub pred_id : ℕ
  pub is_negated : Bool

pub record InstMods : Type 0 where
  pub type_mod : String
  pub space : String
  pub flags : List String

pub record InstRecord : Type 0 where
  pub opcode : String
  pub mods : InstMods
  pub pred : Option PredGuard
  pub operands : List Operand

pub data MicroOpKind : Type 0 where
  exec control mem : MicroOpKind

pub data MicroOpOp : Type 0 where
  mov cvt add mul shl shfl fma warp_reduce_add setp ld st bra ret : MicroOpOp

pub record MicroOpAttrs : Type 0 where
  pub type : ValueType
  pub space : AddrSpace
  pub flags : List String

pub record MicroOp : Type 0 where
  pub kind : MicroOpKind
  pub op : MicroOpOp
  pub inputs : List Operand
  pub outputs : List Operand
  pub attrs : MicroOpAttrs
  pub guard : LaneMask

-- The codes of the diagnostics, one for each literal of the source.
pub data Code : Type 0 where
  e_uop_arity e_uop_type e_uop_unsupported e_special_unknown e_operand_kind : Code
  e_shfl_mode e_setp_flags e_warp_size e_pred_oob : Code
  e_ld_param_kind e_param_miss e_ld_global_kind e_ld_local_kind e_ld_space : Code
  e_st_global_kind e_st_local_kind e_st_space e_global_align e_global_miss : Code
  e_launch_dim e_launch_overflow e_memory_model e_cta_sched e_warp_sched : Code
  e_reconv_invalid e_reconv_miss e_pc_oob e_desc_miss e_next_pc_conflict : Code

pub data BlockedReason : Type 0 where
  not_blocked barrier mem_wait dependency error : BlockedReason

-- A diagnostic is given by its code; its texts and its source location are left out.
pub record StepResult : Type 0 where
  pub progressed : Bool
  pub warp_done : Bool
  pub blocked_reason : BlockedReason
  pub diag : Option Code
  pub next_pc : Option ℕ

unfoldable pub lane_mask_all : ℕ → LaneMask
lane_mask_all warp_size =
    if leb 32 warp_size
    then record { width = warp_size; bits_lo = 0xffff_ffff }
    else record { width = warp_size; bits_lo = if warp_size == 0 then 0 else 2 ^ warp_size - 1 }

unfoldable pub lane_mask_and : LaneMask → LaneMask → LaneMask
lane_mask_and a b = record { width = a.width; bits_lo = bit_and a.bits_lo b.bits_lo }

-- `(m.bits_lo >> lane) & 1u`, as a test
unfoldable pub lane_mask_test : LaneMask → ℕ → Bool
lane_mask_test m lane =
    if leb m.width lane
    then false
    else if leb 32 lane
    then false
    else not (bit_and (m.bits_lo / 2 ^ lane) 1 == 0)

unfoldable pub parse_value_type : String → ValueType
parse_value_type type_mod =
    if str_eq type_mod "u32"
    then u32
    else if str_eq type_mod "s32"
    then s32
    else if str_eq type_mod "b32"
    then u32
    else if str_eq type_mod "u64"
    then u64
    else if str_eq type_mod "s64"
    then s64
    else if str_eq type_mod "b64"
    then u64
    else if str_eq type_mod "f32"
    then f32
    else u32

-- the masks of src/simt/simt.cpp
unfoldable pub lane_mask_prefix : ℕ → ℕ → LaneMask
lane_mask_prefix warp_size lanes_on =
    if warp_size == 0
    then record { width = warp_size; bits_lo = 0 }
    else if leb 32 lanes_on
    then record { width = warp_size; bits_lo = 0xffff_ffff }
    else if lanes_on == 0
    then record { width = warp_size; bits_lo = 0 }
    else record { width = warp_size; bits_lo = 2 ^ lanes_on - 1 }

unfoldable pub lane_mask_or_same_width : LaneMask → LaneMask → LaneMask
lane_mask_or_same_width a b = record { width = a.width; bits_lo = bit_or a.bits_lo b.bits_lo }

unfoldable pub lane_mask_not_width : LaneMask → LaneMask
lane_mask_not_width m =
    if leb 32 m.width
    then record { width = m.width; bits_lo = 0xffff_ffff - m.bits_lo }
    else record {
      width = m.width;
      bits_lo = bit_and (0xffff_ffff - m.bits_lo) (if m.width == 0 then 0 else 2 ^ m.width - 1);
    }

unfoldable pub lane_mask_empty : LaneMask → Bool
lane_mask_empty m = m.bits_lo == 0
