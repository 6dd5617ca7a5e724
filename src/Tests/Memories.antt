-- ===== src/Tests/Memories.antt =====
-- The memories at concrete inputs.
use proto_gpu.Prelude.{
  ℕ, none, refl, ◌≡◌, ◌⊎◌, ◌%◌, ◌^◌, inr, subst, some_inj, ◌+◌, ◌<◌, true, false, some, List, [],
  ◌∷◌, arith,
}
use proto_gpu.Memory.{
  global_range_allocated, some_alloc_holds, holds, AddrSpaceManager, ParamDesc, ParamType, empty,
  alloc_global, write_global, read_global, set_param_layout, set_param_blob, read_param_symbol,
}
use proto_gpu.Memory.Alloc.{IsSound, AllBelow, alloc_global-IsSound}
use proto_gpu.Memory.Bytes.{read_global-write_global, write_global-alloc_global}
use proto_gpu.Memory.Params.{param_bytes, read_param_symbol-eq-param_bytes}
use proto_gpu.Units.Mem.{pack_le, unpack_le}
use proto_gpu.Contracts.{Operand, OperandKind, ValueType, LaneMask}
use proto_gpu.Warp.{read_operand_lane, read_reg_lane}
use proto_gpu.Units.Mem.{MemState, st_global_lane, ld_global_lane, to_reg}
use proto_gpu.Units.Mem.RoundTrip.{ld_global_lane-st_global_lane}
use proto_gpu.Units.Mem.LittleEndian.{unpack_le-pack_le}

empty-IsSound : IsSound empty
empty-IsSound = record { ordered = omega arith; in_range = omega arith }

alloc_global-IsSound_example :
    IsSound (alloc_global empty 8 16).0
    × ((alloc_global empty 8 16).1 % 16 ≡ 0)
    × AllBelow (alloc_global empty 8 16).1 empty.allocs
alloc_global-IsSound_example = alloc_global-IsSound empty 8 16 empty-IsSound (omega arith)

write_global-alloc_global_example :
    ((write_global (alloc_global empty 8 16).0 (alloc_global empty 8 16).1 (1 ∷ 2 ∷ [])).1 ≡ true)
    × (read_global
          (write_global (alloc_global empty 8 16).0 (alloc_global empty 8 16).1 (1 ∷ 2 ∷ [])).0
          (alloc_global empty 8 16).1
          2
        ≡ some (1 ∷ 2 ∷ []))
write_global-alloc_global_example =
    write_global-alloc_global empty 8 16 (1 ∷ 2 ∷ []) empty-IsSound (omega arith) (omega arith)

abbrev eight_bytes : AddrSpaceManager
eight_bytes = (alloc_global empty 8 16).0

read_global-write_global_example :
    ((((write_global eight_bytes 0x1000 (7 ∷ [])).1 ≡ true)
        × (read_global (write_global eight_bytes 0x1000 (7 ∷ [])).0 0x1000 1 ≡ some (7 ∷ [])))
      ⊎ (((write_global eight_bytes 0x1000 (7 ∷ [])).1 ≡ false)
          × ((write_global eight_bytes 0x1000 (7 ∷ [])).0 ≡ eight_bytes)))
    × (read_global (write_global eight_bytes 0x1000 (7 ∷ [])).0 0x1001 2
        ≡ read_global eight_bytes 0x1001 2)
read_global-write_global_example =
    read_global-write_global eight_bytes 0x1000 (7 ∷ []) 0x1001 2 (omega arith) (omega arith)
      (omega arith) (omega arith) (inr (omega arith))

abbrev one_param : List ParamDesc
one_param = record { name = "n"; type = ParamType.u32; size = 4; align = 4; offset = 0 } ∷ []

read_param_symbol-eq-param_bytes_example :
    read_param_symbol (set_param_blob (set_param_layout empty one_param) (9 ∷ 0 ∷ 0 ∷ 0 ∷ [])) "n" 4
    ≡ param_bytes one_param (9 ∷ 0 ∷ 0 ∷ 0 ∷ []) "n" 4
read_param_symbol-eq-param_bytes_example =
    read_param_symbol-eq-param_bytes empty one_param (9 ∷ 0 ∷ 0 ∷ 0 ∷ []) "n" 4
      (λ p e. subst (λ (q : ParamDesc). q.offset + 4 < 2 ^ 64) (some_inj e) (omega arith))
      (omega arith)

unpack_le-pack_le_example : unpack_le (pack_le 0x1_0000_0203 4) ≡ 0x203
unpack_le-pack_le_example = unpack_le-pack_le 0x1_0000_0203 4 (omega arith)

abbrev operand : OperandKind → ℕ → Operand
operand kind value = record {
  kind = kind;
  type = ValueType.u64;
  reg_id = 0;
  pred_id = 0;
  imm_i64 = value;
  symbol = "";
  special = "";
}

-- the base register is 0, so the address is the offset
abbrev at_1000 : Operand
at_1000 = operand OperandKind.addr 0x1000

abbrev one_mask : ℕ → LaneMask
one_mask bits = record { width = 1; bits_lo = bits }

abbrev machine : MemState
machine = record {
  warp = record {
    launch = record {
      grid_dim = record { x = 1; y = 1; z = 1 };
      block_dim = record { x = 1; y = 1; z = 1 };
      warp_size = 1;
    };
    ctaid = record { x = 0; y = 0; z = 0 };
    warpid = 0;
    lane_base_thread_linear = 0;
    pc = 0;
    done = false;
    active = one_mask 1;
    exited = one_mask 0;
    simt_stack = [];
    r_u32 = [];
    r_u64 = [];
    p = [];
  };
  mem = eight_bytes;
  local_bytes = λ a. none;
}

stored : (st_global_lane at_1000 (operand OperandKind.imm 0x1_0000_0007) 4 0 machine).1 ≡ none
unfolding st_global_lane read_reg_lane read_operand_lane write_global global_range_allocated
    some_alloc_holds alloc_global holds
stored = refl

known :
    read_operand_lane (operand OperandKind.imm 0x1_0000_0007) machine.warp 0 ≡ some 0x1_0000_0007
unfolding read_operand_lane
known = refl

ld_global_lane-st_global_lane_example :
    ld_global_lane
      (operand OperandKind.reg 0)
      at_1000
      4
      0
      (st_global_lane at_1000 (operand OperandKind.imm 0x1_0000_0007) 4 0 machine).0
    ≡ (
      to_reg
          (operand OperandKind.reg 0)
          0
          7
          (st_global_lane at_1000 (operand OperandKind.imm 0x1_0000_0007) 4 0 machine).0,
      none,
    )
ld_global_lane-st_global_lane_example =
    ld_global_lane-st_global_lane (operand OperandKind.reg 0) at_1000
      (operand OperandKind.imm 0x1_0000_0007) 4 0 0x1_0000_0007 machine (omega arith) known stored
