-- ===== src/Instruction.antt =====
-- Descriptors of instructions and their expansion into micro-ops:
-- include/gpusim/instruction_desc.h, src/instruction/descriptor_registry.cpp and expander.cpp.
-- Reading the descriptors from JSON is left out: a registry is the list of its descriptors. An
-- operand index is the bit pattern of an int.
pub mod Laws
use proto_gpu.Prelude.{
  ℕ, ◌^◌, Bool, true, false, ◌&&◌, ◌||◌, String, str_eq, Option, none, some, List, [], ◌∷◌, leb,
  if◌then◌else◌, get_elem?,
}
use proto_gpu.Contracts.{
  AddrSpace, MicroOp, MicroOpKind, MicroOpOp, InstRecord, Operand, OperandKind, lane_mask_all,
  parse_value_type,
}

pub record UopTemplate : Type 0 where
  pub kind : MicroOpKind
  pub op : MicroOpOp
  pub in_operand_idx : List ℕ
  pub out_operand_idx : List ℕ

pub record InstDesc : Type 0 where
  pub opcode : String
  pub type_mod : String
  pub operand_kinds : List String
  pub uops : List UopTemplate

pub record DescriptorRegistry : Type 0 where
  pub descs : List InstDesc

-- `none` stands for the exception.
unfoldable pub parse_uop_op : String → Option MicroOpOp
parse_uop_op s =
    if str_eq s "MOV"
    then some MicroOpOp.mov
    else if str_eq s "CVT"
    then some MicroOpOp.cvt
    else if str_eq s "ADD"
    then some MicroOpOp.add
    else if str_eq s "MUL"
    then some MicroOpOp.mul
    else if str_eq s "SHL"
    then some MicroOpOp.shl
    else if str_eq s "SHFL"
    then some MicroOpOp.shfl
    else if str_eq s "FMA"
    then some MicroOpOp.fma
    else if str_eq s "WARP_REDUCE_ADD"
    then some MicroOpOp.warp_reduce_add
    else if str_eq s "SETP"
    then some MicroOpOp.setp
    else if str_eq s "LD"
    then some MicroOpOp.ld
    else if str_eq s "ST"
    then some MicroOpOp.st
    else if str_eq s "BRA"
    then some MicroOpOp.bra
    else if str_eq s "RET"
    then some MicroOpOp.ret
    else none

unfoldable pub parse_uop_kind : String → Option MicroOpKind
parse_uop_kind s =
    if str_eq s "EXEC"
    then some MicroOpKind.exec
    else if str_eq s "CTRL"
    then some MicroOpKind.control
    else if str_eq s "MEM"
    then some MicroOpKind.mem
    else none

unfoldable pub operand_kind_to_string : OperandKind → String
operand_kind_to_string OperandKind.reg = "reg"
operand_kind_to_string OperandKind.pred = "pred"
operand_kind_to_string OperandKind.imm = "imm"
operand_kind_to_string OperandKind.addr = "addr"
operand_kind_to_string OperandKind.symbol = "symbol"
operand_kind_to_string OperandKind.special = "special"

unfoldable pub parse_space : String → AddrSpace
parse_space s =
    if str_eq s "global"
    then AddrSpace.global
    else if str_eq s "shared"
    then AddrSpace.shared
    else if str_eq s "local"
    then AddrSpace.local
    else if str_eq s "const"
    then AddrSpace.const
    else if str_eq s "param"
    then AddrSpace.param
    else AddrSpace.global

-- The operands at the indices, in order; an index out of range is passed over.
unfoldable pub pick_operands : List Operand → List ℕ → List Operand
pick_operands operands [] = []
pick_operands operands (idx ∷ rest) =
    let more = pick_operands operands rest in
    if leb (2 ^ 31) idx
    then more
    else elim (get_elem? operands idx) [ none ↦ more | some o ↦ o ∷ more ]

abbrev pub expand_uop : InstRecord → ℕ → UopTemplate → MicroOp
unfolding pick_operands parse_space
expand_uop inst warp_size t = record {
  kind = t.kind;
  op = t.op;
  inputs = pick_operands inst.operands t.in_operand_idx;
  outputs = pick_operands inst.operands t.out_operand_idx;
  attrs = record {
    type = parse_value_type inst.mods.type_mod;
    space = parse_space inst.mods.space;
    flags = inst.mods.flags;
  };
  guard = lane_mask_all warp_size;
}

expand_all : InstRecord → ℕ → List UopTemplate → List MicroOp
unfolding expand_uop
expand_all inst warp_size [] = []
expand_all inst warp_size (t ∷ uops) = expand_uop inst warp_size t ∷ expand_all inst warp_size uops

unfoldable pub expand : InstRecord → InstDesc → ℕ → List MicroOp
unfolding expand_all
expand inst desc warp_size = expand_all inst warp_size desc.uops

-- `d.operand_kinds != kinds` compares two vectors of strings.
unfoldable pub same_kinds : List String → List Operand → Bool
unfolding operand_kind_to_string
same_kinds [] [] = true
same_kinds [] (o ∷ operands) = false
same_kinds (k ∷ kinds) [] = false
same_kinds (k ∷ kinds) (o ∷ operands) =
    str_eq k (operand_kind_to_string o.kind) && same_kinds kinds operands

unfoldable pub describes : InstDesc → InstRecord → Bool
unfolding same_kinds
describes d inst =
    str_eq d.opcode inst.opcode
    && (str_eq d.type_mod "" || str_eq d.type_mod inst.mods.type_mod)
    && same_kinds d.operand_kinds inst.operands

unfoldable pub lookup_in : List InstDesc → InstRecord → Option InstDesc
unfolding describes
lookup_in [] inst = none
lookup_in (d ∷ descs) inst = if describes d inst then some d else lookup_in descs inst

unfoldable pub lookup : DescriptorRegistry → InstRecord → Option InstDesc
unfolding lookup_in
lookup registry inst = lookup_in registry.descs inst
