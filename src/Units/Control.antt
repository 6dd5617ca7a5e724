-- ===== src/Units/Control.antt =====
-- ControlUnit::step (src/units/control_unit.cpp).
use proto_gpu.Prelude.{true, List, [], ◌∷◌, some, ◌==◌, if◌then◌else◌}
use proto_gpu.Contracts.{
  Operand, OperandKind, MicroOp, MicroOpOp, StepResult, lane_mask_and, e_uop_arity, e_operand_kind,
  e_uop_unsupported,
}
use proto_gpu.Warp.{WarpState, failed, progress, already_done}

bra_to : Operand → StepResult
bra_to target = elim target.kind [
  | OperandKind.imm ↦ record progress { next_pc = some target.imm_i64 }
  | _ ↦ failed e_operand_kind
]

bra_on : List Operand → StepResult
unfolding bra_to
bra_on (target ∷ []) = bra_to target
bra_on _ = failed e_uop_arity

unfoldable pub control_step : MicroOp → WarpState → WarpState × StepResult
unfolding bra_on
control_step uop warp =
    if warp.done
    then (warp, already_done)
    else if (lane_mask_and warp.active uop.guard).bits_lo == 0
    then (warp, progress)
    else elim uop.op [
      | MicroOpOp.bra ↦ (warp, bra_on uop.inputs)
      | MicroOpOp.ret ↦ (record warp { done = true }, record progress { warp_done = true })
      | _ ↦ (warp, failed e_uop_unsupported)
    ]
