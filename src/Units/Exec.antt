-- ===== src/Units/Exec.antt =====
-- ExecCore::step (src/units/exec_core.cpp), one function for each micro-op.
-- Floats are their bit patterns: `f32_from_bits` and `f32_to_bits` copy bytes, and the arithmetic
-- of the machine's floats is a parameter. The counters of ObsControl are not modelled.
pub mod Floats
pub mod LaneWise
pub mod Shuffle
use mathlib.Core.Option
use proto_gpu.Prelude.{
  ℕ, ◌+◌, ◌-◌, ◌*◌, ◌/◌, ◌%◌, ◌^◌, bit_and, Bool, true, false, not, ◌&&◌, ◌||◌, String, str_eq,
  Option, none, some, List, [], ◌∷◌, ltb, leb, ◌==◌, if◌then◌else◌, length, set,
}
use proto_gpu.Contracts.{
  LaneMask, Operand, OperandKind, ValueType, MicroOp, MicroOpOp, Code, StepResult, lane_mask_and,
  e_uop_arity, e_uop_type, e_uop_unsupported, e_special_unknown, e_operand_kind, e_shfl_mode,
  e_setp_flags, e_warp_size, e_pred_oob,
}
use proto_gpu.Contracts.Words.{to_u32, to_u64, is_neg64, slt32, sext32}
use proto_gpu.Warp.{
  WarpState, is_wide, write_reg_lane, read_operand_lane, failed, progress, already_done,
}
use proto_gpu.Warp.Lanes.{for_lanes}
use Floats.{FloatOps}

abbrev pub is_signed : ValueType → Bool
is_signed ValueType.s32 = true
is_signed ValueType.s64 = true
is_signed _ = false

abbrev pub is_f32 : ValueType → Bool
is_f32 ValueType.f32 = true
is_f32 _ = false

abbrev pub is_u32 : ValueType → Bool
is_u32 ValueType.u32 = true
is_u32 _ = false

abbrev pub is_pred : OperandKind → Bool
is_pred OperandKind.pred = true
is_pred _ = false

unfoldable pub has_flag : List String → String → Bool
has_flag [] name = false
has_flag (f ∷ flags) name = str_eq f name || has_flag flags name

-- What a lane computes from the warp as it stands at its turn; `none` is an unknown special.
abbrev pub LaneValue : Type 0
LaneValue = WarpState → ℕ → Option ℕ

-- The body of a lane loop that writes a register.
unfoldable pub put_lane : Operand → LaneValue → ℕ → WarpState → WarpState × Option Code
put_lane out value lane warp = elim (value warp lane) [
  | none ↦ (warp, some e_special_unknown)
  | some v ↦ (write_reg_lane out warp lane v, none)
]

abbrev pub finish : WarpState × Option Code → WarpState × StepResult
finish (warp, none) = (warp, progress)
finish (warp, some c) = (warp, failed c)

abbrev pub run_lanes : LaneMask → Operand → LaneValue → WarpState → WarpState × StepResult
run_lanes mask out value warp = finish (for_lanes mask (put_lane out value) warp)

abbrev pub one_operand : (ℕ → ℕ) → Operand → LaneValue
one_operand f a warp lane = Option.map f (read_operand_lane a warp lane)

abbrev pub two_operands : (ℕ → ℕ → ℕ) → Operand → Operand → LaneValue
two_operands f a b warp lane = elim (read_operand_lane a warp lane) [
  | none ↦ none
  | some x ↦ Option.map (f x) (read_operand_lane b warp lane)
]

abbrev pub three_operands : (ℕ → ℕ → ℕ → ℕ) → Operand → Operand → Operand → LaneValue
three_operands f a b c warp lane = elim (read_operand_lane a warp lane) [
  | none ↦ none
  | some x ↦ two_operands (f x) b c warp lane
]

unfoldable pub exec_mov :
    MicroOp → List Operand → List Operand → LaneMask → WarpState → WarpState × StepResult
exec_mov uop (out ∷ []) (a ∷ []) mask warp = run_lanes mask out (read_operand_lane a) warp
exec_mov uop _ _ mask warp = (warp, failed e_uop_arity)

-- integer arithmetic on 64-bit patterns
unfoldable pub add_int : ℕ → ℕ → ℕ
add_int a b = to_u64 (a + b)

unfoldable pub mul_int : Bool → Bool → ℕ → ℕ → ℕ
mul_int signed_mul wide_out a b =
    let prod =
      if signed_mul
      then to_u64 (sext32 (to_u32 a) * sext32 (to_u32 b))
      else to_u64 (to_u32 a * to_u32 b) in
    if wide_out then prod else to_u32 prod

unfoldable pub shl_int : Bool → ℕ → ℕ → ℕ
shl_int is_64 a b =
    let sh = bit_and (to_u32 b) (if is_64 then 63 else 31) in
    if is_64 then to_u64 (a * 2 ^ sh) else to_u32 (to_u32 a * 2 ^ sh)

unfoldable pub exec_shl :
    MicroOp → List Operand → List Operand → LaneMask → WarpState → WarpState × StepResult
exec_shl uop (out ∷ []) (a ∷ b ∷ []) mask warp =
    run_lanes mask out (two_operands (shl_int (is_wide uop.attrs.type || is_wide out.type)) a b)
      warp
exec_shl uop _ _ mask warp = (warp, failed e_uop_arity)

unfoldable pub shfl_width_from_clamp : ℕ → ℕ
shfl_width_from_clamp clamp =
    let width = 32 - bit_and (clamp / 2 ^ 8) 0x1f in
    if width == 0 || ltb 32 width then 32 else width

-- the lane that `lane` reads from
unfoldable pub shfl_src_lane : Bool → ℕ → ℕ → ℕ → ℕ
unfolding shfl_width_from_clamp
shfl_src_lane do_down lane lane_or_idx clamp =
    let width = shfl_width_from_clamp clamp in
    let seg_base = lane - lane % width in
    if do_down
    then (if ltb (lane - seg_base + bit_and lane_or_idx 0x1f) width
        then lane + bit_and lane_or_idx 0x1f
        else lane)
    else seg_base + bit_and lane_or_idx 0x1f % width

-- bit `i` of the member mask
unfoldable pub in_member : ℕ → ℕ → Bool
in_member member_mask i = not (bit_and (member_mask / 2 ^ i) 1 == 0)

shfl_pick : Bool → LaneMask → Operand → WarpState → ℕ → ℕ → ℕ → ℕ → ℕ → Option ℕ
shfl_pick do_down mask a warp lane src_self lane_param clamp_param member_param =
    let src_lane = shfl_src_lane do_down lane (to_u32 lane_param) (to_u32 clamp_param) in
    let member_mask = to_u32 member_param in
    if in_member member_mask lane
      && (ltb src_lane mask.width && ltb src_lane 32 && in_member member_mask src_lane)
    then read_operand_lane a warp src_lane
    else some src_self

unfoldable pub shfl_value : Bool → LaneMask → Operand → Operand → Operand → Operand → LaneValue
unfolding shfl_pick
shfl_value do_down mask a lane_op clamp_op member_op warp lane =
    elim (read_operand_lane a warp lane) [
      | none ↦ none
      | some src_self ↦ elim (read_operand_lane lane_op warp lane) [
        | none ↦ none
        | some lane_param ↦ elim (read_operand_lane clamp_op warp lane) [
          | none ↦ none
          | some clamp_param ↦ elim (read_operand_lane member_op warp lane) [
            | none ↦ none
            | some member_param ↦
                shfl_pick do_down mask a warp lane src_self lane_param clamp_param member_param
          ]
        ]
      ]
    ]

unfoldable pub exec_shfl :
    MicroOp → List Operand → List Operand → LaneMask → WarpState → WarpState × StepResult
exec_shfl uop (out ∷ []) (a ∷ lane_op ∷ clamp_op ∷ member_op ∷ []) mask warp =
    let do_down = has_flag uop.attrs.flags "down" in
    let do_idx = has_flag uop.attrs.flags "idx" in
    if do_down && not do_idx || not do_down && do_idx
    then run_lanes mask out (shfl_value do_down mask a lane_op clamp_op member_op) warp
    else (warp, failed e_shfl_mode)
exec_shfl uop _ _ mask warp = (warp, failed e_uop_arity)

abbrev pub count : Bool → ℕ
count b = if b then 1 else 0

-- how many of the six compare flags are given
unfoldable pub op_count : List String → ℕ
op_count flags =
    count (has_flag flags "lt")
    + count (has_flag flags "le")
    + count (has_flag flags "gt")
    + count (has_flag flags "ge")
    + count (has_flag flags "eq")
    + count (has_flag flags "ne")

unfoldable pub compare_by : List String → (ℕ → ℕ → Bool) → ℕ → ℕ → Bool
compare_by flags lt a b =
    if has_flag flags "le"
    then not (lt b a)
    else if has_flag flags "gt"
    then lt b a
    else if has_flag flags "ge"
    then not (lt a b)
    else if has_flag flags "eq"
    then a == b
    else if has_flag flags "ne"
    then not (a == b)
    else lt a b

unfoldable pub setp_test : MicroOp → ℕ → ℕ → Bool
setp_test uop a b =
    compare_by uop.attrs.flags (if is_signed uop.attrs.type then slt32 else ltb) (to_u32 a)
      (to_u32 b)

unfoldable pub put_pred : MicroOp → ℕ → Operand → Operand → ℕ → WarpState → WarpState × Option Code
put_pred uop base a b lane warp =
    elim (two_operands (λ x y. if setp_test uop x y then 1 else 0) a b warp lane) [
      | none ↦ (warp, some e_special_unknown)
      | some v ↦ (record warp { p = set warp.p (to_u64 (base + lane)) v }, none)
    ]

unfoldable pub exec_setp :
    MicroOp → List Operand → List Operand → LaneMask → WarpState → WarpState × StepResult
exec_setp uop (out ∷ []) (a ∷ b ∷ []) mask warp =
    let warp_size = warp.active.width in
    let base = to_u64 (out.pred_id * warp_size) in
    if not (is_pred out.kind) || is_neg64 out.pred_id
    then (warp, failed e_operand_kind)
    else if ltb 1 (op_count uop.attrs.flags)
    then (warp, failed e_setp_flags)
    else if warp_size == 0 || ltb 32 warp_size
    then (warp, failed e_warp_size)
    else if ltb (length warp.p) (to_u64 (base + warp_size))
    then (warp, failed e_pred_oob)
    else finish (for_lanes mask (put_pred uop base a b) warp)
exec_setp uop _ _ mask warp = (warp, failed e_uop_arity)

-- The micro-ops that compute with floats.
module _ (fl : FloatOps) where
  open fl use {f32_add, f32_mul, f32_fma, f32_of_u32}

  unfoldable pub exec_cvt :
      MicroOp → List Operand → List Operand → LaneMask → WarpState → WarpState × StepResult
  exec_cvt uop (out ∷ []) (a ∷ []) mask warp =
      if not (is_f32 out.type) || not (is_u32 a.type)
      then (warp, failed e_uop_type)
      else run_lanes mask out (one_operand (λ x. f32_of_u32 (to_u32 x)) a) warp
  exec_cvt uop _ _ mask warp = (warp, failed e_uop_arity)

  unfoldable pub exec_add :
      MicroOp → List Operand → List Operand → LaneMask → WarpState → WarpState × StepResult
  exec_add uop (out ∷ []) (a ∷ b ∷ []) mask warp =
      if is_f32 uop.attrs.type
      then run_lanes mask out (two_operands (λ x y. f32_add (to_u32 x) (to_u32 y)) a b) warp
      else run_lanes mask out (two_operands add_int a b) warp
  exec_add uop _ _ mask warp = (warp, failed e_uop_arity)

  unfoldable pub exec_mul :
      MicroOp → List Operand → List Operand → LaneMask → WarpState → WarpState × StepResult
  exec_mul uop (out ∷ []) (a ∷ b ∷ []) mask warp =
      if is_f32 uop.attrs.type
      then run_lanes mask out (two_operands (λ x y. f32_mul (to_u32 x) (to_u32 y)) a b) warp
      else run_lanes mask out
          (two_operands (mul_int (is_signed uop.attrs.type) (is_wide out.type)) a b) warp
  exec_mul uop _ _ mask warp = (warp, failed e_uop_arity)

  unfoldable pub exec_fma :
      MicroOp → List Operand → List Operand → LaneMask → WarpState → WarpState × StepResult
  exec_fma uop (out ∷ []) (a ∷ b ∷ c ∷ []) mask warp =
      if not (is_f32 uop.attrs.type)
      then (warp, failed e_uop_type)
      else run_lanes mask out
          (three_operands (λ x y z. f32_fma (to_u32 x) (to_u32 y) (to_u32 z)) a b c) warp
  exec_fma uop _ _ mask warp = (warp, failed e_uop_arity)

  -- one round of the loop that sums
  sum_lane : Operand → WarpState → ℕ → ℕ → ℕ × Option Code
  sum_lane a warp lane sum = elim (read_operand_lane a warp lane) [
    | none ↦ (sum, some e_special_unknown)
    | some v ↦ (f32_add sum (to_u32 v), none)
  ]

  broadcast : LaneMask → Operand → ℕ × Option Code → WarpState → WarpState × StepResult
  broadcast mask out (sum, some c) warp = (warp, failed c)
  broadcast mask out (sum, none) warp = run_lanes mask out (λ _ _. some sum) warp

  unfoldable pub exec_warp_reduce_add :
      MicroOp → List Operand → List Operand → LaneMask → WarpState → WarpState × StepResult
  unfolding sum_lane broadcast
  exec_warp_reduce_add uop (out ∷ []) (a ∷ []) mask warp =
      if not (is_f32 uop.attrs.type)
      then (warp, failed e_uop_type)
      else broadcast mask out (for_lanes mask (sum_lane a warp) 0) warp
  exec_warp_reduce_add uop _ _ mask warp = (warp, failed e_uop_arity)

  unfoldable pub exec_by :
      MicroOpOp
      → MicroOp
      → List Operand
      → List Operand
      → LaneMask
      → WarpState
      → WarpState × StepResult
  exec_by MicroOpOp.mov = exec_mov
  exec_by MicroOpOp.cvt = exec_cvt
  exec_by MicroOpOp.add = exec_add
  exec_by MicroOpOp.mul = exec_mul
  exec_by MicroOpOp.shl = exec_shl
  exec_by MicroOpOp.shfl = exec_shfl
  exec_by MicroOpOp.fma = exec_fma
  exec_by MicroOpOp.warp_reduce_add = exec_warp_reduce_add
  exec_by MicroOpOp.setp = exec_setp
  exec_by _ = λ uop outputs inputs mask warp. (warp, failed e_uop_unsupported)

  unfoldable pub exec_step : MicroOp → WarpState → WarpState × StepResult
  exec_step uop warp =
      if warp.done
      then (warp, already_done)
      else exec_by uop.op uop uop.outputs uop.inputs (lane_mask_and warp.active uop.guard) warp
