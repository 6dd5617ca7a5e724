-- ===== src/Simt/Step.antt =====
-- One instruction of a warp (SimtExecutor::run of src/simt/simt.cpp): predication, the micro-ops
-- in order, divergence and `ret`. The state is the warp with the memories of the units.
pub mod Laws
pub mod Ret
pub mod Turns
use mathlib.Core.Option
use proto_gpu.Prelude.{
  ℕ, zero, suc, ◌+◌, ◌*◌, ◌^◌, bit_or, Bool, true, false, not, ◌&&◌, ◌||◌, Option, none, some, List,
  [], ◌∷◌, map, min, ltb, leb, ◌==◌, if◌then◌else◌, length, get_or, get_elem?,
}
use proto_gpu.Contracts.{
  LaneMask, PredGuard, InstRecord, MicroOp, MicroOpKind, MicroOpOp, Code, StepResult, lane_mask_and,
  lane_mask_not_width, lane_mask_or_same_width, lane_mask_empty, lane_mask_test, e_pred_oob,
  e_reconv_miss, e_next_pc_conflict, e_pc_oob, e_desc_miss,
}
use proto_gpu.Contracts.Words.{to_u64, is_neg64}
use proto_gpu.Warp.{WarpState, SimtFrame, progress}
use proto_gpu.Instruction.{DescriptorRegistry, lookup, expand}
use proto_gpu.Units.Exec.{exec_step}
use proto_gpu.Units.Exec.Floats.{FloatOps}
use proto_gpu.Units.Control.{control_step}
use proto_gpu.Units.Mem.{MemState, mem_step}
use proto_gpu.Simt.Stack.{PendingSplit, Normal, normalize, settle, commit}

-- the lanes from `lane` on whose predicate enables them
unfoldable pub pred_bits : WarpState → ℕ → Bool → ℕ → ℕ → ℕ → ℕ
pred_bits warp base negated zero lane bits = bits
pred_bits warp base negated (suc left) lane bits =
    let pval = not (get_or warp.p (to_u64 (base + lane)) 0 == 0) in
    let enabled = if negated then not pval else pval in
    pred_bits warp base negated left (suc lane)
      (if lane_mask_test warp.active lane && enabled then bit_or bits (2 ^ lane) else bits)

-- `none` is a predicate out of range.
unfoldable pub pred_mask : ℕ → WarpState → PredGuard → Option LaneMask
unfolding pred_bits
pred_mask warp_size warp pred =
    let base = to_u64 (pred.pred_id * warp_size) in
    if is_neg64 pred.pred_id
    then none
    else if ltb (length warp.p) (to_u64 (base + warp_size))
    then none
    else some record {
      width = warp_size;
      bits_lo = pred_bits warp base pred.is_negated (min warp_size 32) 0 0;
    }

abbrev pub guarded_by : LaneMask → MicroOp → MicroOp
guarded_by mask u = record u { guard = lane_mask_and u.guard mask }

unfoldable pub predicate : ℕ → WarpState → Option PredGuard → List MicroOp → Option (List MicroOp)
unfolding pred_mask
predicate warp_size warp none uops = some uops
predicate warp_size warp (some pred) uops = elim (pred_mask warp_size warp pred) [
  | none ↦ none
  | some mask ↦ some (map (guarded_by mask) uops)
]

-- The state of the loop over the micro-ops.
pub record UopState : Type 0 where
  pub machine : MemState
  pub next_pc : Option ℕ
  pub split : Option PendingSplit

abbrev pub mask_top : LaneMask → List SimtFrame → List SimtFrame
mask_top exec_mask [] = []
mask_top exec_mask (top ∷ rest) =
    record top { active = lane_mask_and top.active (lane_mask_not_width exec_mask) } ∷ rest

abbrev pub top_active : LaneMask → List SimtFrame → LaneMask
top_active old [] = old
top_active old (top ∷ rest) = top.active

-- `ret`: the lanes it runs in leave for good.
unfoldable pub ret_lanes : MicroOp → WarpState → WarpState
ret_lanes uop warp =
    let exec_mask = lane_mask_and warp.active uop.guard in
    if exec_mask.bits_lo == 0 then warp else record warp {
      exited = lane_mask_or_same_width warp.exited exec_mask;
      simt_stack = mask_top exec_mask warp.simt_stack;
      active = top_active warp.active (mask_top exec_mask warp.simt_stack);
    }

-- What a branch that was taken does: nothing, a split, or the diagnostic of a missing point.
abbrev pub reconv_at : List (Option ℕ) → ℕ → Option ℕ
reconv_at points pc =
    if is_neg64 pc then none else elim (get_elem? points pc) [ none ↦ none | some r ↦ r ]

pub data Divergence : Type 0 where
  uniform missing : Divergence
  splits : PendingSplit → Divergence

unfoldable pub diverge : List (Option ℕ) → WarpState → MicroOp → ℕ → Divergence
diverge points warp uop target =
    let taken = lane_mask_and warp.active uop.guard in
    let fallthrough = lane_mask_and warp.active (lane_mask_not_width uop.guard) in
    if not (lane_mask_empty taken) && not (lane_mask_empty fallthrough)
    then elim (reconv_at points warp.pc) [
      | none ↦ missing
      | some r ↦
          splits
            record { target_pc = target; reconv_pc = r; taken = taken; fallthrough = fallthrough }
    ]
    else uniform

-- the next pc of a micro-op against the one before, then its diagnostic
unfoldable pub take_result : UopState → StepResult → UopState × Option Code
take_result s r = elim r.next_pc [
  | none ↦ (s, r.diag)
  | some pc ↦ elim s.next_pc [
    | none ↦ (record s { next_pc = some pc }, r.diag)
    | some old ↦
        if old == pc then (record s { next_pc = some pc }, r.diag) else (s, some e_next_pc_conflict)
  ]
]

abbrev pub on_warp : UopState → WarpState → UopState
on_warp s warp = record s { machine = record s.machine { warp = warp } }

is_bra : MicroOpOp → Bool
is_bra MicroOpOp.bra = true
is_bra _ = false

abbrev pub after_branch : UopState → StepResult → Divergence → UopState × Option Code
after_branch s r uniform = take_result s r
after_branch s r missing = (s, some e_reconv_miss)
after_branch s r (splits split) = take_result (record s { split = some split }) r

unfoldable pub control_uop : List (Option ℕ) → MicroOp → UopState → UopState × Option Code
unfolding ret_lanes diverge take_result is_bra
control_uop points uop s = elim uop.op [
  | MicroOpOp.ret ↦ (on_warp s (ret_lanes uop s.machine.warp), none)
  | _ ↦
      let (warp, r) = control_step uop s.machine.warp in
      elim r.next_pc [
        | none ↦ take_result (on_warp s warp) r
        | some target ↦
            if is_bra uop.op
            then after_branch (on_warp s warp) r (diverge points warp uop target)
            else take_result (on_warp s warp) r
      ]
]

unfoldable pub run_uop : FloatOps → List (Option ℕ) → MicroOp → UopState → UopState × Option Code
unfolding control_uop
run_uop fl points uop s = elim uop.kind [
  | MicroOpKind.exec ↦
      let (warp, r) = exec_step fl uop s.machine.warp in take_result (on_warp s warp) r
  | MicroOpKind.control ↦ control_uop points uop s
  | MicroOpKind.mem ↦
      let (machine, r) = mem_step uop s.machine in take_result (record s { machine = machine }) r
]

abbrev pub and_then :
    UopState × Option Code → (UopState → UopState × Option Code) → UopState × Option Code
and_then (s, none) rest = rest s
and_then (s, some c) rest = (s, some c)

unfoldable pub run_uops :
    FloatOps → List (Option ℕ) → List MicroOp → UopState → UopState × Option Code
unfolding run_uop
run_uops fl points [] s = (s, none)
run_uops fl points (u ∷ uops) s = and_then (run_uop fl points u s) (run_uops fl points uops)

abbrev pub committed : ℕ → UopState × Option Code → MemState × Option Code
committed warp_size (s, none) =
    (record s.machine { warp = commit warp_size s.split s.next_pc s.machine.warp }, none)
committed warp_size (s, some c) = (s.machine, some c)

-- The instruction of a warp whose stack is normalized.
unfoldable pub run_inst :
    FloatOps
    → DescriptorRegistry
    → ℕ
    → List (Option ℕ)
    → MemState
    → InstRecord
    → MemState × Option Code
unfolding predicate run_uops
run_inst fl registry warp_size points m inst = elim (lookup registry inst) [
  | none ↦ (m, some e_desc_miss)
  | some desc ↦ elim (predicate warp_size m.warp inst.pred (expand inst desc warp_size)) [
    | none ↦ (m, some e_pred_oob)
    | some uops ↦
        committed warp_size
          (run_uops fl points uops record { machine = m; next_pc = none; split = none })
  ]
]

-- What picking a warp does: it ends, it runs one instruction, or the run stops.
pub data Outcome : Type 0 where
  warp_ends : MemState → Outcome
  steps : MemState → Outcome
  stops_with : Code → MemState → Outcome

abbrev pub outcome : MemState × Option Code → Outcome
outcome (m, none) = steps m
outcome (m, some c) = stops_with c m

unfoldable pub fetch_and_run :
    FloatOps → DescriptorRegistry → ℕ → List (Option ℕ) → List InstRecord → MemState → Outcome
unfolding run_inst
fetch_and_run fl registry warp_size points insts m =
    if is_neg64 m.warp.pc then stops_with e_pc_oob m else elim (get_elem? insts m.warp.pc) [
      | none ↦ stops_with e_pc_oob m
      | some inst ↦ outcome (run_inst fl registry warp_size points m inst)
    ]

-- The turn of a warp, given how the loop over its stack ends.
unfoldable pub turn :
    FloatOps
    → DescriptorRegistry
    → ℕ
    → List (Option ℕ)
    → List InstRecord
    → MemState
    → Normal
    → Outcome
unfolding fetch_and_run
turn fl registry warp_size points insts m normal =
    let (warp, diag) = settle warp_size m.warp normal in
    let settled = record m { warp = warp } in
    elim diag [
      | some c ↦ stops_with c settled
      | none ↦
          if warp.done
          then warp_ends settled
          else fetch_and_run fl registry warp_size points insts settled
    ]

-- One turn of a warp that is not done. The fuel is the depth of its stack.
unfoldable pub warp_step :
    FloatOps
    → DescriptorRegistry
    → ℕ
    → List (Option ℕ)
    → List InstRecord
    → MemState
    → Option Outcome
unfolding turn
warp_step fl registry warp_size points insts m =
    Option.map (turn fl registry warp_size points insts m)
      (normalize (length m.warp.simt_stack) m.warp.exited m.warp.simt_stack)
