-- ===== src/Tests/Control.antt =====
-- Control flow, the reconvergence stack and launches at concrete inputs.
use proto_gpu.Prelude.{
  ◌≤◌, ◌*◌, ℕ, String, ◌&&◌, ◌≡◌, refl, true, false, none, some, List, [], ◌∷◌, Option, arith,
}
use proto_gpu.Contracts.{
  LaneMask, ValueType, MicroOp, MicroOpKind, MicroOpOp, AddrSpace, Dim3, LaunchConfig, PredGuard,
  InstRecord, lane_mask_test, lane_mask_and, lane_mask_empty, lane_mask_not_width,
}
use proto_gpu.Warp.{SimtFrame, WarpState}
use proto_gpu.Simt.Cfa.{InstCtrlInfo, analyze, build_cfg, reconv, post_dominators, reconv_pcs}
use proto_gpu.Simt.Cfa.Words.{equals, insert, all, singleton, test}
use proto_gpu.Simt.Cfa.Paths.{arrived, goes, Visits}
use proto_gpu.Simt.Cfa.Reconv.{analyze-Visits}
use proto_gpu.Simt.Stack.{PendingSplit, commit}
use proto_gpu.Simt.Step.{diverge, splits, pred_mask}
use proto_gpu.Simt.Step.Laws.{diverge-commit, pred_mask-test, enabled}
use proto_gpu.Simt.Step.{ret_lanes}
use proto_gpu.Simt.Step.Ret.{Leaves, ret_lanes-Leaves}
use proto_gpu.Units.Mem.{MemState}
use proto_gpu.Memory.{empty}
use proto_gpu.Simt.Launch.{Launch, init_warp}
use proto_gpu.Simt.Launch.{SimConfig, check_launch, accepted}
use proto_gpu.Sched.Ctas.{create_cta_scheduler}
use proto_gpu.Sched.Warps.{create_warp_scheduler}
use proto_gpu.Simt.Launch.Checks.{check_launch-accepted}
use proto_gpu.Simt.Launch.Laws.{init_warp-active}
use proto_gpu.Sched.Ctas.{CtaWorkItem, create, fifo}
use proto_gpu.Instruction.{InstDesc, lookup}
use proto_gpu.Instruction.Laws.{lookup-FirstMatch, FirstMatch}
use proto_gpu.Simt.Stack.Lanes.{on_stack}
use proto_gpu.Simt.Stack.Keeps.{Keeps}

abbrev plain : Option InstCtrlInfo
plain = some record { has_bra = false; has_ret = false; is_predicated = false; bra_target = none }

abbrev branch_to : ℕ → Option InstCtrlInfo
branch_to target =
    some record { has_bra = true; has_ret = false; is_predicated = true; bra_target = some target }

-- if (p) { 1 } ; 2
abbrev one_armed : List (Option InstCtrlInfo)
one_armed = branch_to 2 ∷ plain ∷ plain ∷ []

one_armed-analyze : analyze one_armed ≡ reconv (some 2 ∷ none ∷ none ∷ [])
unfolding analyze build_cfg post_dominators equals insert all singleton reconv_pcs test
one_armed-analyze = refl

one_armed-cfg : build_cfg 3 0 one_armed ≡ some ((2 ∷ 1 ∷ []) ∷ (2 ∷ []) ∷ (3 ∷ []) ∷ [] ∷ [])
unfolding build_cfg
one_armed-cfg = refl

analyze-Visits_example : Visits 2 (1 ∷ 2 ∷ 3 ∷ [])
analyze-Visits_example =
    analyze-Visits one_armed (some 2 ∷ none ∷ none ∷ [])
      ((2 ∷ 1 ∷ []) ∷ (2 ∷ []) ∷ (3 ∷ []) ∷ [] ∷ []) 0 2 (1 ∷ 2 ∷ 3 ∷ []) one_armed-analyze
      one_armed-cfg refl
      (goes 1 (omega arith) refl (goes 0 (omega arith) refl (goes 0 (omega arith) refl arrived)))

abbrev mask4 : ℕ → LaneMask
mask4 bits = record { width = 4; bits_lo = bits }

abbrev arriving : List SimtFrame
arriving =
    record { pc = 7; active = mask4 3; reconv_pc = 7; is_join = false }
    ∷ record { pc = 5; active = mask4 12; reconv_pc = 7; is_join = false }
    ∷ record { pc = 7; active = mask4 0; reconv_pc = 9; is_join = true }
    ∷ []

abbrev dim : ℕ → Dim3
dim n = record { x = n; y = 1; z = 1 }

abbrev pub launch4 : LaunchConfig
launch4 = record { grid_dim = dim 2; block_dim = dim 6; warp_size = 4 }

abbrev bottom_frame : SimtFrame
bottom_frame = record { pc = 0; active = mask4 15; reconv_pc = 3; is_join = false }

-- lanes 0 and 2 have a predicate that is set
abbrev warp4 : WarpState
warp4 = record {
  launch = launch4;
  ctaid = dim 0;
  warpid = 0;
  lane_base_thread_linear = 0;
  pc = 0;
  done = false;
  active = mask4 15;
  exited = mask4 0;
  simt_stack = bottom_frame ∷ [];
  r_u32 = [];
  r_u64 = [];
  p = 1 ∷ 0 ∷ 1 ∷ 0 ∷ [];
}

abbrev bra_uop : MicroOp
bra_uop = record {
  kind = MicroOpKind.control;
  op = MicroOpOp.bra;
  inputs = [];
  outputs = [];
  attrs = record { type = ValueType.u32; space = AddrSpace.global; flags = [] };
  guard = mask4 5;
}

abbrev split4 : PendingSplit
split4 = record { target_pc = 2; reconv_pc = 2; taken = mask4 5; fallthrough = mask4 10 }

splits4 : diverge (some 2 ∷ none ∷ none ∷ []) warp4 bra_uop 2 ≡ splits split4
unfolding diverge lane_mask_and lane_mask_empty lane_mask_not_width
splits4 = refl

diverge-commit_example :
    (on_stack 1 (commit 4 (some split4) (some 2) warp4).simt_stack ≡ on_stack 1 warp4.simt_stack)
    × ((lane_mask_test split4.taken 1 && lane_mask_test split4.fallthrough 1) ≡ false)
diverge-commit_example =
    diverge-commit (some 2 ∷ none ∷ none ∷ []) warp4 bra_uop 2 4 1 (some 2) split4 bottom_frame []
      splits4 refl refl refl refl (omega arith)

abbrev guard0 : PredGuard
guard0 = record { pred_id = 0; is_negated = false }

guard0-mask : pred_mask 4 warp4 guard0 ≡ some (mask4 5)
unfolding pred_mask lane_mask_test
guard0-mask = refl

pred_mask-test_example :
    lane_mask_test (mask4 5) 2 ≡ (lane_mask_test warp4.active 2 && enabled warp4 0 false 2)
pred_mask-test_example = pred_mask-test 4 warp4 guard0 (mask4 5) 2 guard0-mask refl

abbrev pub six_threads : Launch
six_threads = record {
  warp_size = 4;
  threads_per_block = 6;
  warp_count = 2;
  ctas = (fifo, create fifo 1);
}

abbrev pub first_block : CtaWorkItem
first_block = record { cx = 0; cy = 0; cz = 0; cta_linear = 0; cta_id = 0 }

init_warp-active_example :
    lane_mask_test (init_warp six_threads launch4 first_block 3 0 0 1).active 1 ≡ true
init_warp-active_example =
    init_warp-active six_threads launch4 first_block 3 0 0 5 (omega arith) (omega arith)
      (omega arith)

abbrev pub ret_inst : InstRecord
ret_inst = record {
  opcode = "ret";
  mods = record { type_mod = ""; space = ""; flags = [] };
  pred = none;
  operands = [];
}

abbrev desc_of : String → InstDesc
desc_of opcode = record { opcode = opcode; type_mod = ""; operand_kinds = []; uops = [] }

lookup-FirstMatch_example :
    FirstMatch ret_inst
      (desc_of "bra" ∷ desc_of "ret" ∷ [])
      (lookup record { descs = desc_of "bra" ∷ desc_of "ret" ∷ [] } ret_inst)
lookup-FirstMatch_example =
    lookup-FirstMatch record { descs = desc_of "bra" ∷ desc_of "ret" ∷ [] } ret_inst

ret_lanes-Leaves_example : Leaves warp4 bra_uop 2 (ret_lanes bra_uop warp4)
ret_lanes-Leaves_example =
    ret_lanes-Leaves bra_uop warp4 bottom_frame [] 2 refl refl refl refl (omega arith)

abbrev machine4 : MemState
machine4 = record { warp = warp4; mem = empty; local_bytes = λ a. none }

abbrev pub defaults : SimConfig
defaults = record {
  warp_size = 32;
  sm_count = 1;
  is_parallel = false;
  is_deterministic = false;
  allow_unknown_selectors = false;
  cta_scheduler = "fifo";
  warp_scheduler = "in_order_run_to_completion";
  memory_model = "no_cache_addrspace";
}

six_threads-accepted : check_launch defaults launch4 ≡ accepted six_threads
unfolding check_launch create_cta_scheduler create_warp_scheduler
six_threads-accepted = refl

check_launch-accepted_example : (1 ≤ 4) × (4 ≤ 32) × (6 ≡ 6 * 1 * 1)
check_launch-accepted_example =
    check_launch-accepted defaults launch4 six_threads six_threads-accepted
