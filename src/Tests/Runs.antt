-- ===== src/Tests/Runs.antt =====
-- Whole runs at concrete inputs.
use proto_gpu.Prelude.{inl, ◌≡◌, refl, none, some, [], ◌∷◌, arith}
use proto_gpu.Contracts.{MicroOpKind, MicroOpOp}
use proto_gpu.Instruction.{InstDesc, DescriptorRegistry}
use proto_gpu.Memory.{empty}
use proto_gpu.Sched.Ctas.{create, fifo, submit, close, submit_grid, stop_requested}
use proto_gpu.Sched.Warps.{in_order_run_to_completion}
use proto_gpu.Simt.Launch.{init_warp}
use proto_gpu.Simt.Run.{RunEnv, RunState, started, init_warps, init_warp_of, turns}
use proto_gpu.Simt.Run.Kernels.{KernelCode, Ran, env_of, submit_blocks, blocks, run}
use proto_gpu.Simt.Run.Turns.{Ended}
use proto_gpu.Simt.Run.Ends.{turns-Ends}
use proto_gpu.Simt.Run.Blocks.{Finished, blocks-Finished}
use proto_gpu.Tests.Control.{defaults, ret_inst, launch4, first_block, six_threads}
use proto_gpu.Tests.Registers.{no_floats}

abbrev ret_desc : InstDesc
ret_desc = record {
  opcode = "ret";
  type_mod = "";
  operand_kinds = [];
  uops =
      record {
        kind = MicroOpKind.control;
        op = MicroOpOp.ret;
        in_operand_idx = [];
        out_operand_idx = [];
      }
      ∷ [];
}

abbrev ret_only : DescriptorRegistry
ret_only = record { descs = ret_desc ∷ [] }

abbrev one_ret : KernelCode
one_ret = record { insts = ret_inst ∷ []; reg_u32_count = 0; reg_u64_count = 0 }

run_of_ret : Ran
unfolding run
run_of_ret = run no_floats ret_only defaults 100 one_ret launch4 empty (λ a. none)

abbrev env1 : RunEnv
env1 = env_of no_floats ret_only defaults 100 one_ret launch4 six_threads

abbrev at_start : RunState
at_start = submit_blocks fifo (create fifo 1) launch4 empty (λ a. none)

abbrev first_started : RunState
first_started = record at_start {
  warps = init_warp_of env1 first_block 0 ∷ init_warp_of env1 first_block 1 ∷ [];
}

started-first : started env1 at_start first_block ≡ some first_started
unfolding started init_warps
started-first = refl

turns-Ends_example :
    (s' : RunState) × (turns env1 (none ∷ []) in_order_run_to_completion 103 first_started
      ≡ some s')
    × Ended env1 first_started.ctas s'
unfolding submit_grid stop_requested create close submit init_warp
turns-Ends_example =
    turns-Ends env1 (none ∷ []) in_order_run_to_completion (omega arith) 103 first_started
      (omega arith) refl (omega arith) (λ j lt. absurd (omega arith))

blocks-Finished_example :
    (s' : RunState) × (blocks env1 fifo 3 at_start ≡ some s') × Finished env1 fifo s'
unfolding submit_grid create stop_requested close submit
blocks-Finished_example =
    blocks-Finished env1 fifo (omega arith) (omega arith) 3 at_start (refl, refl, inl refl)
      (omega arith)
