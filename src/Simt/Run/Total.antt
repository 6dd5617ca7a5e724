-- ===== src/Simt/Run/Total.antt =====
-- Every run on one thread returns a result.
use mathlib.Core.Option
use proto_gpu.Prelude.{ℕ, ◌≡◌, false, Option, some}
use proto_gpu.Contracts.{Code, LaunchConfig}
use proto_gpu.Memory.{AddrSpaceManager}
use proto_gpu.Instruction.{DescriptorRegistry}
use proto_gpu.Units.Exec.Floats.{FloatOps}
use proto_gpu.Simt.Launch.{SimConfig, Launch, refused, accepted, check_launch}
use proto_gpu.Simt.Run.Blocks.{Finished}
use proto_gpu.Simt.Run.{RunState}
use proto_gpu.Simt.Run.Kernels.{SimResult, result_of, KernelCode, env_of}

module _ (fl : FloatOps) (registry : DescriptorRegistry) (cfg : SimConfig) (max_steps : ℕ)
    (kernel : KernelCode) (config : LaunchConfig) (mem : AddrSpaceManager)
    (local_bytes : ℕ → Option ℕ) where
  -- The result of a run: the refusal of the launch, or that of the loop over its blocks.
  pub data RunsTo (r : SimResult) : Type 0 where
    rejected :
        (c : Code)
        → check_launch cfg config ≡ refused c
        → r ≡ record { completed = false; diagnostic = some c; step_count = 0 }
        → RunsTo r
    executed :
        (l : Launch) (s : RunState)
        → check_launch cfg config ≡ accepted l
        → Finished (env_of fl registry cfg max_steps kernel config l) l.ctas.0 s
        → r ≡ result_of s
        → RunsTo r
