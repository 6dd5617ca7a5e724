-- ===== src/Simt/Run/Kernels.antt =====
-- The loop of SimtExecutor::run over the blocks of SM 0 (src/simt/simt.cpp), its result, and a whole
-- run from the checks of the launch on.
use mathlib.Core.Option
use proto_gpu.Prelude.{
  if◌then◌else◌, ℕ, zero, suc, Bool, true, false, Option, none, some, List, [], length, get_or,
}
use proto_gpu.Contracts.{Code, InstRecord, LaunchConfig}
use proto_gpu.Memory.{AddrSpaceManager}
use proto_gpu.Instruction.{DescriptorRegistry}
use proto_gpu.Units.Exec.Floats.{FloatOps}
use proto_gpu.Sched.Ctas.{
  CtaPolicy, CtaScheduler, Acquired, waits, nothing, item, queue_of, acquire, submit_grid,
}
use proto_gpu.Simt.Launch.{SimConfig, Launch, refused, accepted, parallel_enabled, check_launch}
use proto_gpu.Simt.Run.{RunEnv, RunState, run_one_cta}

-- The block loop's next turn: it returns at a diagnostic.
abbrev pub after_block : (RunState → Option RunState) → Option RunState → Option RunState
after_block next none = none
after_block next (some s) = elim s.diagnostic [ none ↦ next s | some c ↦ some s ]

abbrev pub acquired : RunEnv → (RunState → Option RunState) → RunState → Acquired → Option RunState
acquired env next s waits = none
acquired env next s nothing = some s
acquired env next s (item i) = after_block next (run_one_cta env s i)

-- The loop over the blocks on fuel, which takes them from the queue of SM 0. `none` is out of fuel, or a thread that waits forever.
unfoldable pub blocks : RunEnv → CtaPolicy → ℕ → RunState → Option RunState
blocks env policy zero s = none
blocks env policy (suc fuel) s =
    let (ctas, got) = acquire policy s.ctas 0 in
    acquired env (blocks env policy fuel) (record s { ctas = ctas }) got

pub record SimResult : Type 0 where
  pub completed : Bool
  pub diagnostic : Option Code
  pub step_count : ℕ

unfoldable pub result_of : RunState → SimResult
result_of s = record {
  completed = elim s.diagnostic [ none ↦ true | some c ↦ false ];
  diagnostic = s.diagnostic;
  step_count = s.step_count;
}

-- What a kernel image gives the executor.
pub record KernelCode : Type 0 where
  pub insts : List InstRecord
  pub reg_u32_count : ℕ
  pub reg_u64_count : ℕ

abbrev pub env_of :
    FloatOps → DescriptorRegistry → SimConfig → ℕ → KernelCode → LaunchConfig → Launch → RunEnv
env_of fl registry cfg max_steps kernel launch_config launch = record {
  fl = fl;
  registry = registry;
  insts = kernel.insts;
  reg_u32_count = kernel.reg_u32_count;
  reg_u64_count = kernel.reg_u64_count;
  launch_config = launch_config;
  launch = launch;
  warp_scheduler = cfg.warp_scheduler;
  max_steps = max_steps;
}

-- The executor's memory, and every block in the queues.
abbrev pub submit_blocks :
    CtaPolicy → CtaScheduler → LaunchConfig → AddrSpaceManager → (ℕ → Option ℕ) → RunState
submit_blocks policy ctas launch_config mem local_bytes = record {
  warps = [];
  counter = 0;
  mem = mem;
  local_bytes = local_bytes;
  step_count = 0;
  ctas = submit_grid policy ctas launch_config.grid_dim;
  diagnostic = none;
}

-- The blocks that wait for SM 0.
abbrev pub waiting : CtaPolicy → CtaScheduler → ℕ
waiting policy ctas = length (get_or ctas.queues (queue_of policy ctas 0) [])

-- The fuel is the number of blocks in the queue and one.
unfoldable pub launched : RunEnv → CtaPolicy → RunState → Option SimResult
launched env policy s = Option.map result_of (blocks env policy (suc (waiting policy s.ctas)) s)

-- What a run comes to: the single-threaded path, where `none` is a run that does not end; or the
-- worker threads of the parallel path, which are not modelled.
pub data Ran : Type 0 where
  on_one_thread : Option SimResult → Ran
  on_workers : Launch → Ran

unfoldable pub run :
    FloatOps
    → DescriptorRegistry
    → SimConfig
    → ℕ
    → KernelCode
    → LaunchConfig
    → AddrSpaceManager
    → (ℕ → Option ℕ)
    → Ran
unfolding launched
run fl registry cfg max_steps kernel launch_config mem local_bytes =
    elim (check_launch cfg launch_config) [
      | refused c ↦
          on_one_thread (some record { completed = false; diagnostic = some c; step_count = 0 })
      | accepted launch ↦
          let (policy, ctas) = launch.ctas in
          if parallel_enabled cfg
          then on_workers launch
          else on_one_thread (
              launched (env_of fl registry cfg max_steps kernel launch_config launch) policy
                (submit_blocks policy ctas launch_config mem local_bytes))
    ]
