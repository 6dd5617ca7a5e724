-- ===== src/Simt/Run.antt =====
-- The loop of SimtExecutor::run (src/simt/simt.cpp) over the turns of a thread block's warps, in the
-- single-threaded mode; Simt/Run/Kernels has the loop over the blocks. Logs, events and counters are
-- left out. The memory of the memory unit outlives a block, as the unit does.
pub mod Blocks
pub mod Kernels
pub mod Picks
pub mod Turns
pub mod Ends
pub mod Total
use mathlib.Core.Option
use proto_gpu.Prelude.{
  ℕ, zero, suc, ◌+◌, Bool, true, false, String, Option, none, some, List, [], ◌∷◌, leb, ltb,
  if◌then◌else◌, length, get_elem?, get_or, set,
}
use proto_gpu.Contracts.{Code, InstRecord, LaunchConfig}
use proto_gpu.Contracts.Words.{to_u32, to_u64}
use proto_gpu.Warp.{WarpState}
use proto_gpu.Memory.{AddrSpaceManager}
use proto_gpu.Instruction.{DescriptorRegistry}
use proto_gpu.Units.Exec.Floats.{FloatOps}
use proto_gpu.Units.Mem.{MemState}
use proto_gpu.Sched.Warps.{
  WarpPolicy, in_order_run_to_completion, create_warp_scheduler, on_cta_start, pick_next,
}
use proto_gpu.Sched.Ctas.{
  CtaPolicy, CtaScheduler, CtaWorkItem, Acquired, waits, nothing, item, queue_of, acquire,
  request_stop, stop_requested, submit_grid,
}
use proto_gpu.Simt.Cfa.{Analysis, diag, reconv, analyze_control_flow}
use proto_gpu.Simt.Step.{Outcome, warp_ends, steps, stops_with, warp_step}
use proto_gpu.Simt.Launch.{SimConfig, Launch, Checked, refused, accepted, check_launch, init_warp}

-- What a run reads: the kernel, the launch and the configuration.
pub record RunEnv : Type 0 where
  pub fl : FloatOps
  pub registry : DescriptorRegistry
  pub insts : List InstRecord
  pub reg_u32_count : ℕ
  pub reg_u64_count : ℕ
  pub launch_config : LaunchConfig
  pub launch : Launch
  pub warp_scheduler : String
  pub max_steps : ℕ

-- What it changes. `counter` is the state of the block's warp scheduler.
pub record RunState : Type 0 where
  pub warps : List WarpState
  pub counter : ℕ
  pub mem : AddrSpaceManager
  pub local_bytes : ℕ → Option ℕ
  pub step_count : ℕ
  pub ctas : CtaScheduler
  pub diagnostic : Option Code

-- `w >= warp_count ? true : warps[w].done`
abbrev pub is_done : List WarpState → ℕ → Bool
is_done warps w = elim (get_elem? warps w) [ none ↦ true | some warp ↦ warp.done ]

abbrev pub machine_of : RunState → WarpState → MemState
machine_of s warp = record { warp = warp; mem = s.mem; local_bytes = s.local_bytes }

-- The state with what a turn of warp `w` left.
abbrev pub put_machine : RunState → ℕ → MemState → RunState
put_machine s w m = record s {
  warps = set s.warps w m.warp;
  mem = m.mem;
  local_bytes = m.local_bytes;
}

abbrev pub with_stop : RunState → RunState
with_stop s = record s { ctas = request_stop s.ctas }

-- A round of the loop over turns goes on or returns.
pub data Round : Type 0 where
  goes_on : RunState → Round
  returns : RunState → Round

unfoldable pub after_turn : RunState → ℕ → Outcome → Round
after_turn s w (warp_ends m) = goes_on (put_machine s w m)
after_turn s w (steps m) =
    goes_on (record (put_machine s w m) { step_count = to_u64 (s.step_count + 1) })
after_turn s w (stops_with c m) =
    returns (with_stop (record (put_machine s w m) { diagnostic = some c }))

after_step : RunState → ℕ → Option Outcome → Option Round
after_step s w none = none
after_step s w (some o) = some (after_turn s w o)

-- The next turns, after a round.
abbrev pub after_round : (RunState → Option RunState) → Option Round → Option RunState
after_round next none = none
after_round next (some (returns s)) = some s
after_round next (some (goes_on s)) = next s

module _ (env : RunEnv) (points : List (Option ℕ)) where
  -- `none` is a warp that does not exist, or a stack on which the fuel of its loop runs out.
  unfoldable pub turn_of : RunState → ℕ → Option WarpState → Option Round
  unfolding after_step
  turn_of s w none = none
  turn_of s w (some warp) =
      if warp.done
      then some (goes_on s)
      else after_step s w
          (warp_step env.fl env.registry env.launch.warp_size points env.insts (machine_of s warp))

  unfoldable pub picked : RunState → Option ℕ → Option Round
  picked s none = some (returns s)
  picked s (some w) = turn_of s w (get_elem? s.warps w)

  unfoldable pub round : WarpPolicy → RunState → Option Round
  round policy s =
      if leb env.max_steps s.step_count
      then some (returns (with_stop s))
      else if stop_requested s.ctas
      then some (returns s)
      else (let (counter, pick) =
            pick_next policy s.counter (to_u32 (length s.warps)) (is_done s.warps) in
          picked (record s { counter = counter }) pick)

  -- The loop on fuel; `none` is out of fuel.
  unfoldable pub turns : WarpPolicy → ℕ → RunState → Option RunState
  turns policy zero s = none
  turns policy (suc fuel) s = after_round (turns policy fuel) (round policy s)

abbrev pub policy_of : String → WarpPolicy
policy_of name = elim (create_warp_scheduler name) [
  | none ↦ in_order_run_to_completion
  | some policy ↦ policy
]

abbrev pub init_warp_of : RunEnv → CtaWorkItem → ℕ → WarpState
init_warp_of env i w =
    init_warp env.launch env.launch_config i (length env.insts) env.reg_u32_count env.reg_u64_count
      w

-- `for (uint32_t w = 0; w < warp_count; w++)` on fuel; `none` is out of fuel. A number of warps of
-- 2 ^ 32 or more is never reached.
unfoldable pub init_warps : RunEnv → CtaWorkItem → ℕ → ℕ → Option (List WarpState)
init_warps env i zero w = none
init_warps env i (suc fuel) w =
    let rest = init_warps env i fuel (to_u32 (w + 1)) in
    if ltb w env.launch.warp_count
    then Option.map (λ warps. init_warp_of env i w ∷ warps) rest
    else some []

unfoldable pub started : RunEnv → RunState → CtaWorkItem → Option RunState
unfolding init_warps
started env s i =
    Option.map (λ warps. record s { warps = warps })
      (init_warps env i (suc env.launch.warp_count) 0)

unfoldable pub analyzed : RunEnv → RunState → Analysis → Option RunState
analyzed env s (diag c) = some (with_stop (record s { diagnostic = some c }))
analyzed env s (reconv points) =
    let policy = policy_of env.warp_scheduler in
    turns env points policy (suc (length s.warps + env.max_steps))
      (record s { counter = on_cta_start policy })

abbrev pub run_started : RunEnv → Option RunState → Option RunState
run_started env none = none
run_started env (some s) =
    analyzed env s (analyze_control_flow env.registry env.launch.warp_size env.insts)

-- One block, with the fuel that its loops may need.
unfoldable pub run_one_cta : RunEnv → RunState → CtaWorkItem → Option RunState
unfolding started
run_one_cta env s i = run_started env (started env s i)
