-- ===== src/Simt/Launch.antt =====
-- What SimtExecutor::run checks before a launch, and the warps it starts for a thread block
-- (src/simt/simt.cpp).
pub mod Fresh
pub mod Laws
pub mod Checks
use proto_gpu.Prelude.{
  ℕ, ◌+◌, ◌-◌, ◌*◌, ◌/◌, ◌^◌, Bool, true, false, not, ◌&&◌, ◌||◌, String, str_eq, Option, none,
  some, List, [], ◌∷◌, ltb, leb, ◌==◌, if◌then◌else◌, replicate,
}
use proto_gpu.Contracts.{
  Dim3, LaneMask, LaunchConfig, Code, lane_mask_prefix, e_launch_dim, e_launch_overflow,
  e_warp_size, e_memory_model, e_cta_sched, e_warp_sched,
}
use proto_gpu.Contracts.Words.{to_u32, to_u64}
use proto_gpu.Warp.{SimtFrame, WarpState}
use proto_gpu.Sched.Warps.{WarpPolicy, create_warp_scheduler}
use proto_gpu.Sched.Ctas.{CtaPolicy, CtaScheduler, CtaWorkItem, create_cta_scheduler}

-- the fields of SimConfig (include/gpusim/simt.h) that a launch reads
pub record SimConfig : Type 0 where
  pub warp_size : ℕ
  pub sm_count : ℕ
  pub is_parallel : Bool
  pub is_deterministic : Bool
  pub allow_unknown_selectors : Bool
  pub cta_scheduler : String
  pub warp_scheduler : String
  pub memory_model : String

-- The product of two uint64_t; `none` is an overflow.
unfoldable pub mul_u64_overflow : ℕ → ℕ → Option ℕ
mul_u64_overflow a b =
    if a == 0 || b == 0
    then some 0
    else if ltb ((2 ^ 64 - 1) / b) a
    then none
    else some (to_u64 (a * b))

unfoldable pub threads_of : Dim3 → Option ℕ
unfolding mul_u64_overflow
threads_of block = elim (mul_u64_overflow block.x block.y) [
  | none ↦ none
  | some threads_xy ↦ mul_u64_overflow threads_xy block.z
]

-- What a launch that passes the checks goes on with.
pub record Launch : Type 0 where
  pub warp_size : ℕ
  pub threads_per_block : ℕ
  pub warp_count : ℕ
  pub ctas : CtaPolicy × CtaScheduler

abbrev pub parallel_enabled : SimConfig → Bool
parallel_enabled cfg = cfg.is_parallel && not cfg.is_deterministic && ltb 1 cfg.sm_count

abbrev pub used_sm_count : SimConfig → ℕ
used_sm_count cfg = if parallel_enabled cfg then cfg.sm_count else 1

pub data Checked : Type 0 where
  refused : Code → Checked
  accepted : Launch → Checked

is_zero_dim : Dim3 → Bool
is_zero_dim d = d.x == 0 || d.y == 0 || d.z == 0

-- The warp scheduler's selector is only checked: each thread block creates its own.
abbrev pub check_warp_scheduler : SimConfig → Launch → Checked
check_warp_scheduler cfg launch = elim (create_warp_scheduler cfg.warp_scheduler) [
  | some policy ↦ accepted launch
  | none ↦ if cfg.allow_unknown_selectors then accepted launch else refused e_warp_sched
]

-- An unknown name falls back on the FIFO queue where unknown names are allowed.
abbrev pub choose_ctas : SimConfig → Option (CtaPolicy × CtaScheduler)
choose_ctas cfg = elim (create_cta_scheduler cfg.cta_scheduler (used_sm_count cfg)) [
  | some ctas ↦ some ctas
  | none ↦
      if cfg.allow_unknown_selectors then create_cta_scheduler "fifo" (used_sm_count cfg) else none
]

unfoldable pub check_selectors : SimConfig → ℕ → ℕ → Checked
check_selectors cfg warp_size threads_per_block =
    if not (str_eq cfg.memory_model "no_cache_addrspace") && not cfg.allow_unknown_selectors
    then refused e_memory_model
    else elim (choose_ctas cfg) [
      | none ↦ refused e_cta_sched
      | some ctas ↦ check_warp_scheduler cfg record {
        warp_size = warp_size;
        threads_per_block = threads_per_block;
        warp_count = to_u64 (threads_per_block + (warp_size - 1)) / warp_size;
        ctas = ctas;
      }
    ]

-- The checks, in the order of the source.
unfoldable pub check_launch : SimConfig → LaunchConfig → Checked
unfolding threads_of check_selectors is_zero_dim
check_launch cfg launch =
    let warp_size = if launch.warp_size == 0 then cfg.warp_size else launch.warp_size in
    if is_zero_dim launch.grid_dim || is_zero_dim launch.block_dim
    then refused e_launch_dim
    else elim (threads_of launch.block_dim) [
      | none ↦ refused e_launch_overflow
      | some threads_per_block ↦
          if warp_size == 0 || ltb 32 warp_size
          then refused e_warp_size
          else check_selectors cfg warp_size threads_per_block
    ]

-- The lanes of warp w that have a thread: the rest of the block, and a warp at most.
abbrev pub lanes_on : Launch → ℕ → ℕ
lanes_on l base =
    let remaining = if ltb base l.threads_per_block then l.threads_per_block - base else 0 in
    if leb l.warp_size remaining then l.warp_size else remaining

abbrev pub first_frame : LaneMask → ℕ → SimtFrame
first_frame active n_insts = record {
  pc = 0;
  active = active;
  reconv_pc = n_insts;
  is_join = false;
}

-- Warp w of a thread block, before its first instruction; the register counts are the kernel's.
unfoldable pub init_warp : Launch → LaunchConfig → CtaWorkItem → ℕ → ℕ → ℕ → ℕ → WarpState
init_warp l launch item n_insts reg_u32_count reg_u64_count w =
    let base = to_u32 (w * l.warp_size) in
    let active = lane_mask_prefix l.warp_size (lanes_on l base) in
    record {
      launch = record launch { warp_size = l.warp_size };
      ctaid = record { x = item.cx; y = item.cy; z = item.cz };
      warpid = w;
      lane_base_thread_linear = base;
      pc = 0;
      done = false;
      active = active;
      exited = record { width = l.warp_size; bits_lo = 0 };
      simt_stack = first_frame active n_insts ∷ [];
      r_u32 = replicate (reg_u32_count * l.warp_size) 0;
      r_u64 = replicate (reg_u64_count * l.warp_size) 0;
      p = replicate (8 * l.warp_size) 1;
    }
