-- ===== src/Sched/Warps.antt =====
-- The warp schedulers (src/simt/warp_scheduler.cpp). Each keeps one counter; a pick is given the
-- number of warps and which of them are done, and returns the new counter with the warp picked. Both
-- are of uint32_t.
pub mod Laws
use proto_gpu.Prelude.{
  ℕ, zero, suc, ◌+◌, ◌-◌, ◌%◌, Bool, true, false, not, ◌&&◌, String, str_eq, Option, none, some,
  ltb, ◌==◌, if◌then◌else◌,
}
use proto_gpu.Contracts.Words.{to_u32}

pub data WarpPolicy : Type 0 where
  in_order_run_to_completion round_robin_interleave_step : WarpPolicy

unfoldable pub create_warp_scheduler : String → Option WarpPolicy
create_warp_scheduler name =
    if str_eq name "in_order_run_to_completion"
    then some in_order_run_to_completion
    else if str_eq name "round_robin_interleave_step"
    then some round_robin_interleave_step
    else none

-- `for (i = current; i < warp_count; i++)`: the first warp that is not done
unfoldable pub first_live : (ℕ → Bool) → ℕ → ℕ → Option ℕ
first_live is_done zero i = none
first_live is_done (suc left) i =
    let rest = first_live is_done left (suc i) in if is_done i then rest else some i

unfoldable pub pick_in_order : ℕ → ℕ → (ℕ → Bool) → ℕ × Option ℕ
unfolding first_live
pick_in_order current warp_count is_done =
    if warp_count == 0
    then (current, none)
    else if ltb current warp_count && not (is_done current)
    then (current, some current)
    else elim (first_live is_done (warp_count - current) current) [
      | none ↦ (current, none)
      | some i ↦ (i, some i)
    ]

-- `for (k = 0; k < warp_count; k++)`: the first live warp from `next` on, going round
unfoldable pub first_live_round : (ℕ → Bool) → ℕ → ℕ → ℕ → ℕ → Option ℕ
first_live_round is_done warp_count next zero k = none
first_live_round is_done warp_count next (suc left) k =
    let rest = first_live_round is_done warp_count next left (suc k) in
    let idx = to_u32 (next + k) % warp_count in if is_done idx then rest else some idx

unfoldable pub pick_round_robin : ℕ → ℕ → (ℕ → Bool) → ℕ × Option ℕ
unfolding first_live_round
pick_round_robin next warp_count is_done =
    if warp_count == 0
    then (next, none)
    else elim (first_live_round is_done warp_count next warp_count 0) [
      | none ↦ (next, none)
      | some idx ↦ (to_u32 (idx + 1) % warp_count, some idx)
    ]

-- IWarpScheduler: `on_cta_start` and `pick_next` of either policy
unfoldable pub on_cta_start : WarpPolicy → ℕ
on_cta_start policy = 0

unfoldable pub pick_next : WarpPolicy → ℕ → ℕ → (ℕ → Bool) → ℕ × Option ℕ
pick_next in_order_run_to_completion = pick_in_order
pick_next round_robin_interleave_step = pick_round_robin
