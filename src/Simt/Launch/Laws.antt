-- ===== src/Simt/Launch/Laws.antt =====
-- Every thread of a block has its lane (src/simt/simt.cpp).
use native.Mathlib.Nat.{mod-add-div', mod-lt}
use proto_gpu.Prelude.{ℕ, ◌*◌, ◌/◌, ◌%◌, ◌^◌, ◌≤◌, ◌<◌, ◌≡◌, ◌∙◌, ltb, arith}
use proto_gpu.Contracts.{LaunchConfig, lane_mask_test}
use proto_gpu.Contracts.Masks.{lane_mask_test-prefix}
use proto_gpu.Contracts.Words.{to_u32}
use proto_gpu.Sched.Ctas.{CtaWorkItem}
use proto_gpu.Simt.Launch.{Launch, init_warp, lanes_on}

-- With a warp size from 1 to 32, thread t, below `2 ^ 32`, of a block runs in lane `t % warp_size` of warp `t / warp_size`: the lane starts active
-- exactly where the block has that thread.
pub init_warp-active :
    (l : Launch) (launch : LaunchConfig) (item : CtaWorkItem) (n_insts r32 r64 t : ℕ)
    → 1 ≤ l.warp_size
    → l.warp_size ≤ 32
    → t < 2 ^ 32
    → lane_mask_test
        (init_warp l launch item n_insts r32 r64 (t / l.warp_size)).active
        (t % l.warp_size)
      ≡ ltb t l.threads_per_block
unfolding init_warp
init_warp-active l launch item n_insts r32 r64 t lo hi bound =
    lane_mask_test-prefix ws (lanes_on l (to_u32 (t / ws * ws))) (t % ws)
    ∙ ground (arith, mod-add-div' t ws, mod-lt t lo)
  where
    ws : ℕ
    ws = l.warp_size
