-- ===== src/Units/Mem/Windows.antt =====
-- The windows of local memory that threads have (src/units/mem_unit.cpp).
use proto_gpu.Prelude.{ℕ, ◌^◌, ◌<◌, ◌≢◌, arith}
use proto_gpu.Warp.{WarpState}
use proto_gpu.Units.Mem.{thread_linear_global, local_effective_addr, local_stride}

-- Two threads with different numbers, below `2 ^ 52`, never meet in local memory at addresses
-- below the stride of 4096.
pub local_effective_addr-ne :
    (warp other : WarpState) (lane lane' a b : ℕ)
    → thread_linear_global warp lane ≢ thread_linear_global other lane'
    → thread_linear_global warp lane < 2 ^ 52
    → thread_linear_global other lane' < 2 ^ 52
    → a < local_stride
    → b < local_stride
    → local_effective_addr warp lane a ≢ local_effective_addr other lane' b
unfolding local_effective_addr
local_effective_addr-ne warp other lane lane' a b ne lo hi la lb = λ e. ne (omega arith)
