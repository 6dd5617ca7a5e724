-- ===== src/Sched.antt =====
-- The schedulers: src/simt/warp_scheduler.cpp and src/runtime/cta_scheduler.cpp.
pub mod Warps
pub mod Ctas
