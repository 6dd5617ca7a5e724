-- ===== src/Units/Exec/Floats.antt =====
-- The float arithmetic of the machine, on bit patterns of 32 bits: what the compiled C++ does for
-- `a + b`, `a * b`, `std::fma` and `static_cast<float>(uint32_t)`.
use proto_gpu.Prelude.{ℕ}

pub record FloatOps : Type 0 where
  pub f32_add : ℕ → ℕ → ℕ
  pub f32_mul : ℕ → ℕ → ℕ
  pub f32_fma : ℕ → ℕ → ℕ → ℕ
  pub f32_of_u32 : ℕ → ℕ
