-- ===== src/Cuda.antt =====
-- The CUDA runtime shim (cuda/src/cudart_shim): the state behind its C entry points.
pub mod Api
pub mod Errors
pub mod Devices
pub mod Kernels
pub mod Args
pub mod Entries
