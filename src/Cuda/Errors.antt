-- ===== src/Cuda/Errors.antt =====
-- Error codes and the last error (cuda/src/cudart_shim/cuda_abi_min.h, error_state.h,
-- error_state.cpp). The state is one thread's; a message is the text the program keeps.
use proto_gpu.Prelude.{String}

pub data CudaError : Type 0 where
  success invalid_value memory_allocation initialization_error invalid_device_function : CudaError
  invalid_device_pointer invalid_memcpy_direction invalid_ptx not_supported unknown : CudaError

pub record ErrorState : Type 0 where
  pub last_error : CudaError
  pub last_message : String

abbrev pub no_error : ErrorState
no_error = record { last_error = success; last_message = "" }

unfoldable pub set_error : ErrorState → CudaError → String → ErrorState
set_error s err msg = record { last_error = err; last_message = msg }

-- The error, and the state that is left.
unfoldable pub get_and_clear : ErrorState → ErrorState × CudaError
get_and_clear s = (record { last_error = success; last_message = "" }, s.last_error)
