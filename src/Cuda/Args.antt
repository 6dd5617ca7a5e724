-- ===== src/Cuda/Args.antt =====
-- pack_kernel_args_mvp (cuda/src/cudart_shim/kernel_args_pack.cpp): the host's arguments into the
-- parameter blob of a kernel. The log is left out. `kernel_params` is null or the pointers; an
-- error carries the index of the argument where its text has one.
pub mod Laws
use proto_gpu.Prelude.{
  ℕ, zero, suc, ◌+◌, max, Bool, true, false, not, ◌&&◌, Option, none, some, List, [], ◌∷◌, ltb,
  ◌==◌, if◌then◌else◌, length, get_or, set, replicate,
}
use proto_gpu.Prelude.Results.{Result, ok, err, ◌>>=◌}
use proto_gpu.Contracts.Words.{to_u64}
use proto_gpu.Memory.{ParamDesc, ParamType}
use proto_gpu.Runtime.{overwrite}
use proto_gpu.Units.Mem.{unpack_le}
use proto_gpu.Cuda.Errors.{CudaError, invalid_value, not_supported, invalid_device_pointer}
use proto_gpu.Cuda.Devices.{DeviceMemory, host_bytes, is_valid_device_range}

pub data PackError : Type 0 where
  params_null : PackError
  param_null : ℕ → PackError
  layout_out_of_bounds : PackError
  bad_u32_size bad_u64_size : ℕ → PackError
  bad_pointer : ℕ → ℕ → PackError

unfoldable pub pack_code : PackError → CudaError
pack_code params_null = invalid_value
pack_code (param_null i) = invalid_value
pack_code layout_out_of_bounds = invalid_value
pack_code (bad_u32_size size) = not_supported
pack_code (bad_u64_size size) = not_supported
pack_code (bad_pointer i v) = invalid_device_pointer

-- The end of the last parameter.
unfoldable pub blob_size : ℕ → List ParamDesc → ℕ
blob_size size [] = size
blob_size size (p ∷ rest) = blob_size (max size (to_u64 (p.offset + p.size))) rest

-- The switch over the type: the bytes that are copied.
unfoldable pub pack_value :
    DeviceMemory → (ℕ → ℕ) → ℕ → ParamType → ℕ → ℕ → Result PackError (List ℕ)
pack_value d host i ParamType.u32 size src =
    if size == 4 then ok (host_bytes host src 4) else err (bad_u32_size size)
pack_value d host i ParamType.u64 size src =
    if size == 8
    then (let v = unpack_le (host_bytes host src 8) in
        if not (v == 0) && not (is_valid_device_range d v 1)
        then err (bad_pointer i v)
        else ok (host_bytes host src 8))
    else err (bad_u64_size size)

pack_at : DeviceMemory → (ℕ → ℕ) → ℕ → ParamDesc → ℕ → List ℕ → Result PackError (List ℕ)
unfolding pack_value
pack_at d host i p src blob =
    if src == 0
    then err (param_null i)
    else if ltb (length blob) (to_u64 (p.offset + p.size))
    then err layout_out_of_bounds
    else do bytes ← pack_value d host i p.type p.size src; ok (overwrite blob p.offset bytes)

-- The parameters from the i-th on; `params` is the array of pointers.
unfoldable pub pack_params :
    DeviceMemory → (ℕ → ℕ) → (ℕ → ℕ) → ℕ → List ParamDesc → List ℕ → Result PackError (List ℕ)
unfolding pack_at
pack_params d host params i [] blob = ok blob
pack_params d host params i (p ∷ rest) blob = do
  blob' ← pack_at d host i p (params i) blob
  pack_params d host params (i + 1) rest blob'

unfoldable pub pack_kernel_args :
    DeviceMemory → (ℕ → ℕ) → Option (ℕ → ℕ) → List ParamDesc → Result PackError (List ℕ)
unfolding blob_size pack_params
pack_kernel_args d host none [] = ok []
pack_kernel_args d host none (p ∷ rest) = err params_null
pack_kernel_args d host (some params) layout =
    pack_params d host params 0 layout (replicate (blob_size 0 layout) 0)
