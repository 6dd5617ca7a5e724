-- ===== src/Cuda/Api.antt =====
-- The exported calls on device memory and the last error (cuda/src/cudart_shim/exports.cpp), and the
-- initialization that each makes sure of (runtime_context.cpp). What the providers of the assets and
-- their readers give to an initialization is an argument of each call. A call holds the lock of the
-- context; the state is that of one thread.
pub mod Laws
pub mod Tables
use Prim.Native.String.{◌++◌ as append}
use proto_gpu.Prelude.{
  ℕ, Bool, true, false, String, str_eq, Option, none, some, List, [], ◌∷◌, if◌then◌else◌,
}
use proto_gpu.Runtime.{Runtime}
use proto_gpu.Cuda.Errors.{
  CudaError, ErrorState, set_error, get_and_clear, success, initialization_error, unknown,
}
use proto_gpu.Cuda.Devices.{DeviceMemory, World, MemcpyKind, Thrown, try_malloc, free, memcpy}

-- What an attempt gives: the error of the provider, the text of an exception that the attempt catches
-- or that escapes it, as from the provider, or a runtime.
pub data Attempt : Type 0 where
  assets_missing : String → Attempt
  throws escapes : String → Attempt
  loads : Runtime → Attempt

-- The context and what the calls change. `world.rt` counts once `is_initialized` is set.
pub record Shim : Type 0 where
  pub is_initialized : Bool
  pub fatal_error : String
  pub devices : DeviceMemory
  pub world : World

abbrev pub attempted : Shim → Attempt → Shim × Option (CudaError × String)
attempted s (assets_missing message) =
    (record s { fatal_error = message }, some (initialization_error, message))
attempted s (escapes what) = (s, some (unknown, what))
attempted s (throws what) =
    let message = append "RuntimeContext init failed: " what in
    (record s { fatal_error = message }, some (initialization_error, message))
attempted s (loads rt) =
    (record s { is_initialized = true; world = record s.world { rt = rt } }, none)

-- The code and the text that the call fails with where the context is not initialized.
unfoldable pub ensure_initialized : Shim → Attempt → Shim × Option (CudaError × String)
ensure_initialized s a =
    if str_eq s.fatal_error ""
    then if s.is_initialized then (s, none) else attempted s a
    else (s, some (initialization_error, s.fatal_error))

abbrev pub set_last : Shim → CudaError → String → Shim
set_last s code message = record s {
  world = record s.world { errors = set_error s.world.errors code message };
}

-- `fail` sets the last error and passes the code on.
unfoldable pub fail : Shim → CudaError → String → Shim × CudaError
fail s code message = (set_last s code message, code)

-- `if (rc == cudaSuccess) ErrorState::tls().set(cudaSuccess)`
unfoldable pub clears : Shim → CudaError → Shim × CudaError
clears s success = (set_last s success "", success)
clears s code = (s, code)

-- The answer of a call, whose work runs once the initialization has gone well. What escapes the
-- initialization is caught here; the work catches its own exceptions.
unfoldable pub guarded :
    (Shim → Shim × CudaError) → Shim × Option (CudaError × String) → Shim × CudaError
unfolding fail clears
guarded work (s, some (code, message)) = fail s code message
guarded work (s, none) = let (s', code) = work s in clears s' code

abbrev pub malloc_work : Option Thrown → Bool → ℕ → Shim → Shim × CudaError
malloc_work thrown has_out size s =
    let (d, w, code) = try_malloc s.devices s.world thrown has_out size in
    (record s { devices = d; world = w }, code)

abbrev pub free_work : ℕ → Shim → Shim × CudaError
free_work p s = let (d, code) = free s.devices p in (record s { devices = d }, code)

abbrev pub memcpy_work : MemcpyKind → ℕ → ℕ → ℕ → Shim → Shim × CudaError
memcpy_work kind dst src count s =
    let (w, code) = memcpy kind s.devices s.world dst src count in (record s { world = w }, code)

-- An allocation comes with the exception that it meets, if any.
pub data ApiCall : Type 0 where
  cuda_malloc : Option Thrown → Bool → ℕ → ApiCall
  cuda_free : ℕ → ApiCall
  cuda_memcpy : MemcpyKind → ℕ → ℕ → ℕ → ApiCall
  cuda_get_last_error : ApiCall

unfoldable pub api_call : Shim → Attempt → ApiCall → Shim × CudaError
unfolding ensure_initialized guarded
api_call s a (cuda_malloc thrown has_out size) =
    guarded (malloc_work thrown has_out size) (ensure_initialized s a)
api_call s a (cuda_free p) = guarded (free_work p) (ensure_initialized s a)
api_call s a (cuda_memcpy kind dst src count) =
    guarded (memcpy_work kind dst src count) (ensure_initialized s a)
api_call s a cuda_get_last_error =
    let (errors, code) = get_and_clear s.world.errors in
    (record s { world = record s.world { errors = errors } }, code)

-- A sequence of calls: the state after it, and the codes.
unfoldable pub api_calls : Shim → List (Attempt × ApiCall) → Shim × List CudaError
api_calls s [] = (s, [])
api_calls s ((a, c) ∷ calls) =
    let (s', code) = api_call s a c in
    let (last, codes) = api_calls s' calls in (last, code ∷ codes)
