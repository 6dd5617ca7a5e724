-- ===== src/Tests/Api.antt =====
-- The exported calls of the CUDA shim at concrete inputs.
use proto_gpu.Prelude.{arith, ◌%◌, ◌≡◌, refl, none, true, false, List, [], ◌∷◌}
use proto_gpu.Memory.{empty}
use proto_gpu.Runtime.{create}
use proto_gpu.Cuda.Errors.{
  no_error, invalid_device_pointer, initialization_error, success, get_and_clear,
}
use proto_gpu.Cuda.Devices.{MemcpyKind, free, has_key}
use proto_gpu.Cuda.Api.{
  Attempt, assets_missing, throws, loads, Shim, ApiCall, cuda_malloc, cuda_free, cuda_memcpy,
  cuda_get_last_error, api_call, api_calls, ensure_initialized, guarded, clears, fail,
}
use proto_gpu.Cuda.Api.Tables.{IsReady, AllFit, api_calls-IsReady}
use proto_gpu.Tests.Shim.{no_tables}
use proto_gpu.Cuda.Api.Laws.{SameData, refusals, api_calls-refusals}

abbrev fresh : Shim
fresh = record {
  is_initialized = false;
  fatal_error = "";
  devices = [];
  world = record { rt = create empty; host = λ x. x % 256; errors = no_error };
}

abbrev broken : Shim
broken = record fresh { fatal_error = "no assets" }

abbrev ready : Shim
ready = record fresh { is_initialized = true }

abbrev three_calls : List (Attempt × ApiCall)
three_calls =
    (loads (create empty), cuda_malloc none true 8)
    ∷ (assets_missing "", cuda_get_last_error)
    ∷ (throws "x", cuda_free 5)
    ∷ (loads (create empty), cuda_memcpy MemcpyKind.host_to_host 1 2 3)
    ∷ []

fresh_fails :
    (api_call fresh (throws "x") (cuda_free 0)).0.fatal_error ≡ "RuntimeContext init failed: x"
unfolding api_call ensure_initialized guarded fail
fresh_fails = refl

unknown_pointer_lost :
    (api_calls ready ((throws "", cuda_free 5) ∷ (throws "", cuda_get_last_error) ∷ [])).1
    ≡ invalid_device_pointer ∷ success ∷ []
unfolding api_calls api_call ensure_initialized guarded clears free has_key get_and_clear
unknown_pointer_lost = refl

api_calls-refusals_example :
    ((api_calls broken three_calls).1
      ≡ initialization_error ∷ initialization_error ∷ initialization_error ∷ initialization_error
        ∷ [])
    × SameData broken (api_calls broken three_calls).0
unfolding refusals
api_calls-refusals_example = api_calls-refusals broken three_calls refl

api_calls-IsReady_example :
    IsReady
      (api_calls ready (
        (throws "", cuda_malloc none true 8)
        ∷ (throws "", cuda_free 0x1000)
        ∷ (throws "", cuda_memcpy MemcpyKind.host_to_device 0x1000 7 8)
        ∷ [])).0
unfolding AllFit
api_calls-IsReady_example =
    api_calls-IsReady ready
      ((throws "", cuda_malloc none true 8)
        ∷ (throws "", cuda_free 0x1000)
        ∷ (throws "", cuda_memcpy MemcpyKind.host_to_device 0x1000 7 8)
        ∷ [])
      (record { fine = refl; begun = refl; consistent = no_tables }) (omega arith, omega arith)
