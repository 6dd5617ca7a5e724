-- ===== src/Cuda/Api/Tables.antt =====
-- The shim's calls keep its tables consistent with device memory.
use proto_gpu.Prelude.{
  ℕ, Bool, true, false, str_eq, ◌≡◌, ◌≤◌, sym, subst, Option, none, some, ◌==◌, if_elim, List, [],
  ◌∷◌,
}
use proto_gpu.Memory.Alloc.{HasRoom}
use proto_gpu.Cuda.Errors.{
  CudaError, success, initialization_error, invalid_value, memory_allocation,
  invalid_device_function, invalid_device_pointer, invalid_memcpy_direction, invalid_ptx,
  not_supported, unknown,
}
use proto_gpu.Cuda.Devices.{DeviceMemory, World, Thrown, try_malloc, malloc_or_throw}
use proto_gpu.Cuda.Devices.Laws.{
  IsConsistent, Calls, cut_short, mallocs, frees, copies, none_yet, after, Calls-IsConsistent,
}
use proto_gpu.Cuda.Api.Laws.{ensured}
use proto_gpu.Cuda.Api.{
  Attempt, Shim, ensure_initialized, clears, guarded, malloc_work, free_work, memcpy_work, ApiCall,
  cuda_malloc, cuda_free, cuda_memcpy, cuda_get_last_error, api_call, api_calls,
}

-- Initialized, with tables that are consistent.
pub record IsReady (s : Shim) : Type 0 where
  pub fine : str_eq s.fatal_error "" ≡ true
  pub begun : s.is_initialized ≡ true
  pub consistent : IsConsistent s.devices s.world.rt

-- Every allocation of the sequence has room where it is made.
unfoldable pub AllFit : Shim → List (Attempt × ApiCall) → Type 0
AllFit s [] = 0 ≤ 0
AllFit s ((a, cuda_malloc thrown has_out size) ∷ calls) =
    HasRoom s.world.rt.mem size 16 × AllFit (api_call s a (cuda_malloc thrown has_out size)).0 calls
AllFit s ((a, c) ∷ calls) = AllFit (api_call s a c).0 calls

clears-IsReady : (s : Shim) (code : CudaError) → IsReady s → IsReady (clears s code).0
unfolding clears
clears-IsReady s success h = record { fine = h.fine; begun = h.begun; consistent = h.consistent }
clears-IsReady s invalid_value h = h
clears-IsReady s memory_allocation h = h
clears-IsReady s initialization_error h = h
clears-IsReady s invalid_device_function h = h
clears-IsReady s invalid_device_pointer h = h
clears-IsReady s invalid_memcpy_direction h = h
clears-IsReady s invalid_ptx h = h
clears-IsReady s not_supported h = h
clears-IsReady s unknown h = h

guarded-IsReady :
    (s : Shim) (a : Attempt) (work : Shim → Shim × CudaError)
    → IsReady s
    → IsReady (work s).0
    → IsReady (guarded work (ensure_initialized s a)).0
unfolding guarded
guarded-IsReady s a work h done =
    subst (λ q. IsReady (guarded work q).0) (sym (ensured s a h.fine h.begun))
      (clears-IsReady (work s).0 (work s).1 done)

-- A call of the device memory that keeps the tables consistent keeps the context ready.
with_tables :
    (s : Shim) (d : DeviceMemory) (w : World)
    → IsReady s
    → Calls s.devices s.world d w
    → IsReady (record s { devices = d; world = w })
with_tables s d w h calls = record {
  fine = h.fine;
  begun = h.begun;
  consistent = Calls-IsConsistent h.consistent calls;
}

malloc_work-IsReady :
    (s : Shim) (thrown : Option Thrown) (has_out : Bool) (size : ℕ)
    → IsReady s
    → HasRoom s.world.rt.mem size 16
    → IsReady (malloc_work thrown has_out size s).0
unfolding try_malloc
malloc_work-IsReady s thrown false size h room = with_tables s s.devices s.world h none_yet
malloc_work-IsReady s thrown true size h room =
    if_elim
      (λ (r : DeviceMemory × World × CudaError). IsReady (record s { devices = r.0; world = r.1 }))
      (size == 0) (with_tables s s.devices s.world h none_yet) (by_exception thrown)
  where
    by_exception :
        (t : Option Thrown)
        → IsReady (record s {
          devices = (malloc_or_throw s.devices s.world t size).0;
          world = (malloc_or_throw s.devices s.world t size).1;
        })
    by_exception none = with_tables s _ _ h (after none_yet (mallocs s.devices s.world size room))
    by_exception (some t) =
        with_tables s _ _ h (after none_yet (cut_short s.devices s.world t size room))

api_call-IsReady :
    (s : Shim) (a : Attempt) (c : ApiCall) (calls : List (Attempt × ApiCall))
    → IsReady s
    → AllFit s ((a, c) ∷ calls)
    → IsReady (api_call s a c).0 × AllFit (api_call s a c).0 calls
unfolding api_call AllFit
api_call-IsReady s a (cuda_malloc thrown has_out size) calls h fits = (
  guarded-IsReady s a (malloc_work thrown has_out size) h
      (malloc_work-IsReady s thrown has_out size h fits.0),
  fits.1,
)
api_call-IsReady s a (cuda_free p) calls h fits = (
  guarded-IsReady s a (free_work p) h record {
    fine = h.fine;
    begun = h.begun;
    consistent = Calls-IsConsistent h.consistent (after none_yet (frees s.devices s.world p));
  },
  fits,
)
api_call-IsReady s a (cuda_memcpy kind dst src count) calls h fits = (
  guarded-IsReady s a (memcpy_work kind dst src count) h record {
    fine = h.fine;
    begun = h.begun;
    consistent =
        Calls-IsConsistent h.consistent
          (after none_yet (copies s.devices s.world kind dst src count));
  },
  fits,
)
api_call-IsReady s a cuda_get_last_error calls h fits =
    (record { fine = h.fine; begun = h.begun; consistent = h.consistent }, fits)

-- Over any sequence of the exported calls from a context that is initialized and whose tables are
-- consistent, with room for each allocation, the context stays so, whatever the calls answer.
pub api_calls-IsReady :
    (s : Shim) (calls : List (Attempt × ApiCall))
    → IsReady s
    → AllFit s calls
    → IsReady (api_calls s calls).0
unfolding api_calls
api_calls-IsReady s [] h fits = h
api_calls-IsReady s ((a, c) ∷ calls) h fits =
    let (next, rest) = api_call-IsReady s a c calls h fits in
    api_calls-IsReady (api_call s a c).0 calls next rest
