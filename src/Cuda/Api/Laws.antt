-- ===== src/Cuda/Api/Laws.antt =====
-- The shim's calls after an initialization that failed, and what the last error tells of a call.
use proto_gpu.Prelude.{true, false, str_eq, ◌≡◌, refl, ap, sym, ◌∙◌, subst, none, List, [], ◌∷◌}
use proto_gpu.Cuda.Errors.{
  CudaError, set_error, get_and_clear, success, initialization_error, memory_allocation,
}
use proto_gpu.Runtime.{Runtime}
use proto_gpu.Cuda.Api.{
  Attempt, Shim, ensure_initialized, fail, guarded, malloc_work, free_work, memcpy_work, ApiCall,
  cuda_malloc, cuda_free, cuda_memcpy, cuda_get_last_error, api_call, api_calls,
}

-- All but the last error is as it was.
abbrev pub SameData : Shim → Shim → Type 0
SameData s s' =
    (s'.fatal_error ≡ s.fatal_error)
    × (s'.devices ≡ s.devices)
    × (s'.world.rt ≡ s.world.rt)
    × (s'.world.host ≡ s.world.host)

-- The codes of calls that are all refused: one for the last error answers it and clears it.
unfoldable pub refusals : CudaError → List (Attempt × ApiCall) → List CudaError
refusals last [] = []
refusals last ((a, cuda_get_last_error) ∷ calls) = last ∷ refusals success calls
refusals last ((a, c) ∷ calls) = initialization_error ∷ refusals initialization_error calls

guarded_fails :
    (s : Shim) (a : Attempt) (work : Shim → Shim × CudaError)
    → str_eq s.fatal_error "" ≡ false
    → guarded work (ensure_initialized s a) ≡ fail s initialization_error s.fatal_error
unfolding guarded ensure_initialized
guarded_fails s a work h = rw (h) refl

-- What a call that is refused leaves.
abbrev Refused : Shim → CudaError → Shim × CudaError → Type 0
Refused s code (s', answer) =
    (answer ≡ code) × SameData s s' × (s'.world.errors.last_error ≡ initialization_error)

guarded-Refused :
    (s : Shim) (a : Attempt) (work : Shim → Shim × CudaError)
    → str_eq s.fatal_error "" ≡ false
    → Refused s initialization_error (guarded work (ensure_initialized s a))
unfolding fail set_error
guarded-Refused s a work h =
    subst (Refused s initialization_error) (sym (guarded_fails s a work h))
      (refl, (refl, refl, refl, refl), refl)

SameData-then : (s s' s'' : Shim) → SameData s s' → SameData s' s'' → SameData s s''
SameData-then s s' s'' p q = (q.0 ∙ p.0, q.1 ∙ p.1, q.2 ∙ p.2, q.3 ∙ p.3)

codes_after :
    (s : Shim) (r : Shim × CudaError) (calls : List (Attempt × ApiCall))
    → Refused s initialization_error r
    → ((api_calls r.0 calls).1 ≡ refusals r.0.world.errors.last_error calls)
      × SameData r.0 (api_calls r.0 calls).0
    → (r.1 ∷ (api_calls r.0 calls).1 ≡ initialization_error ∷ refusals initialization_error calls)
      × SameData s (api_calls r.0 calls).0
codes_after s (s', code) calls (answer, same, last) (codes, rest) = (
  ap (λ c. c ∷ (api_calls s' calls).1) answer
      ∙ ap (λ l. initialization_error ∷ l) (codes ∙ ap (λ e. refusals e calls) last),
  SameData-then s s' (api_calls s' calls).0 same rest,
)

-- From a context whose initialization has failed, whatever later attempts would give, every call on
-- device memory answers the initialization error, the last error is that of the refused calls, and
-- the tables, the runtime and the host's memory stay as they are.
pub api_calls-refusals :
    (s : Shim) (calls : List (Attempt × ApiCall))
    → str_eq s.fatal_error "" ≡ false
    → ((api_calls s calls).1 ≡ refusals s.world.errors.last_error calls)
      × SameData s (api_calls s calls).0
unfolding api_calls api_call refusals get_and_clear
api_calls-refusals s [] h = (refl, (refl, refl, refl, refl))
api_calls-refusals s ((a, cuda_get_last_error) ∷ calls) h =
    let next = (api_call s a cuda_get_last_error).0 in
    let (codes, same) = api_calls-refusals next calls h in
    (ap (λ l. s.world.errors.last_error ∷ l) codes, same)
api_calls-refusals s ((a, cuda_malloc thrown has_out size) ∷ calls) h =
    let p = guarded-Refused s a (malloc_work thrown has_out size) h in
    codes_after s _ calls p (api_calls-refusals _ calls (ap (λ m. str_eq m "") p.1.0 ∙ h))
api_calls-refusals s ((a, cuda_free p) ∷ calls) h =
    let refused = guarded-Refused s a (free_work p) h in
    codes_after s _ calls refused
      (api_calls-refusals _ calls (ap (λ m. str_eq m "") refused.1.0 ∙ h))
api_calls-refusals s ((a, cuda_memcpy kind dst src count) ∷ calls) h =
    let p = guarded-Refused s a (memcpy_work kind dst src count) h in
    codes_after s _ calls p (api_calls-refusals _ calls (ap (λ m. str_eq m "") p.1.0 ∙ h))

-- The last error as the work of a call leaves it: an exception of an allocation is recorded.
abbrev noted : CudaError → CudaError → CudaError
noted old memory_allocation = memory_allocation
noted old code = old

-- The last error after an allocation or a free.
unfoldable pub last_after : CudaError → CudaError → CudaError
last_after old success = success
last_after old memory_allocation = memory_allocation
last_after old code = old

abbrev pub Records : Shim → Shim × CudaError → Type 0
Records s (s', code) = s'.world.errors.last_error ≡ last_after s.world.errors.last_error code

pub ensured :
    (s : Shim) (a : Attempt)
    → str_eq s.fatal_error "" ≡ true
    → s.is_initialized ≡ true
    → ensure_initialized s a ≡ (s, none)
unfolding ensure_initialized
ensured s a fine ready = rw (fine, ready) refl
