-- ===== src/Cuda/Kernels.antt =====
-- The kernels by their host functions, the pending launch configurations and the queues of the
-- streams (cuda/src/cudart_shim/kernel_registry.cpp, launch_config_stack.cpp, stream_scheduler.cpp).
-- A pointer is a number, and null is 0. The stack is one thread's; the lock of the queues is left
-- out.
pub mod Laws
use proto_gpu.Prelude.{
  ℕ, ◌≡◌, refl, Bool, true, false, String, Option, none, some, List, [], ◌∷◌, ◌++◌, arith, ◌==◌,
  ◌||◌, if◌then◌else◌,
}
use proto_gpu.Prelude.Dict.{lookup, insert, lookup-insert}
use proto_gpu.Contracts.{Dim3}

pub record KernelInfo : Type 0 where
  pub module_id : ℕ
  pub device_name : String

abbrev pub KernelRegistry : Type 0
KernelRegistry = List (ℕ × KernelInfo)

-- `none` is a null name.
unfoldable pub register_function : KernelRegistry → ℕ → ℕ → Option String → KernelRegistry
register_function r module_id host_fun none = r
register_function r module_id host_fun (some device_name) =
    if host_fun == 0
    then r
    else insert host_fun (record { module_id = module_id; device_name = device_name }) r

unfoldable pub unregister_module : KernelRegistry → ℕ → KernelRegistry
unregister_module [] module_id = []
unregister_module ((f, ki) ∷ rest) module_id =
    let left = unregister_module rest module_id in
    if ki.module_id == module_id then left else (f, ki) ∷ left

unfoldable pub lookup_kernel : KernelRegistry → ℕ → Option KernelInfo
lookup_kernel r host_fun = lookup host_fun r

pub record CallConfig : Type 0 where
  pub grid : Dim3
  pub block : Dim3
  pub shared_bytes : ℕ
  pub stream : ℕ

-- The last pushed is the last of the list, as in the vector.
abbrev pub LaunchConfigStack : Type 0
LaunchConfigStack = List CallConfig

unfoldable pub push : LaunchConfigStack → CallConfig → LaunchConfigStack
push s c = s ++ c ∷ []

split_last : CallConfig → List CallConfig → LaunchConfigStack × CallConfig
split_last c [] = ([], c)
split_last c (d ∷ rest) = let (front, last) = split_last d rest in (c ∷ front, last)

unfoldable pub pop : LaunchConfigStack → LaunchConfigStack × Option CallConfig
unfolding split_last
pop [] = ([], none)
pop (c ∷ rest) = let (front, last) = split_last c rest in (front, some last)

-- A command changes the world. A queue is what waits for its stream.
abbrev pub Queues {ℓ} : Type ℓ → Type ℓ
Queues S = List (ℕ × List (S → S))

queue_or_empty {ℓ} : {S : Type ℓ} → Option (List (S → S)) → List (S → S)
queue_or_empty none = []
queue_or_empty (some q) = q

unfoldable pub run_all {ℓ} : {S : Type ℓ} → List (S → S) → S → S
run_all [] s = s
run_all (c ∷ rest) s = run_all rest (c s)

-- The queue of the stream with the command is taken whole and run; an empty command is passed over.
unfoldable pub submit {ℓ} : {S : Type ℓ} → Queues S → ℕ → Option (S → S) → S → Queues S × S
unfolding queue_or_empty run_all
submit qs stream none s = (qs, s)
submit qs stream (some cmd) s =
    (insert stream [] qs, run_all (queue_or_empty (lookup stream qs) ++ cmd ∷ []) s)
