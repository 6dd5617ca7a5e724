-- ===== src/Tests/Shim.antt =====
-- The CUDA shim at concrete inputs.
use proto_gpu.Prelude.{ℕ, ◌+◌, ◌*◌, ◌%◌, ◌≡◌, refl, true, Option, none, some, List, [], ◌∷◌, arith}
use proto_gpu.Prelude.Chars.{Bytes, codes, is_space, is_digit, is_alnum, starts_with}
use proto_gpu.Prelude.Results.{ok}
use proto_gpu.Memory.{
  empty, alloc_global, ParamDesc, ParamType, read_param_symbol, set_param_blob, set_param_layout,
}
use proto_gpu.Runtime.{create, overwrite, device_malloc}
use proto_gpu.Cuda.Errors.{no_error}
use proto_gpu.Cuda.Devices.{
  DeviceMemory, World, malloc, free, host_bytes, find_allocation_containing, is_valid_device_range,
}
use proto_gpu.Cuda.Devices.Backed.{without}
use proto_gpu.Cuda.Devices.Copies.{ComesBack}
use proto_gpu.Cuda.Devices.Laws.{
  IsConsistent, Malloced, malloc-Malloced, mallocs, frees, none_yet, after, Calls-IsConsistent,
  memcpy-ComesBack, find_allocation_containing-free,
}
use proto_gpu.Cuda.Args.{pack_kernel_args}
use proto_gpu.Cuda.Args.Laws.{read_param_symbol-pack_kernel_args}
use proto_gpu.Cuda.Kernels.{lookup_kernel, run_all}
use proto_gpu.Cuda.Kernels.Laws.{
  registers, unregisters, after_calls, spec_calls, lookup_kernel-after_calls, AllRun, given,
  after_submits, after_submits-run_all,
}
use proto_gpu.Cuda.Entries.{ptx_contains_entry, ptx_list_entry_names, parse_entry_name_at}
use proto_gpu.Cuda.Entries.Laws.{elem, ptx_contains_entry-elem}

abbrev world : World
world = record { rt = create empty; host = λ x. x % 256; errors = no_error }

pub no_tables : IsConsistent [] (create empty)
no_tables = record {
  sound = record { ordered = omega arith; in_range = omega arith };
  backed = omega arith;
}

malloc-Malloced_example : Malloced 8 (malloc [] (create empty) true 8)
malloc-Malloced_example = malloc-Malloced [] (create empty) 8 no_tables (omega arith) (omega arith)

-- The world with one allocation of 8 bytes.
abbrev one_world : World
one_world = record world { rt = (malloc [] (create empty) true 8).1 }

abbrev one_table : DeviceMemory
one_table = (malloc [] (create empty) true 8).0

one-IsConsistent : IsConsistent one_table one_world.rt
one-IsConsistent = Calls-IsConsistent no_tables (after none_yet (mallocs [] world 8 (omega arith)))

Calls-IsConsistent_example : IsConsistent (free one_table 0x1000).0 one_world.rt
Calls-IsConsistent_example =
    Calls-IsConsistent no_tables
      (after (after none_yet (mallocs [] world 8 (omega arith))) (frees one_table one_world 0x1000))

one_valid : is_valid_device_range one_table 0x1000 8 ≡ true
unfolding is_valid_device_range malloc device_malloc alloc_global
one_valid = refl

memcpy-ComesBack_example : ComesBack one_table one_world 0x1000 5 64 8
memcpy-ComesBack_example =
    memcpy-ComesBack one_table one_world one-IsConsistent 0x1000 5 64 8 (omega arith) (omega arith)
      (omega arith) (omega arith) (omega arith) one_valid

find_allocation_containing-free_example :
    find_allocation_containing (free one_table 0x1000).0 0x1003
    ≡ without 0x1000 (find_allocation_containing one_table 0x1003)
find_allocation_containing-free_example =
    find_allocation_containing-free one_table one_world one-IsConsistent 0x1000 0x1003

abbrev two_params : List ParamDesc
two_params =
    record { name = "n"; type = ParamType.u32; size = 4; align = 4; offset = 0 }
    ∷ record { name = "m"; type = ParamType.u32; size = 4; align = 4; offset = 4 }
    ∷ []

abbrev two_args : List ℕ
two_args = 64 ∷ 65 ∷ 66 ∷ 67 ∷ 80 ∷ 81 ∷ 82 ∷ 83 ∷ []

-- The arguments lie at 64 and at 80.
abbrev arg_pointers : ℕ → ℕ
arg_pointers i = 64 + 16 * i

two_packed : pack_kernel_args [] world.host (some arg_pointers) two_params ≡ ok two_args
unfolding pack_kernel_args overwrite host_bytes
two_packed = refl

read_param_symbol-pack_kernel_args_example :
    read_param_symbol (set_param_blob (set_param_layout empty two_params) two_args) "m" 4
    ≡ some (host_bytes world.host 80 4)
read_param_symbol-pack_kernel_args_example =
    read_param_symbol-pack_kernel_args [] world.host arg_pointers two_params two_args (omega arith)
      two_packed empty 1
      (record { name = "m"; type = ParamType.u32; size = 4; align = 4; offset = 4 }) refl refl
      (omega arith) (omega arith) (omega arith)

lookup_kernel-after_calls_example :
    lookup_kernel (after_calls [] (registers 1 7 (some "k") ∷ unregisters 1 ∷ [])) 7
    ≡ spec_calls (λ g. none) (registers 1 7 (some "k") ∷ unregisters 1 ∷ []) 7
lookup_kernel-after_calls_example =
    lookup_kernel-after_calls (registers 1 7 (some "k") ∷ unregisters 1 ∷ []) 7

-- Two commands on two streams, and an empty one.
abbrev commands : List (ℕ × Option (ℕ → ℕ))
commands = (0, some (λ n. n + 1)) ∷ (0, none) ∷ (5, some (λ n. n * 2)) ∷ []

after_submits-run_all_example :
    AllRun (after_submits [] commands 3).0
    × ((after_submits [] commands 3).1 ≡ run_all (given commands) 3)
after_submits-run_all_example = after_submits-run_all [] commands 3 tt

abbrev ptx : Bytes
ptx = codes ".visible .entry foo(.param .u64 a) x.entry bar .entry  baz"

ptx_names : ptx_list_entry_names ptx 99 ≡ some (codes "foo" ∷ codes "baz" ∷ [])
unfolding ptx_list_entry_names parse_entry_name_at starts_with is_space is_alnum is_digit
ptx_names = refl

ptx_contains_entry-elem_example :
    (names : List Bytes) × (ptx_list_entry_names ptx 99 ≡ some names)
    × (ptx_contains_entry ptx (codes "baz") ≡ some (elem (codes "baz") names))
ptx_contains_entry-elem_example = ptx_contains_entry-elem ptx b'b' (codes "az") 99 (omega arith)
