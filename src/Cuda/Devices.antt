-- ===== src/Cuda/Devices.antt =====
-- DeviceMemory (cuda/src/cudart_shim/device_memory.h, device_memory.cpp). A pointer of the host is a
-- number, and null is 0; the host's own memory is a byte for each address.
pub mod Copies
pub mod Backed
pub mod Tables
pub mod Laws
use proto_gpu.Prelude.{
  ℕ, zero, suc, ◌+◌, ◌-◌, ◌%◌, ◌^◌, Bool, true, false, ◌||◌, String, Option, none, some, List, [],
  ◌∷◌, ltb, leb, ◌==◌, if◌then◌else◌, replicate, length,
}
use proto_gpu.Prelude.Results.{Result, ok, err, ◌>>=◌}
use proto_gpu.Contracts.Words.{to_u64}
use proto_gpu.Runtime.{
  Runtime, RuntimeError, host_alloc, host_write, host_read, device_malloc, memcpy_h2d, memcpy_d2h,
}
use proto_gpu.Cuda.Errors.{
  CudaError, ErrorState, set_error, success, invalid_value, memory_allocation,
  invalid_device_pointer, invalid_memcpy_direction, unknown,
}

pub record DeviceAllocation : Type 0 where
  pub base : ℕ
  pub bytes : ℕ
  pub align : ℕ

-- The entries of `allocs_` by ascending key.
abbrev pub DeviceMemory : Type 0
DeviceMemory = List (ℕ × DeviceAllocation)

-- The entry before `upper_bound(ptr)`: the last whose key is at most `ptr`.
unfoldable pub entry_before : DeviceMemory → ℕ → Option DeviceAllocation → Option DeviceAllocation
entry_before [] ptr best = best
entry_before ((key, a) ∷ rest) ptr best =
    if ltb ptr key then best else entry_before rest ptr (some a)

unfoldable pub containing : Option DeviceAllocation → ℕ → Option DeviceAllocation
containing none ptr = none
containing (some a) ptr =
    if ltb ptr a.base then none else if leb a.bytes (ptr - a.base) then none else some a

unfoldable pub find_allocation_containing : DeviceMemory → ℕ → Option DeviceAllocation
unfolding entry_before containing
find_allocation_containing d ptr = containing (entry_before d ptr none) ptr

unfoldable pub range_fits : Option DeviceAllocation → ℕ → ℕ → Bool
range_fits none ptr bytes = false
range_fits (some a) ptr bytes = leb (to_u64 (ptr - a.base + bytes)) a.bytes

unfoldable pub is_valid_device_range : DeviceMemory → ℕ → ℕ → Bool
unfolding find_allocation_containing range_fits
is_valid_device_range d ptr bytes = range_fits (find_allocation_containing d ptr) ptr bytes

-- `allocs_[key] = a` in the order of the keys
unfoldable pub put_allocation : ℕ → DeviceAllocation → DeviceMemory → DeviceMemory
put_allocation key a [] = (key, a) ∷ []
put_allocation key a ((k, b) ∷ rest) =
    if ltb key k
    then (key, a) ∷ (k, b) ∷ rest
    else if k == key
    then (key, a) ∷ rest
    else (k, b) ∷ put_allocation key a rest

-- The new tables, what `*out_dev_ptr` is set to, and the code, where nothing throws. An allocation
-- that throws is `malloc_throws`.
unfoldable pub malloc :
    DeviceMemory → Runtime → Bool → ℕ → (DeviceMemory × Runtime × Option ℕ × CudaError)
unfolding put_allocation
malloc d rt has_out bytes =
    if has_out
    then if bytes == 0
      then (d, rt, some 0, success)
      else (let (rt', p) = device_malloc rt bytes 16 in
          (
            put_allocation p (record { base = p; bytes = bytes; align = 16 }) d,
            rt',
            some p,
            success,
          ))
    else (d, rt, none, invalid_value)

unfoldable pub has_key : ℕ → DeviceMemory → Bool
has_key p [] = false
has_key p ((k, a) ∷ rest) = k == p || has_key p rest

unfoldable pub erase_key : ℕ → DeviceMemory → DeviceMemory
erase_key p [] = []
erase_key p ((k, a) ∷ rest) = if k == p then rest else (k, a) ∷ erase_key p rest

unfoldable pub free : DeviceMemory → ℕ → DeviceMemory × CudaError
unfolding has_key erase_key
free d p =
    if p == 0
    then (d, success)
    else if has_key p d
    then (erase_key p d, success)
    else (d, invalid_device_pointer)

pub data MemcpyKind : Type 0 where
  host_to_host host_to_device device_to_host device_to_device default_kind : MemcpyKind

-- What a copy changes: the runtime, the host's memory and the last error.
pub record World : Type 0 where
  pub rt : Runtime
  pub host : ℕ → ℕ
  pub errors : ErrorState

-- std::memcpy from the host's memory, and to it
unfoldable pub host_bytes : (ℕ → ℕ) → ℕ → ℕ → List ℕ
host_bytes host src zero = []
host_bytes host src (suc n) = host src ∷ host_bytes host (src + 1) n

unfoldable pub put_host : (ℕ → ℕ) → ℕ → List ℕ → ℕ → ℕ
put_host host dst [] = host
put_host host dst (b ∷ bytes) = put_host (λ x. if x == dst then b else host x) (dst + 1) bytes

-- `what()` of the exception; the numbers in the text of a failed read are left out
unfoldable pub what : RuntimeError → String
what RuntimeError.host_buffer_not_found = "Runtime: host buffer not found"
what RuntimeError.host_write_out_of_range = "Runtime: host_write out of range"
what RuntimeError.host_read_failed = "Runtime: memcpy_h2d host_read failed"
what RuntimeError.write_global_failed = "Runtime: memcpy_h2d write_global failed"
what (RuntimeError.read_global_failed src bytes at) = "Runtime: memcpy_d2h read_global failed"

-- The `catch` of a copy: `rt` is the runtime as the last completed step left it.
unfoldable pub caught : World → Runtime → RuntimeError → World × CudaError
unfolding what
caught w rt e = (record w { rt = rt; errors = set_error w.errors unknown (what e) }, unknown)

-- Where host memory runs out: as alloc_global lists the new range, with `next_global_addr_` moved
-- already, or as the entry is put into the shim's table. The text is that of the exception.
pub data Thrown : Type 0 where
  in_alloc_global in_table : String → Thrown

abbrev pub moved : Runtime → ℕ → Runtime
moved rt bytes = record rt {
  mem = record rt.mem { next_global_addr = (device_malloc rt bytes 16).0.mem.next_global_addr };
}

-- The `catch` of `DeviceMemory::malloc`.
unfoldable pub malloc_throws : World → Thrown → ℕ → World × CudaError
malloc_throws w (in_alloc_global text) bytes = (
  record w { rt = moved w.rt bytes; errors = set_error w.errors memory_allocation text },
  memory_allocation,
)
malloc_throws w (in_table text) bytes = (
  record w {
    rt = (device_malloc w.rt bytes 16).0;
    errors = set_error w.errors memory_allocation text;
  },
  memory_allocation,
)

abbrev pub malloc_or_throw :
    DeviceMemory → World → Option Thrown → ℕ → DeviceMemory × World × CudaError
malloc_or_throw d w (some t) bytes = let (w', code) = malloc_throws w t bytes in (d, w', code)
malloc_or_throw d w none bytes =
    let (d', rt, out, code) = malloc d w.rt true bytes in (d', record w { rt = rt }, code)

-- A call of `DeviceMemory::malloc`, with the exception that its allocation meets, if any.
unfoldable pub try_malloc :
    DeviceMemory → World → Option Thrown → Bool → ℕ → DeviceMemory × World × CudaError
unfolding malloc malloc_throws
try_malloc d w thrown has_out bytes =
    if has_out
    then if bytes == 0 then (d, w, success) else malloc_or_throw d w thrown bytes
    else (d, w, invalid_value)

h2d_written : World → Runtime → ℕ → ℕ → ℕ → Result RuntimeError Runtime → World × CudaError
h2d_written w before dst id bytes (err e) = caught w before e
h2d_written w before dst id bytes (ok rt) = elim (memcpy_h2d rt dst id 0 bytes) [
  | err e ↦ caught w rt e
  | ok rt' ↦ (record w { rt = rt' }, success)
]

unfoldable pub host_to_device_copy : World → ℕ → ℕ → ℕ → World × CudaError
unfolding h2d_written caught
host_to_device_copy w dst src bytes =
    let (rt, id) = host_alloc w.rt bytes in
    h2d_written w rt dst id bytes (host_write rt id 0 (host_bytes w.host src bytes))

d2h_read : World → Runtime → ℕ → Option (List ℕ) → World × CudaError
d2h_read w rt dst none = (record w { rt = rt }, unknown)
d2h_read w rt dst (some bs) = (record w { rt = rt; host = put_host w.host dst bs }, success)

unfoldable pub device_to_host_copy : World → ℕ → ℕ → ℕ → World × CudaError
unfolding d2h_read caught
device_to_host_copy w dst src bytes =
    let (rt, id) = host_alloc w.rt bytes in
    elim (memcpy_d2h rt id 0 src bytes) [
      | err e ↦ caught w rt e
      | ok rt' ↦ d2h_read w rt' dst (host_read rt' id 0 bytes)
    ]

unfoldable pub device_to_device_copy : World → ℕ → ℕ → ℕ → World × CudaError
unfolding caught
device_to_device_copy w dst src bytes =
    let (rt, id) = host_alloc w.rt bytes in
    elim (memcpy_d2h rt id 0 src bytes) [
      | err e ↦ caught w rt e
      | ok rt' ↦ elim (memcpy_h2d rt' dst id 0 bytes) [
        | err e ↦ caught w rt' e
        | ok rt'' ↦ (record w { rt = rt'' }, success)
      ]
    ]

copy_by : MemcpyKind → DeviceMemory → World → ℕ → ℕ → ℕ → World × CudaError
unfolding host_to_device_copy device_to_host_copy device_to_device_copy
copy_by host_to_device d w dst src bytes =
    if is_valid_device_range d dst bytes
    then host_to_device_copy w dst src bytes
    else (w, invalid_device_pointer)
copy_by device_to_host d w dst src bytes =
    if is_valid_device_range d src bytes
    then device_to_host_copy w dst src bytes
    else (w, invalid_device_pointer)
copy_by device_to_device d w dst src bytes =
    if is_valid_device_range d dst bytes
    then if is_valid_device_range d src bytes
      then device_to_device_copy w dst src bytes
      else (w, invalid_device_pointer)
    else (w, invalid_device_pointer)
copy_by host_to_host d w dst src bytes =
    (record w { host = put_host w.host dst (host_bytes w.host src bytes) }, success)
copy_by default_kind d w dst src bytes = (w, invalid_memcpy_direction)

unfoldable pub memcpy : MemcpyKind → DeviceMemory → World → ℕ → ℕ → ℕ → World × CudaError
unfolding copy_by
memcpy kind d w dst src bytes =
    if bytes == 0
    then (w, success)
    else if dst == 0 || src == 0
    then (w, invalid_value)
    else copy_by kind d w dst src bytes
