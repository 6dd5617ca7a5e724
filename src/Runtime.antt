-- ===== src/Runtime.antt =====
-- Runtime (include/gpusim/runtime.h, src/runtime/runtime.cpp): host buffers, device memory and the
-- copies between them. Its configuration and its observers are left out: no operation here reads
-- them. A method that throws answers an error.
pub mod Laws
pub mod Tables
use proto_gpu.Prelude.{
  ℕ, zero, suc, ◌+◌, Bool, Option, none, some, List, [], ◌∷◌, ltb, if◌then◌else◌, length, set,
  replicate,
}
use proto_gpu.Prelude.Dict.{lookup, insert}
use proto_gpu.Prelude.Results.{Result, ok, err, ◌>>=◌}
use proto_gpu.Contracts.Words.{to_u64}
use proto_gpu.Memory.{AddrSpaceManager, alloc_global, write_global, read_global, blob_slice}

pub record Runtime : Type 0 where
  pub mem : AddrSpaceManager
  pub next_host_buf_id : ℕ
  pub host_bufs : List (ℕ × List ℕ)

-- The texts of the runtime_errors; a failed read carries its source, its size and the first byte
-- that is missing.
pub data RuntimeError : Type 0 where
  host_buffer_not_found host_write_out_of_range host_read_failed write_global_failed : RuntimeError
  read_global_failed : ℕ → ℕ → ℕ → RuntimeError

abbrev pub create : AddrSpaceManager → Runtime
create mem = record { mem = mem; next_host_buf_id = 1; host_bufs = [] }

-- The new state and the id of the buffer.
unfoldable pub host_alloc : Runtime → ℕ → Runtime × ℕ
host_alloc rt bytes = (
  record rt {
    next_host_buf_id = to_u64 (rt.next_host_buf_id + 1);
    host_bufs = insert rt.next_host_buf_id (replicate bytes 0) rt.host_bufs;
  },
  rt.next_host_buf_id,
)

-- `buf[offset + i] = bytes[i]` for each i
unfoldable pub overwrite : List ℕ → ℕ → List ℕ → List ℕ
overwrite buf offset [] = buf
overwrite buf offset (b ∷ bytes) = overwrite (set buf offset b) (to_u64 (offset + 1)) bytes

unfoldable pub host_write : Runtime → ℕ → ℕ → List ℕ → Result RuntimeError Runtime
host_write rt id offset bytes = elim (lookup id rt.host_bufs) [
  | none ↦ err host_buffer_not_found
  | some buf ↦
      if ltb (length buf) (to_u64 (offset + length bytes))
      then err host_write_out_of_range
      else ok (record rt { host_bufs = insert id (overwrite buf offset bytes) rt.host_bufs })
]

-- The bytes are read off the buffer as they are off the parameter blob, one by one.
unfoldable pub host_read : Runtime → ℕ → ℕ → ℕ → Option (List ℕ)
host_read rt id offset bytes = elim (lookup id rt.host_bufs) [
  | none ↦ none
  | some buf ↦
      if ltb (length buf) (to_u64 (offset + bytes))
      then none
      else some (blob_slice buf offset bytes)
]

unfoldable pub device_malloc : Runtime → ℕ → ℕ → Runtime × ℕ
device_malloc rt bytes align =
    let (mem, base) = alloc_global rt.mem bytes align in (record rt { mem = mem }, base)

write_or_throw : Runtime → AddrSpaceManager × Bool → Result RuntimeError Runtime
write_or_throw rt (mem, done) =
    if done then ok (record rt { mem = mem }) else err write_global_failed

unfoldable pub memcpy_h2d : Runtime → ℕ → ℕ → ℕ → ℕ → Result RuntimeError Runtime
unfolding write_or_throw
memcpy_h2d rt dst src src_offset bytes = elim (host_read rt src src_offset bytes) [
  | none ↦ err host_read_failed
  | some bs ↦ write_or_throw rt (write_global rt.mem dst bs)
]

-- The first byte from the i-th on that cannot be read, of `left` more.
unfoldable pub first_missing : AddrSpaceManager → ℕ → ℕ → ℕ → ℕ
first_missing mem src i zero = i
first_missing mem src i (suc left) =
    let rest = first_missing mem src (i + 1) left in
    elim (read_global mem (to_u64 (src + i)) 1) [ none ↦ i | some one ↦ rest ]

unfoldable pub memcpy_d2h : Runtime → ℕ → ℕ → ℕ → ℕ → Result RuntimeError Runtime
unfolding first_missing
memcpy_d2h rt dst dst_offset src bytes = elim (read_global rt.mem src bytes) [
  | none ↦ err (read_global_failed src bytes (first_missing rt.mem src 0 bytes))
  | some bs ↦ host_write rt dst dst_offset bs
]
