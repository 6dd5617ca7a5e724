-- ===== src/Cuda/Devices/Copies.antt =====
-- Copies between the host and the device.
use proto_gpu.Prelude.{
  ℕ, zero, suc, ◌+◌, ◌^◌, ◌<◌, ◌≡◌, ◌≢◌, refl, ap, ◌∙◌, true, some, List, [], ◌∷◌, arith, ◌==◌,
  if◌then◌else◌, length, replicate, subst,
}
use proto_gpu.Memory.{write_global, read_global}
use proto_gpu.Runtime.{Runtime, host_alloc}
use proto_gpu.Runtime.Laws.{
  holding, host_write-holding, host_read-holding, memcpy_h2d-holding, memcpy_d2h-holding,
}
use proto_gpu.Contracts.Words.{to_u64}
use proto_gpu.Cuda.Errors.{success}
use proto_gpu.Cuda.Devices.{
  DeviceMemory, World, host_bytes, put_host, is_valid_device_range, host_to_device_copy,
  device_to_host_copy, device_to_device_copy, memcpy, host_to_device, device_to_host,
}

pub length-host_bytes : (host : ℕ → ℕ) (src n : ℕ) → length (host_bytes host src n) ≡ n
unfolding host_bytes
length-host_bytes host src zero = refl
length-host_bytes host src (suc n) = ap suc (length-host_bytes host (src + 1) n)

-- Bytes put elsewhere leave a byte of the host.
put_host_below :
    (host : ℕ → ℕ) (dst : ℕ) (bytes : List ℕ) (x : ℕ) → x < dst → put_host host dst bytes x ≡ host x
unfolding put_host
put_host_below host dst [] x lt = refl
put_host_below host dst (b ∷ bytes) x lt =
    put_host_below (λ x. if x == dst then b else host x) (dst + 1) bytes x (omega arith)
    ∙ ground arith

-- Bytes that were put are there.
host_bytes-put_host :
    (host : ℕ → ℕ) (dst : ℕ) (bytes : List ℕ)
    → host_bytes (put_host host dst bytes) dst (length bytes) ≡ bytes
unfolding host_bytes put_host
host_bytes-put_host host dst [] = refl
host_bytes-put_host host dst (b ∷ bytes) = ground (
  arith,
  put_host_below (λ x. if x == dst then b else host x) (dst + 1) bytes dst (omega arith),
  host_bytes-put_host (λ x. if x == dst then b else host x) (dst + 1) bytes,
)

-- The runtime that has given out its next buffer.
abbrev bumped : Runtime → Runtime
bumped rt = record rt { next_host_buf_id = to_u64 (rt.next_host_buf_id + 1) }

-- The runtime with a fresh buffer of zeros, and then with that buffer full.
abbrev fresh : Runtime → ℕ → Runtime
fresh rt n = holding (bumped rt) rt.next_host_buf_id (replicate n 0)

abbrev filled : Runtime → List ℕ → Runtime
filled rt bytes = holding (fresh rt (length bytes)) rt.next_host_buf_id bytes

module _ (w : World) (bytes : List ℕ) (room : length bytes < 2 ^ 64) where
  copied_in :
      (dst src : ℕ)
      → bytes ≡ host_bytes w.host src (length bytes)
      → (write_global w.rt.mem dst bytes).1 ≡ true
      → host_to_device_copy w dst src (length bytes) ≡ (
        record w { rt = record (filled w.rt bytes) { mem = (write_global w.rt.mem dst bytes).0 } },
        success,
      )
  unfolding host_to_device_copy host_alloc
  copied_in dst src same done = ground (
    arith,
    host_write-holding (bumped w.rt) w.rt.next_host_buf_id bytes room (replicate (length bytes) 0)
        refl,
    memcpy_h2d-holding (fresh w.rt (length bytes)) w.rt.next_host_buf_id bytes room dst done,
  )

  copied_out :
      (dst src : ℕ)
      → read_global w.rt.mem src (length bytes) ≡ some bytes
      → device_to_host_copy w dst src (length bytes)
        ≡ (record w { rt = filled w.rt bytes; host = put_host w.host dst bytes }, success)
  unfolding device_to_host_copy host_alloc
  copied_out dst src read = ground (
    arith,
    memcpy_d2h-holding (bumped w.rt) w.rt.next_host_buf_id bytes room src
        (replicate (length bytes) 0) refl read,
    host_read-holding (fresh w.rt (length bytes)) w.rt.next_host_buf_id bytes room,
  )

  copied_across :
      (dst src : ℕ)
      → read_global w.rt.mem src (length bytes) ≡ some bytes
      → (write_global w.rt.mem dst bytes).1 ≡ true
      → device_to_device_copy w dst src (length bytes) ≡ (
        record w { rt = record (filled w.rt bytes) { mem = (write_global w.rt.mem dst bytes).0 } },
        success,
      )
  unfolding device_to_device_copy host_alloc
  copied_across dst src read done = ground (
    arith,
    memcpy_d2h-holding (bumped w.rt) w.rt.next_host_buf_id bytes room src
        (replicate (length bytes) 0) refl read,
    memcpy_h2d-holding (fresh w.rt (length bytes)) w.rt.next_host_buf_id bytes room dst done,
  )

-- What a copy to the device and back must do: both succeed, and the host has the same bytes again.
abbrev pub ComesBack : DeviceMemory → World → ℕ → ℕ → ℕ → ℕ → Type 0
ComesBack d w dev src out n =
    let (there, code) = memcpy host_to_device d w dev src n in
    let (back, code') = memcpy device_to_host d there out dev n in
    (code ≡ success) × (code' ≡ success) × (host_bytes back.host out n ≡ host_bytes w.host src n)

module _ (d : DeviceMemory) (w : World) (dev src out : ℕ) (dev_set : dev ≢ 0) (src_set : src ≢ 0)
    (out_set : out ≢ 0) where
  -- The world after the copy to the device.
  abbrev stored : List ℕ → World
  stored bytes = record w {
    rt = record (filled w.rt bytes) { mem = (write_global w.rt.mem dev bytes).0 };
  }

  memcpy_in :
      (bytes : List ℕ)
      → bytes ≡ host_bytes w.host src (length bytes)
      → length bytes < 2 ^ 64
      → 0 < length bytes
      → is_valid_device_range d dev (length bytes) ≡ true
      → (write_global w.rt.mem dev bytes).1 ≡ true
      → memcpy host_to_device d w dev src (length bytes) ≡ (stored bytes, success)
  unfolding memcpy
  memcpy_in bytes same room pos valid done =
      ground (arith, dev_set, src_set, copied_in w bytes room dev src same done)

  memcpy_out :
      (v : World) (bytes : List ℕ)
      → length bytes < 2 ^ 64
      → 0 < length bytes
      → is_valid_device_range d dev (length bytes) ≡ true
      → read_global v.rt.mem dev (length bytes) ≡ some bytes
      → memcpy device_to_host d v out dev (length bytes)
        ≡ (record v { rt = filled v.rt bytes; host = put_host v.host out bytes }, success)
  unfolding memcpy
  memcpy_out v bytes room pos valid read =
      ground (arith, dev_set, out_set, copied_out v bytes room out dev read)

  comes_back :
      (bytes : List ℕ)
      → bytes ≡ host_bytes w.host src (length bytes)
      → 0 < length bytes
      → length bytes < 2 ^ 64
      → is_valid_device_range d dev (length bytes) ≡ true
      → ((write_global w.rt.mem dev bytes).1 ≡ true)
        × (read_global (write_global w.rt.mem dev bytes).0 dev (length bytes) ≡ some bytes)
      → ComesBack d w dev src out (length bytes)
  comes_back bytes same pos room valid written =
      rw
        (
          memcpy_in bytes same room pos valid written.0,
          memcpy_out (stored bytes) bytes room pos valid written.1,
        )
        (refl, refl, host_bytes-put_host w.host out bytes ∙ same)

  -- Bytes that the tables accept at `dev` come back from there.
  pub copies-ComesBack :
      (n : ℕ)
      → 0 < n
      → n < 2 ^ 64
      → is_valid_device_range d dev n ≡ true
      → ((bytes : List ℕ)
          → length bytes ≡ n
          → ((write_global w.rt.mem dev bytes).1 ≡ true)
            × (read_global (write_global w.rt.mem dev bytes).0 dev n ≡ some bytes))
      → ComesBack d w dev src out n
  copies-ComesBack n pos room valid written =
      subst (λ k. ComesBack d w dev src out k) len
        (comes_back bytes (rw len refl) (omega (arith, len)) (omega (arith, len)) (rw len valid)
          (rw len (written bytes len)))
    where
      bytes : List ℕ
      bytes = host_bytes w.host src n

      len : length (host_bytes w.host src n) ≡ n
      len = length-host_bytes w.host src n
