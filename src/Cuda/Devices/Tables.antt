-- ===== src/Cuda/Devices/Tables.antt =====
-- No copy changes which ranges of device memory are allocated.
use proto_gpu.Prelude.{ℕ, refl, Option, none, some, List, ◌==◌, if_elim, ◌||◌}
use proto_gpu.Prelude.Results.{Result, ok, err}
use proto_gpu.Runtime.{Runtime, RuntimeError, host_alloc, host_read, memcpy_h2d, memcpy_d2h}
use proto_gpu.Runtime.Tables.{
  SameTables, OkTables, host_write-OkTables, memcpy_h2d-OkTables, memcpy_d2h-OkTables,
}
use proto_gpu.Cuda.Errors.{CudaError, success}
use proto_gpu.Cuda.Devices.{
  DeviceMemory, World, MemcpyKind, host_to_host, host_to_device, device_to_host, device_to_device,
  default_kind, host_bytes, host_to_device_copy, device_to_host_copy, device_to_device_copy, memcpy,
  is_valid_device_range, caught, h2d_written, d2h_read, copy_by,
}

module _ (w : World) where
  -- The tables after a copy are those before it.
  abbrev pub KeepsTables : World × CudaError → Type 0
  KeepsTables r = SameTables w.rt.mem r.0.rt.mem

  h2d_written-KeepsTables :
      (before : Runtime) (dst id n : ℕ) (r : Result RuntimeError Runtime)
      → SameTables w.rt.mem before.mem
      → OkTables w.rt.mem r
      → KeepsTables (h2d_written w before dst id n r)
  unfolding h2d_written caught
  h2d_written-KeepsTables before dst id n (err e) same h = same
  h2d_written-KeepsTables before dst id n (ok rt) same h =
      go (memcpy_h2d rt dst id 0 n) (memcpy_h2d-OkTables w.rt.mem rt h dst id 0 n)
    where
      go :
          (r : Result RuntimeError Runtime)
          → OkTables w.rt.mem r
          → KeepsTables
              (elim r [ err e ↦ caught w rt e | ok rt' ↦ (record w { rt = rt' }, success) ])
      go (err e) k = h
      go (ok rt') k = k

  host_to_device_copy-KeepsTables : (dst src n : ℕ) → KeepsTables (host_to_device_copy w dst src n)
  unfolding host_to_device_copy host_alloc
  host_to_device_copy-KeepsTables dst src n =
      h2d_written-KeepsTables _ dst w.rt.next_host_buf_id n _ (refl, refl)
        (host_write-OkTables w.rt.mem (host_alloc w.rt n).0 (refl, refl) w.rt.next_host_buf_id 0
          (host_bytes w.host src n))

  d2h_read-KeepsTables :
      (rt : Runtime) (dst : ℕ) (o : Option (List ℕ))
      → SameTables w.rt.mem rt.mem
      → KeepsTables (d2h_read w rt dst o)
  unfolding d2h_read
  d2h_read-KeepsTables rt dst none h = h
  d2h_read-KeepsTables rt dst (some bs) h = h

  device_to_host_copy-KeepsTables : (dst src n : ℕ) → KeepsTables (device_to_host_copy w dst src n)
  unfolding device_to_host_copy host_alloc caught
  device_to_host_copy-KeepsTables dst src n =
      go (memcpy_d2h (host_alloc w.rt n).0 w.rt.next_host_buf_id 0 src n) (
        memcpy_d2h-OkTables w.rt.mem (host_alloc w.rt n).0 (refl, refl) w.rt.next_host_buf_id 0 src
          n)
    where
      go :
          (r : Result RuntimeError Runtime)
          → OkTables w.rt.mem r
          → KeepsTables (elim r [
            | err e ↦ caught w (host_alloc w.rt n).0 e
            | ok rt' ↦ d2h_read w rt' dst (host_read rt' w.rt.next_host_buf_id 0 n)
          ])
      go (err e) k = (refl, refl)
      go (ok rt') k = d2h_read-KeepsTables rt' dst _ k

  device_to_device_copy-KeepsTables :
      (dst src n : ℕ) → KeepsTables (device_to_device_copy w dst src n)
  unfolding device_to_device_copy host_alloc caught
  device_to_device_copy-KeepsTables dst src n =
      go (memcpy_d2h (host_alloc w.rt n).0 w.rt.next_host_buf_id 0 src n) (
        memcpy_d2h-OkTables w.rt.mem (host_alloc w.rt n).0 (refl, refl) w.rt.next_host_buf_id 0 src
          n)
    where
      second :
          (rt' : Runtime) (r : Result RuntimeError Runtime)
          → SameTables w.rt.mem rt'.mem
          → OkTables w.rt.mem r
          → KeepsTables
              (elim r [ err e ↦ caught w rt' e | ok rt'' ↦ (record w { rt = rt'' }, success) ])
      second rt' (err e) h k = h
      second rt' (ok rt'') h k = k

      go :
          (r : Result RuntimeError Runtime)
          → OkTables w.rt.mem r
          → KeepsTables (elim r [
            | err e ↦ caught w (host_alloc w.rt n).0 e
            | ok rt' ↦ elim (memcpy_h2d rt' dst w.rt.next_host_buf_id 0 n) [
              | err e ↦ caught w rt' e
              | ok rt'' ↦ (record w { rt = rt'' }, success)
            ]
          ])
      go (err e) k = (refl, refl)
      go (ok rt') k =
          second rt' _ k (memcpy_h2d-OkTables w.rt.mem rt' k dst w.rt.next_host_buf_id 0 n)

  pub memcpy-KeepsTables :
      (kind : MemcpyKind) (d : DeviceMemory) (dst src n : ℕ)
      → KeepsTables (memcpy kind d w dst src n)
  unfolding memcpy
  memcpy-KeepsTables kind d dst src n =
      if_elim KeepsTables (n == 0) (refl, refl)
        (if_elim KeepsTables (dst == 0 || src == 0) (refl, refl) (by_kind kind))
    where
      by_kind : (kind : MemcpyKind) → KeepsTables (copy_by kind d w dst src n)
      by_kind host_to_device =
          if_elim KeepsTables (is_valid_device_range d dst n)
            (host_to_device_copy-KeepsTables dst src n) (refl, refl)
      by_kind device_to_host =
          if_elim KeepsTables (is_valid_device_range d src n)
            (device_to_host_copy-KeepsTables dst src n) (refl, refl)
      by_kind device_to_device =
          if_elim KeepsTables (is_valid_device_range d dst n)
            (if_elim KeepsTables (is_valid_device_range d src n)
              (device_to_device_copy-KeepsTables dst src n) (refl, refl))
            (refl, refl)
      by_kind host_to_host = (refl, refl)
      by_kind default_kind = (refl, refl)
