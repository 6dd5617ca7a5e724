-- ===== src/Runtime/Tables.antt =====
-- No copy changes which ranges of device memory are allocated.
use proto_gpu.Prelude.{ℕ, ◌≡◌, Bool, true, false, Option, none, some, List, arith}
use proto_gpu.Prelude.Results.{Result, ok, err}
use proto_gpu.Memory.{AddrSpaceManager, write_global, read_global}
use proto_gpu.Runtime.{
  Runtime, RuntimeError, host_write, host_read, memcpy_h2d, memcpy_d2h, write_or_throw,
  first_missing,
}

abbrev pub SameTables : AddrSpaceManager → AddrSpaceManager → Type 0
SameTables m m' = (m'.allocs ≡ m.allocs) × (m'.next_global_addr ≡ m.next_global_addr)

-- A runtime that was reached without an exception has the tables of `m`.
abbrev pub OkTables : AddrSpaceManager → Result RuntimeError Runtime → Type 0
OkTables m (ok rt) = SameTables m rt.mem
OkTables m (err e) = Unit {0}

write_global-SameTables :
    (m : AddrSpaceManager) (addr : ℕ) (bytes : List ℕ) → SameTables m (write_global m addr bytes).0
unfolding write_global
write_global-SameTables m addr bytes = ground arith

module _ (m : AddrSpaceManager) (rt : Runtime) (same : SameTables m rt.mem) where
  pub host_write-OkTables :
      (id offset : ℕ) (bytes : List ℕ) → OkTables m (host_write rt id offset bytes)
  unfolding host_write
  host_write-OkTables id offset bytes = ground arith

  write_or_throw-OkTables :
      (r : AddrSpaceManager × Bool) → SameTables m r.0 → OkTables m (write_or_throw rt r)
  unfolding write_or_throw
  write_or_throw-OkTables (mem, true) h = h
  write_or_throw-OkTables (mem, false) h = tt

  pub memcpy_h2d-OkTables : (dst src offset n : ℕ) → OkTables m (memcpy_h2d rt dst src offset n)
  unfolding memcpy_h2d
  memcpy_h2d-OkTables dst src offset n = go (host_read rt src offset n)
    where
      go :
          (o : Option (List ℕ))
          → OkTables m (elim o [
            | none ↦ err RuntimeError.host_read_failed
            | some bs ↦ write_or_throw rt (write_global rt.mem dst bs)
          ])
      go none = tt
      go (some bs) =
          let (allocs, next) = write_global-SameTables rt.mem dst bs in
          write_or_throw-OkTables (write_global rt.mem dst bs) (cc, cc)

  pub memcpy_d2h-OkTables : (dst offset src n : ℕ) → OkTables m (memcpy_d2h rt dst offset src n)
  unfolding memcpy_d2h
  memcpy_d2h-OkTables dst offset src n = go (read_global rt.mem src n)
    where
      go :
          (o : Option (List ℕ))
          → OkTables m (elim o [
            | none ↦ err (RuntimeError.read_global_failed src n (first_missing rt.mem src 0 n))
            | some bs ↦ host_write rt dst offset bs
          ])
      go none = tt
      go (some bs) = host_write-OkTables dst offset bs
