-- ===== src/Cuda/Devices/Laws.antt =====
-- The table of the shim and device memory stay consistent, and a copy to the device comes back.
use native.Mathlib.Nat.{mod-eq_of_lt}
use proto_gpu.Prelude.{
  ℕ, ◌+◌, ◌^◌, ◌≤◌, ◌<◌, ◌≡◌, ◌≢◌, refl, inl, inr, max, true, Option, some, List, arith, ◌==◌,
  Bool-cases, ne→==, ==→ne, le→leb, ◌%◌, length,
}
use proto_gpu.Memory.{AddrSpaceManager, alloc_global, write_global, read_global}
use proto_gpu.Memory.Alloc.{
  IsSound, Ordered-raise, HasRoom, AllBelow, alloc_global-le, alloc_global-room,
  alloc_global-IsSound,
}
use proto_gpu.Memory.Bytes.{fresh_InAlloc, write_global-InAlloc}
use proto_gpu.Runtime.{Runtime, device_malloc}
use proto_gpu.Cuda.Errors.{CudaError, success}
use proto_gpu.Cuda.Devices.{
  DeviceMemory, DeviceAllocation, is_valid_device_range, range_fits, put_allocation, malloc, free,
  find_allocation_containing, memcpy, MemcpyKind, World, Thrown, in_alloc_global, in_table,
  malloc_throws,
}
use proto_gpu.Cuda.Devices.Backed.{
  Backed, Backed-raise, Backed-more, find_allocation_containing-holder, holder-put_allocation,
  Backed-put_allocation, Backed-free, is_valid_device_range-InAlloc, without, find-free,
}
use proto_gpu.Cuda.Devices.Copies.{ComesBack, copies-ComesBack}
use proto_gpu.Cuda.Devices.Tables.{memcpy-KeepsTables}
use proto_gpu.Runtime.Tables.{SameTables}

pub record IsConsistent (d : DeviceMemory) (rt : Runtime) : Type 0 where
  pub sound : IsSound rt.mem
  pub backed : Backed rt.mem.allocs 0x1000 d rt.mem.next_global_addr

module _ (m : AddrSpaceManager) (bytes align : ℕ) (sound : IsSound m)
    (room : HasRoom m bytes (max align 1)) (pos : 0 < bytes) where
  next-alloc_global :
      (alloc_global m bytes align).0.next_global_addr ≡ (alloc_global m bytes align).1 + bytes
  unfolding alloc_global
  next-alloc_global = ground (
    arith,
    alloc_global-room m bytes align sound room,
    mod-eq_of_lt {n = (alloc_global m bytes align).1 + max bytes 1} {m = 2 ^ 64},
  )

-- What a successful allocation leaves, with the address it answers.
abbrev pub Malloced : ℕ → DeviceMemory × Runtime × Option ℕ × CudaError → Type 0
Malloced bytes (d, rt, out, code) =
    IsConsistent d rt
    × (code ≡ success)
    × ((p : ℕ) × (out ≡ some p) × (p % 16 ≡ 0) × (is_valid_device_range d p bytes ≡ true))

module _ (d : DeviceMemory) (rt : Runtime) (bytes : ℕ) (consistent : IsConsistent d rt)
    (room : HasRoom rt.mem bytes 16) (pos : 0 < bytes) where
  abbrev grown : AddrSpaceManager
  grown = (alloc_global rt.mem bytes 16).0

  abbrev pointer : ℕ
  pointer = (alloc_global rt.mem bytes 16).1

  abbrev entry : DeviceAllocation
  entry = record { base = pointer; bytes = bytes; align = 16 }

  kept : IsSound grown × (pointer % 16 ≡ 0) × AllBelow pointer rt.mem.allocs
  kept = alloc_global-IsSound rt.mem bytes 16 consistent.sound room

  ends : pointer + bytes < 2 ^ 64
  ends = omega (arith, alloc_global-room rt.mem bytes 16 consistent.sound room)

  past : rt.mem.next_global_addr ≤ pointer
  past = alloc_global-le rt.mem bytes 16 consistent.sound room

  old_table : Backed grown.allocs 0x1000 d rt.mem.next_global_addr
  unfolding alloc_global
  old_table = Backed-more rt.mem.allocs 0x1000 d rt.mem.next_global_addr _ consistent.backed

  new_table : Backed grown.allocs 0x1000 (put_allocation pointer entry d) (pointer + bytes)
  new_table =
      Backed-put_allocation grown.allocs 0x1000 d rt.mem.next_global_addr entry old_table past pos (
        fresh_InAlloc rt.mem bytes 16 bytes
          (omega (arith, alloc_global-room rt.mem bytes 16 consistent.sound room)) (omega arith))

  valid : is_valid_device_range (put_allocation pointer entry d) pointer bytes ≡ true
  unfolding is_valid_device_range range_fits
  valid =
      rw
        (
          find_allocation_containing-holder grown.allocs 0x1000 (put_allocation pointer entry d)
              (pointer + bytes) pointer new_table,
          holder-put_allocation grown.allocs 0x1000 d rt.mem.next_global_addr entry pointer
              old_table past (omega arith) (omega arith),
        )
        (le→leb _ _ (omega (arith, ends)))

  -- An allocation that is not empty and has room succeeds; the tables stay consistent, and the
  -- whole range at the pointer, a multiple of 16, is valid.
  pub malloc-Malloced : Malloced bytes (malloc d rt true bytes)
  unfolding malloc device_malloc
  malloc-Malloced =
      rw (ne→== bytes 0 (omega arith), malloc)
        (
          record {
            sound = kept.0;
            backed = rw (next-alloc_global rt.mem bytes 16 consistent.sound room pos) new_table;
          },
          refl,
          (pointer, refl, kept.1, valid),
        )

IsSound-same : (m m' : AddrSpaceManager) → SameTables m m' → IsSound m → IsSound m'
IsSound-same m m' same h = record {
  ordered = rw (same.0, same.1) h.ordered;
  in_range = rw same.1 h.in_range;
}

free-IsConsistent :
    (d : DeviceMemory) (rt : Runtime) (p : ℕ) → IsConsistent d rt → IsConsistent (free d p).0 rt
free-IsConsistent d rt p h = record {
  sound = h.sound;
  backed = Backed-free rt.mem.allocs 0x1000 d _ h.backed p;
}

same-IsConsistent :
    (d : DeviceMemory) (rt rt' : Runtime)
    → SameTables rt.mem rt'.mem
    → IsConsistent d rt
    → IsConsistent d rt'
same-IsConsistent d rt rt' same h = record {
  sound = IsSound-same rt.mem rt'.mem same h.sound;
  backed = rw (same.0, same.1) h.backed;
}

-- The calls that change the tables or the memories. An allocation is one that has room; one that is
-- cut short throws.
pub data Call : DeviceMemory → World → DeviceMemory → World → Type 0 where
  mallocs :
      (d : DeviceMemory) (w : World) (bytes : ℕ)
      → HasRoom w.rt.mem bytes 16
      → Call d w (malloc d w.rt true bytes).0 (record w { rt = (malloc d w.rt true bytes).1 })
  frees : (d : DeviceMemory) (w : World) (p : ℕ) → Call d w (free d p).0 w
  cut_short :
      (d : DeviceMemory) (w : World) (t : Thrown) (bytes : ℕ)
      → HasRoom w.rt.mem bytes 16
      → Call d w d (malloc_throws w t bytes).0
  copies :
      (d : DeviceMemory) (w : World) (kind : MemcpyKind) (dst src n : ℕ)
      → Call d w d (memcpy kind d w dst src n).0

pub data Calls (d : DeviceMemory) (w : World) : DeviceMemory → World → Type 0 where
  none_yet : Calls d w d w
  after :
      {d' d'' : DeviceMemory} {w' w'' : World}
      → Calls d w d' w'
      → Call d' w' d'' w''
      → Calls d w d'' w''

next-alloc_global-le :
    (m : AddrSpaceManager) (bytes : ℕ)
    → IsSound m
    → HasRoom m bytes 16
    → m.next_global_addr ≤ (alloc_global m bytes 16).0.next_global_addr
unfolding alloc_global
next-alloc_global-le m bytes sound room = ground (
  arith,
  alloc_global-le m bytes 16 sound room,
  alloc_global-room m bytes 16 sound room,
  mod-eq_of_lt {n = (alloc_global m bytes 16).1 + max bytes 1} {m = 2 ^ 64},
)

malloc_throws-IsConsistent :
    (d : DeviceMemory) (w : World) (t : Thrown) (bytes : ℕ)
    → IsConsistent d w.rt
    → HasRoom w.rt.mem bytes 16
    → IsConsistent d (malloc_throws w t bytes).0.rt
unfolding malloc_throws device_malloc alloc_global
malloc_throws-IsConsistent d w (in_alloc_global text) bytes h room =
    let m = w.rt.mem in
    let le = next-alloc_global-le m bytes h.sound room in
    record {
      sound = record {
        ordered = Ordered-raise 0x1000 m.allocs m.next_global_addr _ le h.sound.ordered;
        in_range = (alloc_global-IsSound m bytes 16 h.sound room).0.in_range;
      };
      backed = Backed-raise m.allocs 0x1000 d m.next_global_addr _ le h.backed;
    }
malloc_throws-IsConsistent d w (in_table text) bytes h room =
    let m = w.rt.mem in
    let le = next-alloc_global-le m bytes h.sound room in
    record {
      sound = (alloc_global-IsSound m bytes 16 h.sound room).0;
      backed = listed m bytes (Backed-raise m.allocs 0x1000 d m.next_global_addr _ le h.backed);
    }
  where
    listed :
        (m : AddrSpaceManager) (n : ℕ)
        → Backed m.allocs 0x1000 d (alloc_global m n 16).0.next_global_addr
        → Backed (alloc_global m n 16).0.allocs 0x1000 d (alloc_global m n 16).0.next_global_addr
    listed m n b = Backed-more m.allocs 0x1000 d _ _ b

malloc-IsConsistent :
    (d : DeviceMemory) (rt : Runtime) (bytes : ℕ)
    → IsConsistent d rt
    → HasRoom rt.mem bytes 16
    → IsConsistent (malloc d rt true bytes).0 (malloc d rt true bytes).1
unfolding malloc
malloc-IsConsistent d rt bytes h room = elim (Bool-cases (bytes == 0)) [
  | inl e ↦ rw (e, malloc) h
  | inr e ↦ (malloc-Malloced d rt bytes h room (ground (arith, ==→ne bytes 0 e))).0
]

Call-IsConsistent :
    {d : DeviceMemory} {w : World} {d' : DeviceMemory} {w' : World}
    → Call d w d' w'
    → IsConsistent d w.rt
    → IsConsistent d' w'.rt
Call-IsConsistent (mallocs d w bytes room) h = malloc-IsConsistent d w.rt bytes h room
Call-IsConsistent (cut_short d w t bytes room) h = malloc_throws-IsConsistent d w t bytes h room
Call-IsConsistent (frees d w p) h = free-IsConsistent d w.rt p h
Call-IsConsistent (copies d w kind dst src n) h =
    same-IsConsistent d w.rt _ (memcpy-KeepsTables w kind d dst src n) h

-- Over any sequence of allocations that have room, frees and copies, failed ones included, every
-- allocation of the shim stays in an allocation of device memory, apart from the others.
pub Calls-IsConsistent :
    {d : DeviceMemory} {w : World} {d' : DeviceMemory} {w' : World}
    → IsConsistent d w.rt
    → Calls d w d' w'
    → IsConsistent d' w'.rt
Calls-IsConsistent h none_yet = h
Calls-IsConsistent h (after before call) = Call-IsConsistent call (Calls-IsConsistent h before)

module _ (d : DeviceMemory) (w : World) (h : IsConsistent d w.rt) where
  -- Bytes of the host that are copied to a valid range of the device and back are the same, and
  -- both copies succeed.
  pub memcpy-ComesBack :
      (dev src out n : ℕ)
      → dev ≢ 0
      → src ≢ 0
      → out ≢ 0
      → 0 < n
      → dev + n < 2 ^ 64
      → is_valid_device_range d dev n ≡ true
      → ComesBack d w dev src out n
  memcpy-ComesBack dev src out n dev_set src_set out_set pos room valid =
      copies-ComesBack d w dev src out dev_set src_set out_set n pos (omega arith) valid
        (λ bytes len. written bytes len)
    where
      written :
          (bytes : List ℕ)
          → length bytes ≡ n
          → ((write_global w.rt.mem dev bytes).1 ≡ true)
            × (read_global (write_global w.rt.mem dev bytes).0 dev n ≡ some bytes)
      written bytes len = rw (← len) (
          write_global-InAlloc w.rt.mem dev bytes (omega (arith, len)) (
            rw len
              (is_valid_device_range-InAlloc w.rt.mem.allocs 0x1000 d _ dev n h.backed room valid)))

  -- After a free no address of the freed allocation is valid, and a lookup of any other address is
  -- unchanged.
  pub find_allocation_containing-free :
      (p x : ℕ)
      → find_allocation_containing (free d p).0 x ≡ without p (find_allocation_containing d x)
  find_allocation_containing-free p x =
      find-free w.rt.mem.allocs 0x1000 d _ h.backed p x (omega arith)
