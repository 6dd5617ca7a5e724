-- ===== src/Memory/Bytes.antt =====
-- Reads and writes of global memory.
use proto_gpu.Prelude.{
  ℕ, zero, suc, ◌+◌, ◌^◌, ◌≤◌, ◌<◌, ◌≡◌, refl, ap, ap₂, ◌∙◌, ◌⊎◌, inl, inr, max, true, false,
  Option, some, List, [], ◌∷◌, ◌++◌, arith, ◌==◌, length, Bool-cases, ==→eq,
}
use proto_gpu.Contracts.Words.{to_u64}
use proto_gpu.Memory.Alloc.{IsSound, HasRoom, alloc_global-room}
use proto_gpu.Memory.{
  Allocation, AddrSpaceManager, alloc_global, write_bytes, read_bytes, byte_or_zero, put_byte,
  write_global, read_global, global_range_allocated, some_alloc_holds, holds,
}

-- A write leaves what lies outside its range.
write_bytes_outside :
    (mem : ℕ → Option ℕ) (addr : ℕ) (bytes : List ℕ) (x : ℕ)
    → addr + length bytes < 2 ^ 64
    → (x < addr) ⊎ (addr + length bytes ≤ x)
    → write_bytes mem addr bytes x ≡ mem x
unfolding write_bytes
write_bytes_outside mem addr [] x room out = refl
write_bytes_outside mem addr (b ∷ bytes) x room out =
    write_bytes_outside (put_byte mem addr b) (to_u64 (addr + 1)) bytes x (omega arith)
      (ground arith)
    ∙ ground arith

read_bytes-write_bytes :
    (mem : ℕ → Option ℕ) (addr : ℕ) (bytes : List ℕ)
    → addr + length bytes < 2 ^ 64
    → read_bytes (write_bytes mem addr bytes) addr (length bytes) ≡ bytes
unfolding write_bytes read_bytes
read_bytes-write_bytes mem addr [] room = refl
read_bytes-write_bytes mem addr (b ∷ bytes) room =
    ap₂ ◌∷◌ first
      (read_bytes-write_bytes (put_byte mem addr b) (to_u64 (addr + 1)) bytes (omega arith))
  where
    first : byte_or_zero (write_bytes mem addr (b ∷ bytes) addr) ≡ b
    first =
        ap byte_or_zero (
          write_bytes_outside (put_byte mem addr b) (to_u64 (addr + 1)) bytes addr (omega arith)
            (omega arith))
        ∙ ground arith

read_bytes-ext :
    (mem mem' : ℕ → Option ℕ) (addr size : ℕ)
    → addr + size < 2 ^ 64
    → ((x : ℕ) → addr ≤ x → x < addr + size → mem x ≡ mem' x)
    → read_bytes mem addr size ≡ read_bytes mem' addr size
unfolding read_bytes
read_bytes-ext mem mem' addr zero room same = refl
read_bytes-ext mem mem' addr (suc size) room same =
    ap₂ ◌∷◌ (ap byte_or_zero (same addr (omega arith) (omega arith))) (
      read_bytes-ext mem mem' (to_u64 (addr + 1)) size (omega arith)
        (λ x lo hi. same x (omega arith) (omega arith)))

-- The range lies in one allocation that does not run past the end of the address space.
abbrev pub InAlloc : List Allocation → ℕ → ℕ → Type 0
InAlloc [] addr size = ⊥
InAlloc (a ∷ rest) addr size =
    ((a.base ≤ addr) × (addr + size ≤ a.base + a.size) × (a.base + a.size < 2 ^ 64))
    ⊎ InAlloc rest addr size

some_alloc_holds_of :
    (xs : List Allocation) (addr size : ℕ)
    → InAlloc xs addr size
    → some_alloc_holds xs addr (addr + size) ≡ true
unfolding some_alloc_holds holds
some_alloc_holds_of [] addr size h = absurd h
some_alloc_holds_of (a ∷ rest) addr size (inl h) = ground arith
some_alloc_holds_of (a ∷ rest) addr size (inr h) =
    ground (arith, some_alloc_holds_of rest addr size h)

-- A range is accepted if it lies in an allocation.
pub allocated_of_InAlloc :
    (m : AddrSpaceManager) (addr size : ℕ)
    → addr + size < 2 ^ 64
    → InAlloc m.allocs addr size
    → global_range_allocated m addr size ≡ true
unfolding global_range_allocated
allocated_of_InAlloc m addr size room h = ground (arith, some_alloc_holds_of m.allocs addr size h)

-- An accepted range ends before the address space does.
range_room :
    (m : AddrSpaceManager) (addr size : ℕ)
    → addr < 2 ^ 64
    → size < 2 ^ 64
    → global_range_allocated m addr size ≡ true
    → addr + size < 2 ^ 64
unfolding global_range_allocated
range_room m addr size ha hs h = elim (Bool-cases (size == 0)) [
  | inl e ↦ omega (arith, ==→eq size 0 e)
  | inr e ↦ ground arith
]

-- The bytes do not decide which ranges are allocated.
same_ranges :
    (m : AddrSpaceManager) (g : ℕ → Option ℕ) (addr size : ℕ)
    → global_range_allocated (record m { global_bytes = g }) addr size
      ≡ global_range_allocated m addr size
unfolding global_range_allocated
same_ranges m g addr size = refl

module _ (m : AddrSpaceManager) (addr : ℕ) (bytes : List ℕ) (room : addr + length bytes < 2 ^ 64)
    (accepted : global_range_allocated m addr (length bytes) ≡ true) where
  abbrev written : AddrSpaceManager
  written = record m { global_bytes = write_bytes m.global_bytes addr bytes }

  read_back : read_global written addr (length bytes) ≡ some bytes
  unfolding read_global
  read_back =
      rw (same_ranges m (write_bytes m.global_bytes addr bytes) addr (length bytes), accepted)
        (ap some (read_bytes-write_bytes m.global_bytes addr bytes room))

  read_apart :
      (other size : ℕ)
      → other < 2 ^ 64
      → size < 2 ^ 64
      → (other + size ≤ addr) ⊎ (addr + length bytes ≤ other)
      → read_global written other size ≡ read_global m other size
  unfolding read_global
  read_apart other size ho hs out =
      rw (same_ranges m (write_bytes m.global_bytes addr bytes) other size)
        (elim (Bool-cases (global_range_allocated m other size)) [
          | inr none_there ↦ rw none_there refl
          | inl ok ↦ rw ok (
              ap some (
                read_bytes-ext (write_bytes m.global_bytes addr bytes) m.global_bytes other size
                  (range_room m other size ho hs ok)
                  (λ x lo hi. write_bytes_outside m.global_bytes addr bytes x room (omega arith))))
        ])

-- What a write that is accepted stored is read back, a write that is refused changes nothing, and
-- either way a read of a range apart from the written one is unchanged.
pub read_global-write_global :
    (m : AddrSpaceManager) (addr : ℕ) (bytes : List ℕ) (other size : ℕ)
    → addr < 2 ^ 64
    → length bytes < 2 ^ 64
    → other < 2 ^ 64
    → size < 2 ^ 64
    → (other + size ≤ addr) ⊎ (addr + length bytes ≤ other)
    → let (m', done) = write_global m addr bytes in
      (((done ≡ true) × (read_global m' addr (length bytes) ≡ some bytes))
        ⊎ ((done ≡ false) × (m' ≡ m)))
      × (read_global m' other size ≡ read_global m other size)
unfolding write_global
read_global-write_global m addr bytes other size ha hl ho hs out =
    elim (Bool-cases (global_range_allocated m addr (length bytes))) [
      | inl ok ↦
          let room = range_room m addr (length bytes) ha hl ok in
          rw (ok, write_global)
            (
              inl (refl, read_back m addr bytes room ok),
              read_apart m addr bytes room ok other size ho hs out,
            )
      | inr refused ↦ rw (refused, write_global) (inr (refl, refl), refl)
    ]

InAlloc-append :
    (xs : List Allocation) (a : Allocation) (addr size : ℕ)
    → InAlloc (a ∷ []) addr size
    → InAlloc (xs ++ a ∷ []) addr size
InAlloc-append [] a addr size h = h
InAlloc-append (x ∷ xs) a addr size h = inr (InAlloc-append xs a addr size h)

pub fresh_InAlloc :
    (m : AddrSpaceManager) (size align n : ℕ)
    → (alloc_global m size align).1 + max size 1 < 2 ^ 64
    → n ≤ size
    → InAlloc (alloc_global m size align).0.allocs (alloc_global m size align).1 n
unfolding alloc_global
fresh_InAlloc m size align n room le =
    InAlloc-append m.allocs (record { base = _; size = size }) _ n
      (inl (omega arith, omega arith, omega arith))

-- A fresh allocation can be written to and read back within its size.
pub write_global-alloc_global :
    (m : AddrSpaceManager) (size align : ℕ) (bytes : List ℕ)
    → IsSound m
    → HasRoom m size (max align 1)
    → length bytes ≤ size
    → let (m', base) = alloc_global m size align in
      ((write_global m' base bytes).1 ≡ true)
      × (read_global (write_global m' base bytes).0 base (length bytes) ≡ some bytes)
unfolding write_global read_global
write_global-alloc_global m size align bytes sound room le =
    rw (accepted, write_global)
      (
        refl,
        read_back (alloc_global m size align).0 (alloc_global m size align).1 bytes short accepted,
      )
  where
    fits : (alloc_global m size align).1 + max size 1 < 2 ^ 64
    fits = alloc_global-room m size align sound room

    short : (alloc_global m size align).1 + length bytes < 2 ^ 64
    short = omega (arith, fits)

    accepted :
        global_range_allocated
          (alloc_global m size align).0
          (alloc_global m size align).1
          (length bytes)
        ≡ true
    accepted =
        allocated_of_InAlloc _ _ (length bytes) short
          (fresh_InAlloc m size align (length bytes) fits le)

-- A write in an allocation is accepted and read back.
pub write_global-InAlloc :
    (m : AddrSpaceManager) (addr : ℕ) (bytes : List ℕ)
    → addr + length bytes < 2 ^ 64
    → InAlloc m.allocs addr (length bytes)
    → ((write_global m addr bytes).1 ≡ true)
      × (read_global (write_global m addr bytes).0 addr (length bytes) ≡ some bytes)
unfolding write_global read_global
write_global-InAlloc m addr bytes room h =
    let accepted = allocated_of_InAlloc m addr (length bytes) room h in
    rw (accepted, write_global) (refl, read_back m addr bytes room accepted)
