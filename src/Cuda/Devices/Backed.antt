-- ===== src/Cuda/Devices/Backed.antt =====
-- Every allocation of the shim lies in one of device memory, apart from the others.
use proto_gpu.Prelude.{
  ℕ, ◌+◌, ◌^◌, ◌≤◌, ◌<◌, ◌≡◌, refl, ap, sym, ◌∙◌, ◌⊎◌, inl, inr, ◌&&◌, true, false, Option, none,
  some, List, [], ◌∷◌, ◌++◌, arith, ◌==◌, if◌then◌else◌, ltb, leb, Bool-cases, ==→eq, ne→==, le→ltb,
}
use proto_gpu.Memory.{Allocation}
use proto_gpu.Memory.Bytes.{InAlloc}
use proto_gpu.Cuda.Devices.{
  DeviceMemory, DeviceAllocation, entry_before, containing, find_allocation_containing, range_fits,
  is_valid_device_range, put_allocation, has_key, erase_key, free,
}

-- From `lo` up to `next` the entries follow one another by their keys, each not empty and within
-- one allocation of device memory.
abbrev pub Backed : List Allocation → ℕ → DeviceMemory → ℕ → Type 0
Backed allocs lo [] next = lo ≤ next
Backed allocs lo ((k, a) ∷ rest) next =
    (a.base ≡ k)
    × (lo ≤ k)
    × (0 < a.bytes)
    × InAlloc allocs k a.bytes
    × Backed allocs (k + a.bytes) rest next

-- The allocation that an address lies in.
abbrev pub holder : DeviceMemory → ℕ → Option DeviceAllocation
holder [] x = none
holder ((k, a) ∷ rest) x = if leb k x && ltb x (k + a.bytes) then some a else holder rest x

abbrev or_holder : Option DeviceAllocation → DeviceMemory → ℕ → Option DeviceAllocation
or_holder none d x = holder d x
or_holder (some a) d x = some a

abbrev EndsBy : ℕ → Option DeviceAllocation → Type 0
EndsBy lo none = Unit {0}
EndsBy lo (some a) = a.base + a.bytes ≤ lo

holder_below :
    (allocs : List Allocation) (lo : ℕ) (d : DeviceMemory) (next x : ℕ)
    → Backed allocs lo d next
    → x < lo
    → holder d x ≡ none
holder_below allocs lo [] next x h lt = refl
holder_below allocs lo ((k, a) ∷ rest) next x h lt =
    ground (arith, holder_below allocs (k + a.bytes) rest next x h.4 (omega (arith, h.1)))

containing-entry_before :
    (allocs : List Allocation) (lo : ℕ) (d : DeviceMemory) (next x : ℕ)
    (best : Option DeviceAllocation)
    → Backed allocs lo d next
    → EndsBy lo best
    → containing (entry_before d x best) x ≡ or_holder (containing best x) d x
unfolding containing entry_before
containing-entry_before allocs lo [] next x none h hb = refl
containing-entry_before allocs lo [] next x (some b) h hb = ground arith
containing-entry_before allocs lo ((k, a) ∷ rest) next x none h hb = ground (
  arith,
  containing-entry_before allocs (k + a.bytes) rest next x (some a) h.4 (omega (arith, h.0)),
  holder_below allocs (k + a.bytes) rest next x h.4,
)
containing-entry_before allocs lo ((k, a) ∷ rest) next x (some b) h hb = ground (
  arith,
  containing-entry_before allocs (k + a.bytes) rest next x (some a) h.4 (omega (arith, h.0)),
  holder_below allocs (k + a.bytes) rest next x h.4,
)

-- The search by keys finds the allocation that the address lies in.
pub find_allocation_containing-holder :
    (allocs : List Allocation) (lo : ℕ) (d : DeviceMemory) (next x : ℕ)
    → Backed allocs lo d next
    → find_allocation_containing d x ≡ holder d x
unfolding find_allocation_containing containing
find_allocation_containing-holder allocs lo d next x h =
    containing-entry_before allocs lo d next x none h tt

InAlloc-within :
    (allocs : List Allocation) (base size addr n : ℕ)
    → InAlloc allocs base size
    → base ≤ addr
    → addr + n ≤ base + size
    → InAlloc allocs addr n
InAlloc-within [] base size addr n h lo hi = h
InAlloc-within (a ∷ rest) base size addr n (inl h) lo hi = inl (omega arith, omega arith, h.2)
InAlloc-within (a ∷ rest) base size addr n (inr h) lo hi =
    inr (InAlloc-within rest base size addr n h lo hi)

range_fits-InAlloc :
    (allocs : List Allocation) (lo : ℕ) (d : DeviceMemory) (next x n : ℕ)
    → Backed allocs lo d next
    → x + n < 2 ^ 64
    → range_fits (holder d x) x n ≡ true
    → InAlloc allocs x n
unfolding range_fits
range_fits-InAlloc allocs lo [] next x n h room ok = cc
range_fits-InAlloc allocs lo ((k, a) ∷ rest) next x n h room ok =
    elim (Bool-cases (leb k x && ltb x (k + a.bytes))) [
      | inl e ↦ InAlloc-within allocs k a.bytes x n h.3 (ground arith) (ground arith)
      | inr e ↦ range_fits-InAlloc allocs (k + a.bytes) rest next x n h.4 room (ground arith)
    ]

-- A range that the shim accepts lies in one allocation of device memory.
pub is_valid_device_range-InAlloc :
    (allocs : List Allocation) (lo : ℕ) (d : DeviceMemory) (next x n : ℕ)
    → Backed allocs lo d next
    → x + n < 2 ^ 64
    → is_valid_device_range d x n ≡ true
    → InAlloc allocs x n
unfolding is_valid_device_range
is_valid_device_range-InAlloc allocs lo d next x n h room ok =
    range_fits-InAlloc allocs lo d next x n h room (
      ap (λ (t : Option DeviceAllocation). range_fits t x n)
        (sym (find_allocation_containing-holder allocs lo d next x h))
      ∙ ok)

-- What is left of a lookup when the allocation at `p` is gone.
abbrev pub without : ℕ → Option DeviceAllocation → Option DeviceAllocation
without p none = none
without p (some a) = if a.base == p then none else some a

without-holder_below :
    (allocs : List Allocation) (lo : ℕ) (d : DeviceMemory) (next p x : ℕ)
    → Backed allocs lo d next
    → p < lo
    → without p (holder d x) ≡ holder d x
without-holder_below allocs lo [] next p x h lt = refl
without-holder_below allocs lo ((k, a) ∷ rest) next p x h lt =
    ground
      (arith, h.0, without-holder_below allocs (k + a.bytes) rest next p x h.4 (omega (arith, h.1)))

holder-erase_key :
    (allocs : List Allocation) (lo : ℕ) (d : DeviceMemory) (next p x : ℕ)
    → Backed allocs lo d next
    → holder (erase_key p d) x ≡ without p (holder d x)
unfolding erase_key
holder-erase_key allocs lo [] next p x h = refl
holder-erase_key allocs lo ((k, a) ∷ rest) next p x h = ground (
  arith,
  h.0,
  holder-erase_key allocs (k + a.bytes) rest next p x h.4,
  without-holder_below allocs (k + a.bytes) rest next p x h.4,
  holder_below allocs (k + a.bytes) rest next x h.4,
)

without-holder_no_key :
    (allocs : List Allocation) (lo : ℕ) (d : DeviceMemory) (next p x : ℕ)
    → Backed allocs lo d next
    → has_key p d ≡ false
    → without p (holder d x) ≡ holder d x
unfolding has_key
without-holder_no_key allocs lo [] next p x h absent = refl
without-holder_no_key allocs lo ((k, a) ∷ rest) next p x h absent =
    ground (arith, h.0, without-holder_no_key allocs (k + a.bytes) rest next p x h.4)

Backed-le :
    (allocs : List Allocation) (lo : ℕ) (d : DeviceMemory) (next : ℕ)
    → Backed allocs lo d next
    → lo ≤ next
Backed-le allocs lo [] next h = h
Backed-le allocs lo ((k, a) ∷ rest) next h =
    omega (arith, h.1, Backed-le allocs (k + a.bytes) rest next h.4)

pub Backed-raise :
    (allocs : List Allocation) (lo : ℕ) (d : DeviceMemory) (next next' : ℕ)
    → next ≤ next'
    → Backed allocs lo d next
    → Backed allocs lo d next'
Backed-raise allocs lo [] next next' le h = omega arith
Backed-raise allocs lo ((k, a) ∷ rest) next next' le h =
    (h.0, h.1, h.2, h.3, Backed-raise allocs (k + a.bytes) rest next next' le h.4)

Backed-lower :
    (allocs : List Allocation) (lo hi : ℕ) (d : DeviceMemory) (next : ℕ)
    → lo ≤ hi
    → Backed allocs hi d next
    → Backed allocs lo d next
Backed-lower allocs lo hi [] next le h = omega arith
Backed-lower allocs lo hi ((k, a) ∷ rest) next le h = (h.0, omega (arith, h.1), h.2, h.3, h.4)

Backed-erase_key :
    (allocs : List Allocation) (lo : ℕ) (d : DeviceMemory) (next p : ℕ)
    → Backed allocs lo d next
    → Backed allocs lo (erase_key p d) next
unfolding erase_key
Backed-erase_key allocs lo [] next p h = h
Backed-erase_key allocs lo ((k, a) ∷ rest) next p h = elim (Bool-cases (k == p)) [
  | inl e ↦
      rw (e, erase_key) (Backed-lower allocs lo (k + a.bytes) rest next (omega (arith, h.1)) h.4)
  | inr e ↦
      rw (e, erase_key) (h.0, h.1, h.2, h.3, Backed-erase_key allocs (k + a.bytes) rest next p h.4)
]

free_cases :
    (d : DeviceMemory) (p : ℕ)
    → ((free d p).0 ≡ erase_key p d) ⊎ (((free d p).0 ≡ d) × ((p ≡ 0) ⊎ (has_key p d ≡ false)))
unfolding free
free_cases d p = elim (Bool-cases (p == 0)) [
  | inl e ↦ inr (ground arith, inl (==→eq p 0 e))
  | inr ne ↦ elim (Bool-cases (has_key p d)) [
    | inl e ↦ inl (ground arith)
    | inr e ↦ inr (ground arith, inr e)
  ]
]

module _ (allocs : List Allocation) (lo : ℕ) (d : DeviceMemory) (next : ℕ)
    (h : Backed allocs lo d next) where
  pub Backed-free : (p : ℕ) → Backed allocs lo (free d p).0 next
  Backed-free p = elim (free_cases d p) [
    | inl e ↦ rw e (Backed-erase_key allocs lo d next p h)
    | inr same ↦ rw same.0 h
  ]

  holder-free : (p x : ℕ) → 0 < lo → holder (free d p).0 x ≡ without p (holder d x)
  holder-free p x pos = elim (free_cases d p) [
    | inl e ↦ rw e (holder-erase_key allocs lo d next p x h)
    | inr same ↦ rw same.0 (
        sym (elim same.1 [
          | inl zero_p ↦ without-holder_below allocs lo d next p x h (omega arith)
          | inr absent ↦ without-holder_no_key allocs lo d next p x h absent
        ]))
  ]

  -- An address of the allocation that is freed is in no allocation any more, and every other
  -- address is where it was.
  pub find-free :
      (p x : ℕ)
      → 0 < lo
      → find_allocation_containing (free d p).0 x ≡ without p (find_allocation_containing d x)
  find-free p x pos =
      find_allocation_containing-holder allocs lo (free d p).0 next x (Backed-free p)
      ∙ holder-free p x pos
      ∙ ap (without p) (sym (find_allocation_containing-holder allocs lo d next x h))

InAlloc-more :
    (allocs : List Allocation) (b : Allocation) (addr n : ℕ)
    → InAlloc allocs addr n
    → InAlloc (allocs ++ b ∷ []) addr n
InAlloc-more [] b addr n h = absurd h
InAlloc-more (a ∷ rest) b addr n (inl h) = inl h
InAlloc-more (a ∷ rest) b addr n (inr h) = inr (InAlloc-more rest b addr n h)

-- An allocation more of device memory takes none away.
pub Backed-more :
    (allocs : List Allocation) (lo : ℕ) (d : DeviceMemory) (next : ℕ) (b : Allocation)
    → Backed allocs lo d next
    → Backed (allocs ++ b ∷ []) lo d next
Backed-more allocs lo [] next b h = h
Backed-more allocs lo ((k, a) ∷ rest) next b h = (
  h.0,
  h.1,
  h.2,
  InAlloc-more allocs b k a.bytes h.3,
  Backed-more allocs (k + a.bytes) rest next b h.4,
)

pub Backed-put_allocation :
    (allocs : List Allocation) (lo : ℕ) (d : DeviceMemory) (next : ℕ) (a : DeviceAllocation)
    → Backed allocs lo d next
    → next ≤ a.base
    → 0 < a.bytes
    → InAlloc allocs a.base a.bytes
    → Backed allocs lo (put_allocation a.base a d) (a.base + a.bytes)
unfolding put_allocation
Backed-put_allocation allocs lo [] next a h le pos there =
    (refl, omega arith, pos, there, omega arith)
Backed-put_allocation allocs lo ((k, b) ∷ rest) next a h le pos there =
    let past = Backed-le allocs (k + b.bytes) rest next h.4 in
    rw
      (
        le→ltb a.base k (omega (arith, past)),
        ne→== k a.base (omega (arith, past, h.2)),
        put_allocation,
      )
      (h.0, h.1, h.2, h.3, Backed-put_allocation allocs (k + b.bytes) rest next a h.4 le pos there)

-- A new allocation past the others holds its addresses.
pub holder-put_allocation :
    (allocs : List Allocation) (lo : ℕ) (d : DeviceMemory) (next : ℕ) (a : DeviceAllocation) (x : ℕ)
    → Backed allocs lo d next
    → next ≤ a.base
    → a.base ≤ x
    → x < a.base + a.bytes
    → holder (put_allocation a.base a d) x ≡ some a
unfolding put_allocation
holder-put_allocation allocs lo [] next a x h le from to = ground arith
holder-put_allocation allocs lo ((k, b) ∷ rest) next a x h le from to =
    let past = Backed-le allocs (k + b.bytes) rest next h.4 in
    rw
      (
        le→ltb a.base k (omega (arith, past)),
        ne→== k a.base (omega (arith, past, h.2)),
        put_allocation,
      )
      (ground (arith, past, holder-put_allocation allocs (k + b.bytes) rest next a x h.4))
