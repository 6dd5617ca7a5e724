-- ===== src/Memory/Alloc.antt =====
-- Allocation: every allocation is aligned, fresh and apart from the others, while the address
-- space lasts.
use native.Mathlib.Nat.{mod-lt, mod-eq_of_lt, div-add-mod, mul-mod_right}
use proto_gpu.Prelude.{
  ℕ, ◌+◌, ◌-◌, ◌*◌, ◌/◌, ◌%◌, ◌^◌, ◌≤◌, ◌<◌, ◌≡◌, ap, inl, inr, max, Bool-cases, ==→eq, ==→ne, List,
  [], ◌∷◌, ◌++◌, arith, ◌==◌, if◌then◌else◌,
}
use proto_gpu.Contracts.Words.{to_u64}
use proto_gpu.Memory.{Allocation, AddrSpaceManager, align_up, alloc_global}

-- The allocation with the padding byte of an empty one.
abbrev pub past : Allocation → ℕ
past a = a.base + max a.size 1

-- Each allocation starts past the ones before it, and `next` is past them all.
abbrev pub Ordered : ℕ → List Allocation → ℕ → Type 0
Ordered lo [] next = lo ≤ next
Ordered lo (a ∷ rest) next = (lo ≤ a.base) × Ordered (past a) rest next

pub record IsSound (m : AddrSpaceManager) : Type 0 where
  pub ordered : Ordered 0x1000 m.allocs m.next_global_addr
  pub in_range : m.next_global_addr < 2 ^ 64

-- The request leaves room: neither the alignment nor the sum wraps.
abbrev pub HasRoom : AddrSpaceManager → ℕ → ℕ → Type 0
HasRoom m bytes align = m.next_global_addr + align + max bytes 1 < 2 ^ 64

next_multiple : (v a : ℕ) → 0 < a → v + (a - v % a) ≡ a * (v / a + 1)
next_multiple v a pos = omega (arith, div-add-mod v a, mod-lt v pos)

align_up_lem :
    (v a : ℕ)
    → 0 < a
    → v + a < 2 ^ 64
    → (align_up v a % a ≡ 0) × (v ≤ align_up v a) × (align_up v a < v + a)
unfolding align_up
align_up_lem v a pos room = elim (Bool-cases (v % a == 0)) [
  | inl zero ↦ ground (arith, ==→eq (v % a) 0 zero)
  | inr more ↦ ground (
    arith,
    mod-lt v pos,
    ==→ne (v % a) 0 more,
    ap (λ (t : ℕ). t % a) (next_multiple v a pos),
    mul-mod_right a (v / a + 1),
    mod-eq_of_lt {n = v + (a - v % a)} {m = 2 ^ 64} (omega (arith, mod-lt v pos)),
  )
]

Ordered-append :
    (lo : ℕ) (xs : List Allocation) (next : ℕ) (a : Allocation)
    → Ordered lo xs next
    → next ≤ a.base
    → Ordered lo (xs ++ a ∷ []) (past a)
Ordered-append lo [] next a h le = omega arith
Ordered-append lo (x ∷ xs) next a h le = (h.0, Ordered-append (past x) xs next a h.1 le)

-- Every allocation lies below `n`.
abbrev pub AllBelow : ℕ → List Allocation → Type 0
AllBelow n [] = Unit {0}
AllBelow n (a ∷ rest) = (past a ≤ n) × AllBelow n rest

Ordered-le : (lo : ℕ) (xs : List Allocation) (next : ℕ) → Ordered lo xs next → lo ≤ next
Ordered-le lo [] next h = h
Ordered-le lo (a ∷ rest) next h = omega (arith, Ordered-le (past a) rest next h.1)

pub Ordered-raise :
    (lo : ℕ) (xs : List Allocation) (next next' : ℕ)
    → next ≤ next'
    → Ordered lo xs next
    → Ordered lo xs next'
Ordered-raise lo [] next next' le h = omega arith
Ordered-raise lo (a ∷ rest) next next' le h = (h.0, Ordered-raise (past a) rest next next' le h.1)

Ordered-AllBelow :
    (lo n : ℕ) (xs : List Allocation) (next : ℕ) → Ordered lo xs next → next ≤ n → AllBelow n xs
Ordered-AllBelow lo n [] next h le = tt
Ordered-AllBelow lo n (a ∷ rest) next h le =
    (omega (arith, Ordered-le (past a) rest next h.1), Ordered-AllBelow (past a) n rest next h.1 le)

module _ (m : AddrSpaceManager) (bytes align : ℕ) (sound : IsSound m)
    (room : HasRoom m bytes (max align 1)) where
  abbrev step : ℕ
  step = if align == 0 then 1 else align

  at_base :
      (align_up m.next_global_addr step % step ≡ 0)
      × (m.next_global_addr ≤ align_up m.next_global_addr step)
      × (align_up m.next_global_addr step < m.next_global_addr + step)
  at_base = align_up_lem m.next_global_addr step (ground arith) (ground arith)

  step-max : step ≡ max align 1
  step-max = ground arith

  -- An allocation that has room keeps the manager sound, and its base is a multiple of the
  -- alignment (of 1 for alignment 0) past every earlier allocation.
  pub alloc_global-IsSound :
      IsSound (alloc_global m bytes align).0
      × ((alloc_global m bytes align).1 % (if align == 0 then 1 else align) ≡ 0)
      × AllBelow (alloc_global m bytes align).1 m.allocs
  unfolding alloc_global
  alloc_global-IsSound = (
    record {
      ordered = rw fits (
          Ordered-append 0x1000 m.allocs m.next_global_addr
            (record { base = align_up m.next_global_addr step; size = bytes }) sound.ordered
            at_base.1);
      in_range = omega arith;
    },
    at_base.0,
    Ordered-AllBelow 0x1000 _ m.allocs m.next_global_addr sound.ordered at_base.1,
  )
    where
      fits :
          to_u64 (align_up m.next_global_addr step + max bytes 1)
          ≡ align_up m.next_global_addr step + max bytes 1
      fits = mod-eq_of_lt (omega (arith, at_base.2, step-max))

  -- The base is not below the first address that was free.
  pub alloc_global-le : m.next_global_addr ≤ (alloc_global m bytes align).1
  unfolding alloc_global
  alloc_global-le = at_base.1

  -- The new range ends before the address space does.
  pub alloc_global-room : (alloc_global m bytes align).1 + max bytes 1 < 2 ^ 64
  unfolding alloc_global
  alloc_global-room = omega (arith, at_base.2, step-max)
