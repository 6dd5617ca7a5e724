-- ===== src/Memory.antt =====
-- AddrSpaceManager: include/gpusim/memory.h and src/memory/memory.cpp.
-- The mutex is left out: each method holds it from its first line to its last, so the calls of
-- several threads are some sequence of the calls below. A uint64_t sum wraps, as it does there.
pub mod Alloc
pub mod Bytes
pub mod Params
use proto_gpu.Prelude.{
  ℕ, zero, suc, ◌+◌, ◌-◌, ◌%◌, ◌^◌, max, Bool, true, false, ◌&&◌, String, str_eq, Option, none,
  some, List, [], ◌∷◌, ◌++◌, ltb, leb, ◌==◌, if◌then◌else◌, length, get_or,
}
use proto_gpu.Contracts.Words.{to_u64}

pub record Allocation : Type 0 where
  pub base : ℕ
  pub size : ℕ

pub data ParamType : Type 0 where
  u32 u64 : ParamType

pub record ParamDesc : Type 0 where
  pub name : String
  pub type : ParamType
  pub size : ℕ
  pub align : ℕ
  pub offset : ℕ

-- A byte that `global_` has no key for is `none`.
pub record AddrSpaceManager : Type 0 where
  pub next_global_addr : ℕ
  pub allocs : List Allocation
  pub global_bytes : ℕ → Option ℕ
  pub param_layout : List (String × ParamDesc)
  pub param_blob : List ℕ

abbrev pub empty : AddrSpaceManager
empty = record {
  next_global_addr = 0x1000;
  allocs = [];
  global_bytes = λ _. none;
  param_layout = [];
  param_blob = [];
}

unfoldable pub align_up : ℕ → ℕ → ℕ
align_up v a = if a == 0 then v else if v % a == 0 then v else to_u64 (v + (a - v % a))

unfoldable pub holds : Allocation → ℕ → ℕ → Bool
holds a addr end =
    let a_end = to_u64 (a.base + a.size) in
    if ltb a_end a.base then false else leb a.base addr && leb end a_end

unfoldable pub some_alloc_holds : List Allocation → ℕ → ℕ → Bool
some_alloc_holds [] addr end = false
some_alloc_holds (a ∷ rest) addr end =
    if holds a addr end then true else some_alloc_holds rest addr end

unfoldable pub global_range_allocated : AddrSpaceManager → ℕ → ℕ → Bool
global_range_allocated m addr size =
    if size == 0
    then true
    else let end = to_u64 (addr + size) in
      if ltb end addr then false else some_alloc_holds m.allocs addr end

-- The new state and the base of the allocation. The newest allocation is the last.
unfoldable pub alloc_global : AddrSpaceManager → ℕ → ℕ → AddrSpaceManager × ℕ
unfolding align_up
alloc_global m bytes align =
    let base = align_up m.next_global_addr (if align == 0 then 1 else align) in
    (
      record m {
        next_global_addr = to_u64 (base + max bytes 1);
        allocs = m.allocs ++ record { base = base; size = bytes } ∷ [];
      },
      base,
    )

abbrev pub put_byte : (ℕ → Option ℕ) → ℕ → ℕ → ℕ → Option ℕ
put_byte mem addr b x = if x == addr then some b else mem x

-- `mem[addr + i] = bytes[i]` for each i
unfoldable pub write_bytes : (ℕ → Option ℕ) → ℕ → List ℕ → ℕ → Option ℕ
write_bytes mem addr [] = mem
write_bytes mem addr (b ∷ bytes) = write_bytes (put_byte mem addr b) (to_u64 (addr + 1)) bytes

abbrev pub byte_or_zero : Option ℕ → ℕ
byte_or_zero none = 0
byte_or_zero (some b) = b

-- Bytes that were never written read as 0.
unfoldable pub read_bytes : (ℕ → Option ℕ) → ℕ → ℕ → List ℕ
read_bytes mem addr zero = []
read_bytes mem addr (suc size) = byte_or_zero (mem addr) ∷ read_bytes mem (to_u64 (addr + 1)) size

-- `false` and no change if the range is not allocated.
unfoldable pub write_global : AddrSpaceManager → ℕ → List ℕ → AddrSpaceManager × Bool
write_global m addr bytes =
    if global_range_allocated m addr (length bytes)
    then (record m { global_bytes = write_bytes m.global_bytes addr bytes }, true)
    else (m, false)

unfoldable pub read_global : AddrSpaceManager → ℕ → ℕ → Option (List ℕ)
read_global m addr size =
    if global_range_allocated m addr size then some (read_bytes m.global_bytes addr size) else none

unfoldable pub find_param : String → List (String × ParamDesc) → Option ParamDesc
find_param name [] = none
find_param name ((key, p) ∷ layout) = if str_eq key name then some p else find_param name layout

-- `emplace` keeps the entry that a key has already.
unfoldable pub emplace_all : List (String × ParamDesc) → List ParamDesc → List (String × ParamDesc)
emplace_all layout [] = layout
emplace_all layout (p ∷ rest) =
    emplace_all
      (elim (find_param p.name layout) [ none ↦ layout ++ (p.name, p) ∷ [] | some q ↦ layout ]) rest

unfoldable pub set_param_layout : AddrSpaceManager → List ParamDesc → AddrSpaceManager
set_param_layout m layout = record m { param_layout = emplace_all [] layout }

unfoldable pub set_param_blob : AddrSpaceManager → List ℕ → AddrSpaceManager
set_param_blob m blob = record m { param_blob = blob }

-- `size` bytes of the blob from `off` on
unfoldable pub blob_slice : List ℕ → ℕ → ℕ → List ℕ
blob_slice blob off zero = []
blob_slice blob off (suc size) = get_or blob off 0 ∷ blob_slice blob (to_u64 (off + 1)) size

unfoldable pub read_param_symbol : AddrSpaceManager → String → ℕ → Option (List ℕ)
read_param_symbol m name size = elim (find_param name m.param_layout) [
  | none ↦ none
  | some p ↦
      if ltb (length m.param_blob) (to_u64 (p.offset + size))
      then none
      else some (blob_slice m.param_blob p.offset size)
]
