-- ===== src/Units/Mem/RoundTrip.antt =====
-- A store to global memory and a load from where it stored (src/units/mem_unit.cpp).
use proto_gpu.Prelude.{
  ℕ, zero, suc, ◌*◌, ◌%◌, ◌^◌, ◌≤◌, ◌<◌, ◌≡◌, ◌≢◌, refl, sym, ◌∙◌, ap, subst, Bool, true, false,
  not, ◌&&◌, Option, none, some, List, ◌==◌, length, arith, Bool-cases, ◌⊎◌, inl, inr, if_no,
  if_yes,
}
use proto_gpu.Contracts.{Operand, Code, e_global_align, e_special_unknown, e_global_miss}
use proto_gpu.Warp.{WarpState, read_operand_lane}
use proto_gpu.Memory.{AddrSpaceManager, write_global, read_global}
use proto_gpu.Memory.Bytes.{read_global-write_global}
use proto_gpu.Units.Mem.{
  MemState, eval_addr_lane, pack_from, pack_le, unpack_le, st_global_lane, ld_global_lane,
  stored_or_miss, to_reg,
}
use proto_gpu.Units.Mem.LittleEndian.{unpack_le-pack_le}

length-pack_from : (v i left : ℕ) → length (pack_from v i left) ≡ left
unfolding pack_from
length-pack_from v i zero = refl
length-pack_from v i (suc left) = ap suc (length-pack_from v (suc i) left)

pub length-pack_le : (v size : ℕ) → length (pack_le v size) ≡ size
unfolding pack_le
length-pack_le v size = length-pack_from v 0 size

eval_addr_lane-lt :
    (o : Operand) (warp : WarpState) (lane : ℕ) → eval_addr_lane o warp lane < 2 ^ 64
unfolding eval_addr_lane
eval_addr_lane-lt o warp lane = omega arith

-- Where a lane stores a value of at most 8 bytes to global memory without an error, a load of the same
-- lane and size from the same address succeeds and puts the low bytes of the value in its register.
pub ld_global_lane-st_global_lane :
    (out dst val : Operand) (size lane v : ℕ) (s : MemState)
    → size ≤ 8
    → read_operand_lane val s.warp lane ≡ some v
    → (st_global_lane dst val size lane s).1 ≡ none
    → ld_global_lane out dst size lane (st_global_lane dst val size lane s).0
      ≡ (to_reg out lane (v % 2 ^ (8 * size)) (st_global_lane dst val size lane s).0, none)
unfolding st_global_lane ld_global_lane
ld_global_lane-st_global_lane out dst val size lane v s small known ok = elim (Bool-cases odd) [
  | inl e ↦
      let wrong =
        ap (λ (r : MemState × Option Code). r.1)
          (sym
            (if_yes odd (s, some e_global_align) (storing (read_operand_lane val s.warp lane)) e))
        ∙ ok in
      absurd (failed_store wrong)
  | inr e ↦
      let done =
        accepted written (ap (λ (r : MemState × Option Code). r.1) (sym (stores e)) ∙ ok) in
      subst
        (λ (r : MemState × Option Code).
          ld_global_lane out dst size lane r.0 ≡ (to_reg out lane (v % 2 ^ (8 * size)) r.0, none))
        (sym (stores e ∙ done.1)) (loads e (read_back done.0))
]
  where
    addr : ℕ
    addr = eval_addr_lane dst s.warp lane

    odd : Bool
    odd = not (size == 0) && not (addr % size == 0)

    written : AddrSpaceManager × Bool
    written = write_global s.mem addr (pack_le v size)

    after : MemState
    after = record s { mem = written.0 }

    storing : Option ℕ → MemState × Option Code
    storing o = elim o [
      | none ↦ (s, some e_special_unknown)
      | some x ↦ stored_or_miss s (write_global s.mem addr (pack_le x size))
    ]

    loading : Option (List ℕ) → MemState × Option Code
    loading o = elim o [
      | none ↦ (after, some e_global_miss)
      | some bytes ↦ (to_reg out lane (unpack_le bytes) after, none)
    ]

    failed_store : some e_global_align ≢ none
    failed_store h = absurd cc

    stores : odd ≡ false → st_global_lane dst val size lane s ≡ stored_or_miss s written
    stores e =
        if_no odd (s, some e_global_align) (storing (read_operand_lane val s.warp lane)) e
        ∙ ap storing known

    accepted :
        (r : AddrSpaceManager × Bool)
        → (stored_or_miss s r).1 ≡ none
        → (r.1 ≡ true) × (stored_or_miss s r ≡ (record s { mem = r.0 }, none))
    accepted (mem, true) h = (refl, refl)
    accepted (mem, false) h = absurd cc

    read_back : written.1 ≡ true → read_global written.0 addr size ≡ some (pack_le v size)
    read_back h =
        ap (read_global written.0 addr) (sym (length-pack_le v size))
        ∙ was_read
            (read_global-write_global s.mem addr (pack_le v size) addr 0
              (eval_addr_lane-lt dst s.warp lane) (omega (arith, length-pack_le v size))
              (eval_addr_lane-lt dst s.warp lane) (omega arith) (inl (omega arith))).0
      where
        apart : true ≢ false
        apart e = absurd cc

        was_read :
            ((written.1 ≡ true)
                × (read_global written.0 addr (length (pack_le v size)) ≡ some (pack_le v size)))
              ⊎ ((written.1 ≡ false) × (written.0 ≡ s.mem))
            → read_global written.0 addr (length (pack_le v size)) ≡ some (pack_le v size)
        was_read (inl g) = g.1
        was_read (inr g) = absurd (apart (sym h ∙ g.0))

    loads :
        odd ≡ false
        → read_global written.0 addr size ≡ some (pack_le v size)
        → ld_global_lane out dst size lane after
          ≡ (to_reg out lane (v % 2 ^ (8 * size)) after, none)
    loads e h =
        if_no odd (after, some e_global_align) (loading (read_global written.0 addr size)) e
        ∙ ap loading h
        ∙ ap (λ x. (to_reg out lane x after, none)) (unpack_le-pack_le v size small)
