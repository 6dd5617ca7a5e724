-- ===== src/Warp/Regs.antt =====
-- The register file: what a write to one lane of one register does to every later read.
use native.Mathlib.Nat.{mod-eq_of_lt, mul-add-mod_self_right}
use proto_gpu.Prelude.{
  ℕ, ◌+◌, ◌*◌, ◌%◌, ◌^◌, ◌≤◌, ◌<◌, ◌≡◌, refl, ap, ◌≢◌, false, String, arith, leb, ◌==◌,
  if◌then◌else◌, List, get_or, resize, get_or-set, get_or-resize, length-resize, if_elim, ne→==,
  ==→ne, ==→eq, Bool-cases, ◌⊎◌, inl, inr,
}
use proto_gpu.Contracts.{Operand, OperandKind}
use proto_gpu.Contracts.Words.{to_u32}
use proto_gpu.Warp.{
  WarpState, is_wide, reg_of, reg_lane_index, read_reg_lane, write_reg_lane, store_at,
  read_special_u32, read_operand_lane,
}

-- A store is seen at its index and nowhere else, whether or not the vector grew.
pub get_or-store_at :
    (v : List ℕ) (i j x : ℕ) → get_or (store_at v i x) j 0 ≡ (if i == j then x else get_or v j 0)
unfolding store_at
get_or-store_at v i j x = ground (
  arith,
  get_or-set (resize v (i + 1)) i j x 0,
  length-resize v (i + 1),
  get_or-resize v (i + 1) j,
  get_or-set v i j x 0,
)

-- The cells of the register lie within the address range of a size_t.
abbrev pub Fits : ℕ → Operand → Type 0
Fits warp_size o = reg_of o * warp_size + warp_size ≤ 2 ^ 64

index_exact : (r l w : ℕ) → r * w + w ≤ 2 ^ 64 → l < w → reg_lane_index r l w ≡ r * w + l
unfolding reg_lane_index
index_exact r l w fits inside = mod-eq_of_lt (omega arith)

mul_cancel : (w : ℕ) → 0 < w → (r q : ℕ) → r * w ≡ q * w → r ≡ q
mul_cancel w pos r q e = grind arith

-- Two lanes never share a cell, not even of different registers.
cell-ne : (r q l k w : ℕ) → l < w → k < w → l ≢ k → r * w + l ≢ q * w + k
cell-ne r q l k w hl hk ne e = ne same
  where
    same : l ≡ k
    same = omega (
      arith,
      ap (λ (t : ℕ). t % w) e,
      mul-add-mod_self_right r w l,
      mul-add-mod_self_right q w k,
      mod-eq_of_lt hl,
      mod-eq_of_lt hk,
    )

pub index-ne :
    (r q l k w : ℕ)
    → r * w + w ≤ 2 ^ 64
    → q * w + w ≤ 2 ^ 64
    → l < w
    → k < w
    → l ≢ k
    → (reg_lane_index r l w == reg_lane_index q k w) ≡ false
index-ne r q l k w fr fq hl hk ne =
    rw (index_exact r l w fr hl, index_exact q k w fq hk) (ne→== _ _ (cell-ne r q l k w hl hk ne))

abbrev pub stored : Operand → ℕ → ℕ
stored o v = if is_wide o.type then v else to_u32 v

-- A register reads back what was written, cut to its width.
pub read-write_self :
    (o : Operand) (w : WarpState) (l v : ℕ)
    → o.kind ≡ OperandKind.reg
    → l < w.active.width
    → read_reg_lane o (write_reg_lane o w l v) l ≡ stored o v
unfolding read_reg_lane write_reg_lane
read-write_self o w l v h inside = ground (
  arith,
  get_or-store_at w.r_u64 (reg_lane_index (reg_of o) l w.active.width)
      (reg_lane_index (reg_of o) l w.active.width) v,
  get_or-store_at w.r_u32 (reg_lane_index (reg_of o) l w.active.width)
      (reg_lane_index (reg_of o) l w.active.width) (to_u32 v),
)

-- A write to one lane leaves every register of every other lane.
pub read-write_ne :
    (o q : Operand) (w : WarpState) (l k v : ℕ)
    → Fits w.active.width o
    → Fits w.active.width q
    → l ≢ k
    → read_reg_lane q (write_reg_lane o w l v) k ≡ read_reg_lane q w k
unfolding read_reg_lane write_reg_lane
read-write_ne o q w l k v fo fq ne = ground (
  arith,
  get_or-store_at w.r_u64 (reg_lane_index (reg_of o) l w.active.width)
      (reg_lane_index (reg_of q) k w.active.width) v,
  get_or-store_at w.r_u32 (reg_lane_index (reg_of o) l w.active.width)
      (reg_lane_index (reg_of q) k w.active.width) (to_u32 v),
  index-ne (reg_of o) (reg_of q) l k w.active.width,
)

-- The rule for what a write keeps: it replaces at most one of the register files.
pub write_reg_lane_keeps {κ} :
    (P : WarpState → Type κ) (o : Operand) (w : WarpState) (l v : ℕ)
    → P w
    → ((xs : List ℕ) → P (record w { r_u64 = xs }))
    → ((xs : List ℕ) → P (record w { r_u32 = xs }))
    → P (write_reg_lane o w l v)
unfolding write_reg_lane
write_reg_lane_keeps P o w l v same wide narrow =
    elim o.kind as (λ x. P (write_reg_lane (record o { kind = x }) w l v)) [
      | OperandKind.reg ↦
          let idx = reg_lane_index (reg_of o) l w.active.width in
          if_elim P (w.active.width == 0) same (
            if_elim P (leb w.active.width l) same (
              if_elim P (is_wide o.type) (wide (store_at w.r_u64 idx v))
                (narrow (store_at w.r_u32 idx (to_u32 v)))))
      | _ ↦ same
    ]

-- Nor does it change anything but the register files.
pub write_reg_lane-active :
    (o : Operand) (w : WarpState) (l v : ℕ) → (write_reg_lane o w l v).active ≡ w.active
write_reg_lane-active o w l v =
    write_reg_lane_keeps (λ u. u.active ≡ w.active) o w l v refl (λ _. refl) (λ _. refl)

read_special-write :
    (o : Operand) (w : WarpState) (l k v : ℕ) (name : String)
    → read_special_u32 name (write_reg_lane o w l v) k ≡ read_special_u32 name w k
unfolding read_special_u32
read_special-write o w l k v name =
    write_reg_lane_keeps (λ u. read_special_u32 name u k ≡ read_special_u32 name w k) o w l v refl
      (λ _. refl) (λ _. refl)

pub read_operand-write_ne :
    (o q : Operand) (w : WarpState) (l k v : ℕ)
    → Fits w.active.width o
    → Fits w.active.width q
    → l ≢ k
    → read_operand_lane q (write_reg_lane o w l v) k ≡ read_operand_lane q w k
unfolding read_operand_lane
read_operand-write_ne o q w l k v fo fq ne =
    ground (arith, read-write_ne o q w l k v, read_special-write o w l k v q.special)

-- Operands that do not name the register of `o`.
abbrev pub Apart : Operand → Operand → Type 0
Apart o q = (q.kind ≢ OperandKind.reg) ⊎ ((is_wide o.type ≢ is_wide q.type) ⊎ (reg_of o ≢ reg_of q))

same_lane-ne :
    (r q l w : ℕ)
    → r * w + w ≤ 2 ^ 64
    → q * w + w ≤ 2 ^ 64
    → l < w
    → r ≢ q
    → (reg_lane_index r l w == reg_lane_index q l w) ≡ false
same_lane-ne r q l w fr fq hl ne =
    rw (index_exact r l w fr hl, index_exact q l w fq hl) (ne→== _ _ apart)
  where
    apart : r * w + l ≢ q * w + l
    apart e = ne (mul_cancel w (omega arith) r q (omega arith))

-- A write leaves the other registers of its lane.
pub read-write-Apart :
    (o q : Operand) (w : WarpState) (l k v : ℕ)
    → Fits w.active.width o
    → Fits w.active.width q
    → Apart o q
    → read_reg_lane q (write_reg_lane o w l v) k ≡ read_reg_lane q w k
unfolding read_reg_lane write_reg_lane
read-write-Apart o q w l k v fo fq ap = elim (Bool-cases (l == k)) [
  | inr ne ↦ read-write_ne o q w l k v fo fq (==→ne l k ne)
  | inl e ↦ ground (
    arith,
    get_or-store_at w.r_u64 (reg_lane_index (reg_of o) l w.active.width)
        (reg_lane_index (reg_of q) k w.active.width) v,
    get_or-store_at w.r_u32 (reg_lane_index (reg_of o) l w.active.width)
        (reg_lane_index (reg_of q) k w.active.width) (to_u32 v),
    same_lane-ne (reg_of o) (reg_of q) l w.active.width,
    ==→eq l k e,
  )
]

pub read_operand-write-Apart :
    (o q : Operand) (w : WarpState) (l k v : ℕ)
    → Fits w.active.width o
    → Fits w.active.width q
    → Apart o q
    → read_operand_lane q (write_reg_lane o w l v) k ≡ read_operand_lane q w k
unfolding read_operand_lane
read_operand-write-Apart o q w l k v fo fq apart =
    ground (arith, read-write-Apart o q w l k v fo fq apart, read_special-write o w l k v q.special)
