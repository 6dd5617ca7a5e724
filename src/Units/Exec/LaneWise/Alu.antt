-- ===== src/Units/Exec/LaneWise/Alu.antt =====
-- The register micro-ops MOV, CVT, ADD, MUL, SHL and FMA against one description of what they
-- compute from the values of their operands.
use mathlib.Core.Option
use proto_gpu.Prelude.{
  ℕ, suc, ◌<◌, ◌≡◌, refl, sym, ap, subst, Bool, true, false, not, ◌&&◌, ◌||◌, Option, none, some,
  arith, List, [], ◌∷◌, if◌then◌else◌, Bool-cases, inl, inr, if_no,
}
use proto_gpu.Contracts.{
  Operand, OperandKind, LaneMask, MicroOp, MicroOpOp, StepResult, lane_mask_test, lane_mask_and,
}
use proto_gpu.Contracts.Words.{to_u32}
use proto_gpu.Contracts.Masks.{lane_mask_test_lem}
use proto_gpu.Warp.{WarpState, is_wide, read_operand_lane, progress}
use proto_gpu.Warp.Regs.{Fits}
use proto_gpu.Units.Exec.Floats.{FloatOps}
use proto_gpu.Units.Exec.{
  LaneValue, run_lanes, one_operand, two_operands, three_operands, is_f32, is_u32, is_signed,
  add_int, mul_int, shl_int, exec_mov, exec_cvt, exec_add, exec_mul, exec_shl, exec_fma, exec_by,
  exec_step,
}
use proto_gpu.Units.Exec.LaneWise.{SameLane, Wrote, OnlyRegs, IsLocal, run_lanes_total}

module _ (fl : FloatOps) (uop : MicroOp) (out : Operand) where
  open fl use {f32_add, f32_mul, f32_fma, f32_of_u32}

  -- What the micro-op computes; `none` if its operands are not of a form that it accepts.
  abbrev pub alu : MicroOpOp → List Operand → Option ((ℕ → ℕ) → ℕ)
  alu MicroOpOp.mov (a ∷ []) = some (λ xs. xs 0)
  alu MicroOpOp.cvt (a ∷ []) =
      if is_f32 out.type && is_u32 a.type then some (λ xs. f32_of_u32 (to_u32 (xs 0))) else none
  alu MicroOpOp.add (a ∷ b ∷ []) = some (λ xs.
      if is_f32 uop.attrs.type
      then f32_add (to_u32 (xs 0)) (to_u32 (xs 1))
      else add_int (xs 0) (xs 1))
  alu MicroOpOp.mul (a ∷ b ∷ []) = some (λ xs.
      if is_f32 uop.attrs.type
      then f32_mul (to_u32 (xs 0)) (to_u32 (xs 1))
      else mul_int (is_signed uop.attrs.type) (is_wide out.type) (xs 0) (xs 1))
  alu MicroOpOp.shl (a ∷ b ∷ []) =
      some (λ xs. shl_int (is_wide uop.attrs.type || is_wide out.type) (xs 0) (xs 1))
  alu MicroOpOp.fma (a ∷ b ∷ c ∷ []) =
      if is_f32 uop.attrs.type
      then some (λ xs. f32_fma (to_u32 (xs 0)) (to_u32 (xs 1)) (to_u32 (xs 2)))
      else none
  alu _ _ = none

-- In lane `k` the operands read as `xs i`, `xs (i + 1)` and so on.
abbrev pub Reads : WarpState → ℕ → (ℕ → ℕ) → ℕ → List Operand → Type 0
Reads w k xs i [] = Unit {0}
Reads w k xs i (a ∷ rest) = (read_operand_lane a w k ≡ some (xs i)) × Reads w k xs (suc i) rest

abbrev pub AllFit : WarpState → List Operand → Type 0
AllFit w [] = Unit {0}
AllFit w (a ∷ rest) = Fits w.active.width a × AllFit w rest

-- Success, the value in the lanes of the mask, the other lanes as they were.
abbrev Steps : WarpState → Operand → LaneMask → (ℕ → ℕ) → WarpState × StepResult → Type 0
Steps w out mask v r =
    (r.1 ≡ progress)
    × ((k : ℕ)
        → (lane_mask_test mask k ≡ true → Wrote w out (v k) k r.0)
          × (lane_mask_test mask k ≡ false → SameLane w k r.0))
    × OnlyRegs w r.0

some-inj {ℓ} : {A : Type ℓ} {a b : A} → some a ≡ some b → a ≡ b
some-inj e = cc

some-ne {ℓ} : {A : Type ℓ} {a : A} → none ≡ some a → ⊥
some-ne e = cc

module _ (fl : FloatOps) (uop : MicroOp) (w : WarpState) (out : Operand) (mask : LaneMask)
    (f : (ℕ → ℕ) → ℕ) (xs : ℕ → ℕ → ℕ) (is_reg : out.kind ≡ OperandKind.reg)
    (fits : Fits w.active.width out)
    (within : (k : ℕ) → lane_mask_test mask k ≡ true → k < w.active.width) where
  abbrev Known : List Operand → Type 0
  Known ins = (k : ℕ) → lane_mask_test mask k ≡ true → Reads w k (xs k) 0 ins

  abbrev Works : MicroOpOp → List Operand → Type 0
  Works op ins =
      AllFit w ins
      → Known ins
      → alu fl uop out op ins ≡ some f
      → Steps w out mask (λ k. f (xs k)) (exec_by fl op uop (out ∷ []) ins mask w)

  works_by :
      (value : LaneValue) (g : (ℕ → ℕ) → ℕ)
      → g ≡ f
      → IsLocal w value
      → ((k : ℕ) → lane_mask_test mask k ≡ true → value w k ≡ some (g (xs k)))
      → Steps w out mask (λ k. f (xs k)) (run_lanes mask out value w)
  works_by value g e local known =
      subst (λ h. Steps w out mask (λ k. h (xs k)) (run_lanes mask out value w)) e
        (run_lanes_total w out mask value (λ k. g (xs k)) is_reg fits within local known)

  one_works :
      (g : ℕ → ℕ) (a : Operand)
      → AllFit w (a ∷ [])
      → Known (a ∷ [])
      → ◌≡◌ {A = (ℕ → ℕ) → ℕ} (λ ys. g (ys 0)) f
      → Steps w out mask (λ k. f (xs k)) (run_lanes mask out (one_operand g a) w)
  one_works g a fit known e =
      works_by (one_operand g a) (λ ys. g (ys 0)) e
        (λ k s h. ap (Option.map g) (h.same_reads a fit.0)) (λ k on. rw (known k on).0)

  two_works :
      (g : ℕ → ℕ → ℕ) (a b : Operand)
      → AllFit w (a ∷ b ∷ [])
      → Known (a ∷ b ∷ [])
      → ◌≡◌ {A = (ℕ → ℕ) → ℕ} (λ ys. g (ys 0) (ys 1)) f
      → Steps w out mask (λ k. f (xs k)) (run_lanes mask out (two_operands g a b) w)
  two_works g a b fit known e =
      works_by (two_operands g a b) (λ ys. g (ys 0) (ys 1)) e
        (λ k s h. ground (arith, h.same_reads a fit.0, h.same_reads b fit.1.0))
        (λ k on. ground (arith, (known k on).0, (known k on).1.0))

  three_works :
      (g : ℕ → ℕ → ℕ → ℕ) (a b c : Operand)
      → AllFit w (a ∷ b ∷ c ∷ [])
      → Known (a ∷ b ∷ c ∷ [])
      → ◌≡◌ {A = (ℕ → ℕ) → ℕ} (λ ys. g (ys 0) (ys 1) (ys 2)) f
      → Steps w out mask (λ k. f (xs k)) (run_lanes mask out (three_operands g a b c) w)
  three_works g a b c fit known e =
      works_by (three_operands g a b c) (λ ys. g (ys 0) (ys 1) (ys 2)) e
        (λ k s h.
          ground (arith, h.same_reads a fit.0, h.same_reads b fit.1.0, h.same_reads c fit.1.1.0))
        (λ k on. ground (arith, (known k on).0, (known k on).1.0, (known k on).1.1.0))

  mov-Works : (a : Operand) → Works MicroOpOp.mov (a ∷ [])
  unfolding exec_by exec_mov
  mov-Works a fit known e =
      works_by (read_operand_lane a) (λ ys. ys 0) (some-inj e) (λ k s h. h.same_reads a fit.0)
        (λ k on. (known k on).0)

  add-Works : (a b : Operand) → Works MicroOpOp.add (a ∷ b ∷ [])
  unfolding exec_by exec_add
  add-Works a b fit known e = elim (Bool-cases (is_f32 uop.attrs.type)) [
    | inl h ↦ rw (h, exec_add) (two_works _ a b fit known (some-inj (rw h at e)))
    | inr h ↦ rw (h, exec_add) (two_works _ a b fit known (some-inj (rw h at e)))
  ]

  mul-Works : (a b : Operand) → Works MicroOpOp.mul (a ∷ b ∷ [])
  unfolding exec_by exec_mul
  mul-Works a b fit known e = elim (Bool-cases (is_f32 uop.attrs.type)) [
    | inl h ↦ rw (h, exec_mul) (two_works _ a b fit known (some-inj (rw h at e)))
    | inr h ↦ rw (h, exec_mul) (two_works _ a b fit known (some-inj (rw h at e)))
  ]

  shl-Works : (a b : Operand) → Works MicroOpOp.shl (a ∷ b ∷ [])
  unfolding exec_by exec_shl
  shl-Works a b fit known e =
      two_works (shl_int (is_wide uop.attrs.type || is_wide out.type)) a b fit known (some-inj e)

  fma-Works : (a b c : Operand) → Works MicroOpOp.fma (a ∷ b ∷ c ∷ [])
  unfolding exec_by exec_fma
  fma-Works a b c fit known e = elim (Bool-cases (is_f32 uop.attrs.type)) [
    | inl h ↦ rw (h, exec_fma) (three_works _ a b c fit known (some-inj (rw h at e)))
    | inr h ↦ absurd (some-ne (rw h at e))
  ]

  cvt-Works : (a : Operand) → Works MicroOpOp.cvt (a ∷ [])
  unfolding exec_by exec_cvt
  cvt-Works a fit known e = elim (Bool-cases (is_f32 out.type && is_u32 a.type)) [
    | inl h ↦
        rw (accepted (is_f32 out.type) (is_u32 a.type) h, exec_cvt)
          (one_works _ a fit known (some-inj (rw h at e)))
    | inr h ↦ absurd (some-ne (rw h at e))
  ]
    where
      accepted : (p q : Bool) → (p && q) ≡ true → (not p || not q) ≡ false
      accepted p q h = ground arith

  alu-Works : (op : MicroOpOp) (ins : List Operand) → Works op ins
  alu-Works MicroOpOp.mov (a ∷ []) = mov-Works a
  alu-Works MicroOpOp.cvt (a ∷ []) = cvt-Works a
  alu-Works MicroOpOp.add (a ∷ b ∷ []) = add-Works a b
  alu-Works MicroOpOp.mul (a ∷ b ∷ []) = mul-Works a b
  alu-Works MicroOpOp.shl (a ∷ b ∷ []) = shl-Works a b
  alu-Works MicroOpOp.fma (a ∷ b ∷ c ∷ []) = fma-Works a b c
  alu-Works _ _ = λ fit known e. absurd (some-ne e)

and-within :
    (w : WarpState) (guard : LaneMask) (k : ℕ)
    → lane_mask_test (lane_mask_and w.active guard) k ≡ true
    → k < w.active.width
unfolding lane_mask_and
and-within w guard k h = ground (arith, lane_mask_test_lem (lane_mask_and w.active guard) k)

-- What a step does to a lane: the value in a lane of the mask, and nothing in another.
abbrev pub LaneEffect : WarpState → Operand → ℕ → ℕ → WarpState → Bool → Type 0
LaneEffect w out v k after true = Wrote w out v k after
LaneEffect w out v k after false = SameLane w k after

-- What a step gives: success, its effect on each lane, and a warp that is the same but for its
-- registers.
abbrev pub Effect : WarpState → Operand → LaneMask → (ℕ → ℕ) → WarpState × StepResult → Type 0
Effect w out mask v r =
    (r.1 ≡ progress)
    × ((k : ℕ) → LaneEffect w out (v k) k r.0 (lane_mask_test mask k))
    × OnlyRegs w r.0

lane_effect :
    (w : WarpState) (out : Operand) (v k : ℕ) (after : WarpState) (b : Bool)
    → (b ≡ true → Wrote w out v k after) × (b ≡ false → SameLane w k after)
    → LaneEffect w out v k after b
lane_effect w out v k after true h = h.0 refl
lane_effect w out v k after false h = h.1 refl

-- A step of MOV, CVT, ADD, MUL, SHL or FMA, with operands that it accepts and can read, succeeds:
-- each lane that is active and passes the guard gets the value that `alu` computes from what its
-- operands were before the step, cut to the width of the output, and keeps its other registers;
-- the registers of the other lanes stay, and so does all of the warp but the registers.
pub exec_step-Effect :
    (fl : FloatOps) (uop : MicroOp) (w : WarpState) (out : Operand) (f : (ℕ → ℕ) → ℕ)
    (xs : ℕ → ℕ → ℕ)
    → w.done ≡ false
    → uop.outputs ≡ out ∷ []
    → out.kind ≡ OperandKind.reg
    → Fits w.active.width out
    → AllFit w uop.inputs
    → ((k : ℕ)
        → lane_mask_test (lane_mask_and w.active uop.guard) k ≡ true
        → Reads w k (xs k) 0 uop.inputs)
    → alu fl uop out uop.op uop.inputs ≡ some f
    → Effect w out (lane_mask_and w.active uop.guard) (λ k. f (xs k)) (exec_step fl uop w)
unfolding exec_step
exec_step-Effect fl uop w out f xs live outs is_reg fits fit known e =
    let mask = lane_mask_and w.active uop.guard in
    let steps : Steps w out mask (λ k. f (xs k)) (exec_step fl uop w) =
      subst (Steps w out mask (λ k. f (xs k))) (sym (if_no w.done _ _ live)) (
        subst (λ os. Steps w out mask (λ k. f (xs k)) (exec_by fl uop.op uop os uop.inputs mask w))
          (sym outs)
          (alu-Works fl uop w out mask f xs is_reg fits (and-within w uop.guard) uop.op uop.inputs
            fit known e)) in
    (
      steps.0,
      λ k.
          lane_effect w out (f (xs k)) k (exec_step fl uop w).0 (lane_mask_test mask k) (steps.1 k),
      steps.2,
    )
