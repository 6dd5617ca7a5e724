-- ===== src/Units/Exec/LaneWise.antt =====
-- The register micro-ops act on each lane by itself: a lane of the mask gets the value that its own
-- operands have before the step, also where the output register is an operand.
pub mod Alu
use proto_gpu.Prelude.{
  ℕ, ◌<◌, ◌≡◌, refl, sym, ◌∙◌, ap, subst, ◌≢◌, Bool, true, false, Option, none, some, arith,
  Bool-cases, inl, inr, List, [], ◌∷◌,
}
use proto_gpu.Contracts.{Operand, OperandKind, LaneMask, Code, StepResult, lane_mask_test}
use proto_gpu.Warp.{WarpState, read_reg_lane, write_reg_lane, read_operand_lane, progress, failed}
use proto_gpu.Warp.Lanes.{for_lanes, for_lanes_inv, LaneWise, for_lanes_total}
use proto_gpu.Warp.Regs.{
  Fits, Apart, stored, read-write_self, read-write_ne, read-write-Apart, write_reg_lane-active,
  read_operand-write_ne, read_operand-write-Apart, write_reg_lane_keeps,
}
use proto_gpu.Units.Exec.{LaneValue, put_lane, run_lanes, finish}

-- Lane `k` of `s` looks as it does in `w`, to every operand.
pub record SameLane (w : WarpState) (k : ℕ) (s : WarpState) : Type 0 where
  pub same_mask : s.active ≡ w.active
  pub same_reads :
      (q : Operand) → Fits w.active.width q → read_operand_lane q s k ≡ read_operand_lane q w k

-- Lane `k` of `s` is that of `w` but for the register `out`, which holds `v`.
pub record Wrote (w : WarpState) (out : Operand) (v k : ℕ) (s : WarpState) : Type 0 where
  pub same_mask : s.active ≡ w.active
  pub result : read_reg_lane out s k ≡ stored out v
  pub others :
      (q : Operand)
      → Fits w.active.width q
      → Apart out q
      → read_operand_lane q s k ≡ read_operand_lane q w k

-- But for the register files, the warp is the same.
abbrev pub OnlyRegs : WarpState → WarpState → Type 0
OnlyRegs w s = s ≡ record w { r_u32 = s.r_u32; r_u64 = s.r_u64 }

-- A value that only its own lane decides.
abbrev pub IsLocal : WarpState → LaneValue → Type 0
IsLocal w value = (k : ℕ) (s : WarpState) → SameLane w k s → value s k ≡ value w k

-- What the state and every write of the register keep, the body keeps.
put_lane_keeps :
    (P : WarpState → Type 0) (out : Operand) (value : LaneValue) (l : ℕ) (s : WarpState)
    → P s
    → ((v : ℕ) → P (write_reg_lane out s l v))
    → P (put_lane out value l s).0
unfolding put_lane
put_lane_keeps P out value l s same write =
    elim (value s l) as (λ r. P (put_lane out (λ _ _. r) l s).0) [ none ↦ same | some v ↦ write v ]

write_reg_lane-OnlyRegs :
    (w : WarpState) (out : Operand) (s : WarpState) (l v : ℕ)
    → OnlyRegs w s
    → OnlyRegs w (write_reg_lane out s l v)
write_reg_lane-OnlyRegs w out s l v h =
    write_reg_lane_keeps (OnlyRegs w) out s l v h
      (λ xs. ap (λ (u : WarpState). record u { r_u64 = xs }) h)
      (λ xs. ap (λ (u : WarpState). record u { r_u32 = xs }) h)

finish_warp : (r : WarpState × Option Code) → (finish r).0 ≡ r.0
finish_warp (s, none) = refl
finish_warp (s, some c) = refl

-- A run, a failed one too, writes the register files only.
run_lanes-OnlyRegs :
    (w : WarpState) (out : Operand) (mask : LaneMask) (value : LaneValue)
    → OnlyRegs w (run_lanes mask out value w).0
run_lanes-OnlyRegs w out mask value =
    subst (OnlyRegs w) (sym (finish_warp (for_lanes mask (put_lane out value) w))) (
      for_lanes_inv mask (put_lane out value) (OnlyRegs w)
        (λ l s h.
          put_lane_keeps (OnlyRegs w) out value l s h (λ v. write_reg_lane-OnlyRegs w out s l v h))
        w refl)

module _ (w : WarpState) (out : Operand) (fits : Fits w.active.width out) (l k : ℕ)
    (ne : l ≢ k) where
  write-SameLane :
      (s : WarpState) (v : ℕ) → SameLane w k s → SameLane w k (write_reg_lane out s l v)
  write-SameLane s v h = record {
    same_mask = write_reg_lane-active out s l v ∙ h.same_mask;
    same_reads = λ q fq.
        read_operand-write_ne out q s l k v (rw h.same_mask fits) (rw h.same_mask fq) ne
        ∙ h.same_reads q fq;
  }

  write-Wrote :
      (s : WarpState) (v x : ℕ) → Wrote w out x k s → Wrote w out x k (write_reg_lane out s l v)
  write-Wrote s v x h = record {
    same_mask = write_reg_lane-active out s l v ∙ h.same_mask;
    result =
        read-write_ne out out s l k v (rw h.same_mask fits) (rw h.same_mask fits) ne ∙ h.result;
    others = λ q fq apart.
        read_operand-write_ne out q s l k v (rw h.same_mask fits) (rw h.same_mask fq) ne
        ∙ h.others q fq apart;
  }

module _ (w : WarpState) (out : Operand) (mask : LaneMask) (value : LaneValue) (v : ℕ → ℕ)
    (is_reg : out.kind ≡ OperandKind.reg) (fits : Fits w.active.width out)
    (within : (k : ℕ) → lane_mask_test mask k ≡ true → k < w.active.width) (local : IsLocal w value)
    (known : (k : ℕ) → lane_mask_test mask k ≡ true → value w k ≡ some (v k)) where
  put_lane-some :
      (l : ℕ) (s : WarpState)
      → value s l ≡ some (v l)
      → put_lane out value l s ≡ (write_reg_lane out s l (v l), none)
  unfolding put_lane
  put_lane-some l s e = ground arith

  write_own :
      (l : ℕ) (s : WarpState)
      → lane_mask_test mask l ≡ true
      → SameLane w l s
      → Wrote w out (v l) l (write_reg_lane out s l (v l))
  write_own l s on h = record {
    same_mask = write_reg_lane-active out s l (v l) ∙ h.same_mask;
    result = read-write_self out s l (v l) is_reg (rw h.same_mask (within l on));
    others = λ q fq apart.
        read_operand-write-Apart out q s l l (v l) (rw h.same_mask fits) (rw h.same_mask fq) apart
        ∙ h.same_reads q fq;
  }

  lane_wise : LaneWise mask (put_lane out value) (SameLane w) (λ k. Wrote w out (v k) k)
  lane_wise = record {
    does = λ l s on h. rw (put_lane-some l s (local l s h ∙ known l on)) (refl, write_own l s on h);
    keeps_todo = λ l k s ne h.
        put_lane_keeps (SameLane w k) out value l s h (λ x. write-SameLane w out fits l k ne s x h);
    keeps_done = λ l k s ne h.
        put_lane_keeps (Wrote w out (v k) k) out value l s h
          (λ x. write-Wrote w out fits l k ne s x (v k) h);
  }

  untouched : (k : ℕ) → SameLane w k w
  untouched k = record { same_mask = refl; same_reads = λ q fq. refl }

  finished :
      (r : WarpState × Option Code) → r.1 ≡ none → ((finish r).1 ≡ progress) × ((finish r).0 ≡ r.0)
  finished (s, none) e = (refl, refl)
  finished (s, some c) e = cc

  -- The run succeeds; lanes of the mask hold the value, all others are untouched, and the warp is
  -- the same but for its registers.
  pub run_lanes_total :
      ((run_lanes mask out value w).1 ≡ progress)
      × ((k : ℕ)
          → (lane_mask_test mask k ≡ true → Wrote w out (v k) k (run_lanes mask out value w).0)
            × (lane_mask_test mask k ≡ false → SameLane w k (run_lanes mask out value w).0))
      × OnlyRegs w (run_lanes mask out value w).0
  run_lanes_total = (ends.0, λ k. rw ends.1 (swept.1 k), run_lanes-OnlyRegs w out mask value)
    where
      swept :
          ((for_lanes mask (put_lane out value) w).1 ≡ none)
          × ((k : ℕ)
              → (lane_mask_test mask k ≡ true
                  → Wrote w out (v k) k (for_lanes mask (put_lane out value) w).0)
                × (lane_mask_test mask k ≡ false
                    → SameLane w k (for_lanes mask (put_lane out value) w).0))
      swept = for_lanes_total mask (put_lane out value) _ _ lane_wise w untouched

      ends :
          ((run_lanes mask out value w).1 ≡ progress)
          × ((run_lanes mask out value w).0 ≡ (for_lanes mask (put_lane out value) w).0)
      ends = finished _ swept.0
