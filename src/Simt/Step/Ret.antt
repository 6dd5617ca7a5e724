-- ===== src/Simt/Step/Ret.antt =====
-- What `ret` does to the lanes of a warp (src/simt/simt.cpp).
use proto_gpu.Prelude.{
  ℕ, ◌^◌, ◌<◌, ◌≡◌, sym, ◌∙◌, ap, ap₂, subst, true, false, not, ◌&&◌, ◌||◌, List, ◌∷◌, ◌==◌, arith,
  Bool-cases, inl, inr, if_no, if_yes,
}
use proto_gpu.Prelude.Bits.{bit_and-lt}
use proto_gpu.Contracts.{
  LaneMask, MicroOp, lane_mask_and, lane_mask_not_width, lane_mask_or_same_width, lane_mask_empty,
  lane_mask_test,
}
use proto_gpu.Contracts.Masks.{
  lane_mask_test_lem, lane_mask_test-and, lane_mask_test-or, lane_mask_test-not,
  lane_mask_test-empty,
}
use proto_gpu.Warp.{WarpState, SimtFrame}
use proto_gpu.Simt.Stack.Keeps.{not_width}
use proto_gpu.Simt.Step.{ret_lanes, mask_top, top_active}

-- Which lanes have left and which still run: exactly the active lanes that pass the guard leave.
abbrev pub Leaves : WarpState → MicroOp → ℕ → WarpState → Type 0
Leaves warp uop lane after =
    let leaving = lane_mask_test warp.active lane && lane_mask_test uop.guard lane in
    (lane_mask_test after.exited lane ≡ (lane_mask_test warp.exited lane || leaving))
    × (lane_mask_test after.active lane ≡ (lane_mask_test warp.active lane && not leaving))

-- On a path whose frame is the top of the stack, with masks of one width that fit in 32 bits: `ret`
-- marks exactly the active lanes that pass its guard as exited, and takes exactly those from the path.
pub ret_lanes-Leaves :
    (uop : MicroOp) (warp : WarpState) (top : SimtFrame) (rest : List SimtFrame) (lane : ℕ)
    → warp.simt_stack ≡ top ∷ rest
    → warp.active ≡ top.active
    → warp.active.width ≡ uop.guard.width
    → warp.exited.width ≡ warp.active.width
    → warp.active.bits_lo < 2 ^ 32
    → Leaves warp uop lane (ret_lanes uop warp)
unfolding ret_lanes lane_mask_and lane_mask_empty
ret_lanes-Leaves uop warp top rest lane stack active gw ew fits =
    elim (Bool-cases (mask.bits_lo == 0)) [
      | inl e ↦
          subst (Leaves warp uop lane) (sym (if_yes (mask.bits_lo == 0) warp left e))
            (ground (arith, in_mask, none_leaves e))
      | inr e ↦ subst (Leaves warp uop lane) (sym (if_no (mask.bits_lo == 0) warp left e)) (
        lane_mask_test-or warp.exited mask lane ew
            ∙ ap (λ b. lane_mask_test warp.exited lane || b) in_mask,
        ap (λ s. lane_mask_test (top_active warp.active (mask_top mask s)) lane) stack
            ∙ lane_mask_test-and top.active (lane_mask_not_width mask) lane
                (ap (λ (m : LaneMask). m.width) (sym active) ∙ sym (not_width mask))
            ∙ ap₂ (λ a b. a && b) (ap (λ m. lane_mask_test m lane) (sym active))
                (lane_mask_test-not mask lane
                  (bit_and-lt 32 warp.active.bits_lo uop.guard.bits_lo fits))
            ∙ ground (arith, in_mask, lane_mask_test_lem warp.active lane),
      )
    ]
  where
    mask : LaneMask
    mask = lane_mask_and warp.active uop.guard

    left : WarpState
    left = record warp {
      exited = lane_mask_or_same_width warp.exited mask;
      simt_stack = mask_top mask warp.simt_stack;
      active = top_active warp.active (mask_top mask warp.simt_stack);
    }

    in_mask :
        lane_mask_test mask lane
        ≡ (lane_mask_test warp.active lane && lane_mask_test uop.guard lane)
    in_mask = lane_mask_test-and warp.active uop.guard lane gw

    none_leaves : (mask.bits_lo == 0) ≡ true → lane_mask_test mask lane ≡ false
    none_leaves e = lane_mask_test-empty mask lane e
