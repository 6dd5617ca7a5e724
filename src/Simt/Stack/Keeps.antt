-- ===== src/Simt/Stack/Keeps.antt =====
-- Normalizing the stack loses no lane, and a split shares the lanes out.
use proto_gpu.Prelude.{
  Bool, ℕ, ◌<◌, ◌^◌, ◌≡◌, refl, sym, ◌∙◌, ap, true, false, not, ◌&&◌, Option, none, some, List, ◌∷◌,
  ltb, leb, if_elim, arith,
}
use proto_gpu.Contracts.{
  LaneMask, lane_mask_and, lane_mask_not_width, lane_mask_empty, lane_mask_test,
}
use proto_gpu.Contracts.Masks.{
  lane_mask_test_lem, lane_mask_test-and, lane_mask_test-not, lane_mask_test-empty,
}
use proto_gpu.Warp.{SimtFrame}
use proto_gpu.Simt.Stack.{merge_join, Normal, runs, ended, broken, PendingSplit, advance}
use proto_gpu.Simt.Stack.Lanes.{on_stack}

-- The lanes of a stack that have not left.
abbrev pub still_on : LaneMask → List SimtFrame → ℕ → Bool
still_on exited stack lane = on_stack lane stack && not (lane_mask_test exited lane)

-- What the loop may answer for a stack. Of the lanes that have not left: a path that runs keeps
-- each on the stack or off it, and where no frame is left there was none. The path that runs has a
-- lane and none that left. A stack is broken by a path that has a lane and none that left, and is at
-- its reconvergence point without a join frame below it: the stack loses that path, and of the lanes
-- that have not left it had those that it has now and those of that path.
abbrev pub Keeps : LaneMask → List SimtFrame → Normal → Type 0
Keeps exited stack (runs top rest) =
    ((lane : ℕ) → still_on exited (top ∷ rest) lane ≡ still_on exited stack lane)
    × ((lane : ℕ) → (lane_mask_test exited lane && lane_mask_test top.active lane) ≡ false)
    × (lane_mask_empty top.active ≡ false)
Keeps exited stack ended = (lane : ℕ) → still_on exited stack lane ≡ false
Keeps exited stack (broken rest) =
    (f : SimtFrame) × (f.is_join ≡ false)
    × (lane_mask_empty f.active ≡ false)
    × ((lane : ℕ) → (lane_mask_test exited lane && lane_mask_test f.active lane) ≡ false)
    × (f.pc ≡ f.reconv_pc)
    × (merge_join f.pc f.active rest ≡ none)
    × ((lane : ℕ) → still_on exited (f ∷ rest) lane ≡ still_on exited stack lane)

pub not_width : (m : LaneMask) → (lane_mask_not_width m).width ≡ m.width
unfolding lane_mask_not_width
not_width m = if_elim (λ (r : LaneMask). r.width ≡ m.width) (leb 32 m.width) refl refl

module _ (w : ℕ) (exited : LaneMask) (has_width : exited.width ≡ w)
    (fits : exited.bits_lo < 2 ^ 32) where
  abbrev Kept : List SimtFrame → Option Normal → Type 0
  Kept stack o = (n : Normal) → o ≡ some n → Keeps exited stack n

no_bits : (w : ℕ) → lane_mask_empty record { width = w; bits_lo = 0 } ≡ true
unfolding lane_mask_empty
no_bits w = refl

-- Where a split's masks share out those of the path that diverged, each lane is on the stack after
-- the instruction exactly where it was before, and not on both paths.
pub advance-on_stack :
    (warp_size old_pc : ℕ) (split : PendingSplit) (next_pc : Option ℕ) (guard : LaneMask)
    (top : SimtFrame) (rest : List SimtFrame) (lane : ℕ)
    → guard.width ≡ top.active.width
    → guard.bits_lo < 2 ^ 32
    → split.taken ≡ lane_mask_and top.active guard
    → split.fallthrough ≡ lane_mask_and top.active (lane_mask_not_width guard)
    → (on_stack lane (advance warp_size old_pc (some split) next_pc (top ∷ rest))
        ≡ on_stack lane (top ∷ rest))
      × ((lane_mask_test split.taken lane && lane_mask_test split.fallthrough lane) ≡ false)
unfolding advance
advance-on_stack warp_size old_pc split next_pc guard top rest lane gw fits t f =
    ground (arith, taken_is, fall_is, join_is, lane_mask_test_lem top.active lane)
  where
    taken_is :
        lane_mask_test split.taken lane
        ≡ (lane_mask_test top.active lane && lane_mask_test guard lane)
    taken_is = ap (λ m. lane_mask_test m lane) t ∙ lane_mask_test-and top.active guard lane (sym gw)

    fall_is : lane_mask_test split.fallthrough lane ≡ (
        lane_mask_test top.active lane
        && (ltb lane guard.width && ltb lane 32 && not (lane_mask_test guard lane)))
    fall_is =
        ap (λ m. lane_mask_test m lane) f
        ∙ lane_mask_test-and top.active (lane_mask_not_width guard) lane
            (sym (not_width guard ∙ gw))
        ∙ ap (λ b. lane_mask_test top.active lane && b) (lane_mask_test-not guard lane fits)

    join_is : lane_mask_test record { width = warp_size; bits_lo = 0 } lane ≡ false
    join_is =
        lane_mask_test-empty record { width = warp_size; bits_lo = 0 } lane (no_bits warp_size)
