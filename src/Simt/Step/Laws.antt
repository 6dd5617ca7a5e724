-- ===== src/Simt/Step/Laws.antt =====
-- Predication and divergence of one instruction, lane by lane (src/simt/simt.cpp).
use proto_gpu.Prelude.{
  ℕ, zero, suc, ◌+◌, ◌*◌, ◌^◌, ◌<◌, ◌≡◌, refl, sym, ◌∙◌, ap, min, bit_or, Bool, true, false, not,
  ◌&&◌, ◌||◌, Option, none, some, List, [], ◌∷◌, ltb, leb, ◌==◌, if◌then◌else◌, length, get_or,
  arith, Bool-cases, inl, inr, if_no, if_yes, some_inj, ==→eq, ==→ne, ◌≢◌,
}
use proto_gpu.Prelude.Bits.{test_bit, test_bit-or, test_bit-pow, test_bit-zero}
use proto_gpu.Contracts.{
  LaneMask, PredGuard, MicroOp, lane_mask_and, lane_mask_not_width, lane_mask_empty, lane_mask_test,
}
use proto_gpu.Contracts.Masks.{lane_mask_test_lem}
use proto_gpu.Contracts.Words.{to_u64, is_neg64}
use proto_gpu.Warp.{WarpState, SimtFrame}
use proto_gpu.Simt.Stack.{PendingSplit, commit, advance, refresh}
use proto_gpu.Simt.Stack.Lanes.{on_stack}
use proto_gpu.Simt.Stack.Keeps.{advance-on_stack}
use proto_gpu.Simt.Step.{
  pred_bits, pred_mask, diverge, Divergence, splits, uniform, missing, reconv_at,
}

-- Whether the predicate of a lane, negated or not, enables it.
abbrev pub enabled : WarpState → ℕ → Bool → ℕ → Bool
enabled warp base negated lane =
    let pval = not (get_or warp.p (to_u64 (base + lane)) 0 == 0) in
    if negated then not pval else pval

pred_bits-test :
    (warp : WarpState) (base : ℕ) (negated : Bool) (left lane bits k : ℕ)
    → test_bit (pred_bits warp base negated left lane bits) k ≡ (
        test_bit bits k
        || (leb lane k
            && ltb k (lane + left)
            && (lane_mask_test warp.active k && enabled warp base negated k)))
unfolding pred_bits
pred_bits-test warp base negated zero lane bits k = ground arith
pred_bits-test warp base negated (suc left) lane bits k =
    pred_bits-test warp base negated left (suc lane) next k
    ∙ ap (λ x. x || (leb (suc lane) k && ltb k (suc lane + left) && chosen k))
        (bit_added (chosen lane))
    ∙ counted (test_bit bits k) (chosen lane) (chosen k) λ e. ap chosen (==→eq k lane e)
  where
    next : ℕ
    next =
        if lane_mask_test warp.active lane && enabled warp base negated lane
        then bit_or bits (2 ^ lane)
        else bits

    chosen : ℕ → Bool
    chosen n = lane_mask_test warp.active n && enabled warp base negated n

    bit_added :
        (b : Bool)
        → test_bit (if b then bit_or bits (2 ^ lane) else bits) k
          ≡ (test_bit bits k || (b && k == lane))
    bit_added true =
        test_bit-or bits (2 ^ lane) k ∙ ap (λ x. test_bit bits k || x) (test_bit-pow lane k)
    bit_added false = ground arith

    counted :
        (x b c : Bool)
        → ((k == lane) ≡ true → c ≡ b)
        → (x || (b && k == lane) || (leb (suc lane) k && ltb k (suc lane + left) && c))
          ≡ (x || (leb lane k && ltb k (lane + suc left) && c))
    counted x b c h = elim (Bool-cases (k == lane)) [
      | inl e ↦ ground (arith, h e, e)
      | inr e ↦ ground (arith, e, ==→ne k lane e)
    ]

-- Where a predicate is in range, and the active mask has the warp's width, the mask of the predicate
-- has exactly the active lanes whose predicate, negated or not, enables them.
pub pred_mask-test :
    (warp_size : ℕ) (warp : WarpState) (pred : PredGuard) (mask : LaneMask) (lane : ℕ)
    → pred_mask warp_size warp pred ≡ some mask
    → warp.active.width ≡ warp_size
    → lane_mask_test mask lane ≡ (
        lane_mask_test warp.active lane
        && enabled warp (to_u64 (pred.pred_id * warp_size)) pred.is_negated lane)
unfolding pred_mask
pred_mask-test warp_size warp pred mask lane e w = elim (Bool-cases (is_neg64 pred.pred_id)) [
  | inl f ↦ absurd (never (sym (if_yes (is_neg64 pred.pred_id) none fitting f) ∙ e))
  | inr f ↦ elim (Bool-cases short) [
    | inl g ↦ absurd (
        never (
          sym (if_yes short none (some built) g)
          ∙ sym (if_no (is_neg64 pred.pred_id) none fitting f)
          ∙ e))
    | inr g ↦
        ap (λ m. lane_mask_test m lane)
          (some_inj (
            sym e ∙ if_no (is_neg64 pred.pred_id) none fitting f ∙ if_no short none (some built) g))
        ∙ lane_mask_test_lem built lane
        ∙ ground (
          arith,
          pred_bits-test warp base pred.is_negated (min warp_size 32) 0 0 lane,
          test_bit-zero lane,
          lane_mask_test_lem warp.active lane,
          w,
        )
  ]
]
  where
    base : ℕ
    base = to_u64 (pred.pred_id * warp_size)

    short : Bool
    short = ltb (length warp.p) (to_u64 (base + warp_size))

    built : LaneMask
    built = record {
      width = warp_size;
      bits_lo = pred_bits warp base pred.is_negated (min warp_size 32) 0 0;
    }

    fitting : Option LaneMask
    fitting = if short then none else some built

    never : none ≢ some mask
    never h = absurd cc

diverge-masks :
    (points : List (Option ℕ)) (warp : WarpState) (uop : MicroOp) (target : ℕ)
    (split : PendingSplit)
    → diverge points warp uop target ≡ splits split
    → (split.taken ≡ lane_mask_and warp.active uop.guard)
      × (split.fallthrough ≡ lane_mask_and warp.active (lane_mask_not_width uop.guard))
unfolding diverge
diverge-masks points warp uop target split e = elim (Bool-cases both) [
  | inl f ↦
      by_point (reconv_at points warp.pc)
        (sym (if_yes both (on (reconv_at points warp.pc)) uniform f) ∙ e)
  | inr f ↦
      let h = sym (if_no both (on (reconv_at points warp.pc)) uniform f) ∙ e in
      absurd (not_uniform h)
]
  where
    taken : LaneMask
    taken = lane_mask_and warp.active uop.guard

    fallthrough : LaneMask
    fallthrough = lane_mask_and warp.active (lane_mask_not_width uop.guard)

    both : Bool
    both = not (lane_mask_empty taken) && not (lane_mask_empty fallthrough)

    made : ℕ → PendingSplit
    made r = record { target_pc = target; reconv_pc = r; taken = taken; fallthrough = fallthrough }

    on : Option ℕ → Divergence
    on o = elim o [ none ↦ missing | some r ↦ splits (made r) ]

    not_uniform : uniform ≢ splits split
    not_uniform h = absurd cc

    splits_inj : (a b : PendingSplit) → splits a ≡ splits b → b ≡ a
    splits_inj a b h = cc

    by_point :
        (o : Option ℕ)
        → on o ≡ splits split
        → (split.taken ≡ taken) × (split.fallthrough ≡ fallthrough)
    by_point none h = absurd cc
    by_point (some r) h = (
      ap (λ (p : PendingSplit). p.taken) (splits_inj (made r) split h),
      ap (λ (p : PendingSplit). p.fallthrough) (splits_inj (made r) split h),
    )

-- A divergent branch splits the lanes of the path that runs: after the instruction each lane is on
-- the stack exactly where it was, and the two paths share no lane.
pub diverge-commit :
    (points : List (Option ℕ)) (warp : WarpState) (uop : MicroOp) (target warp_size lane : ℕ)
    (next_pc : Option ℕ) (split : PendingSplit) (top : SimtFrame) (rest : List SimtFrame)
    → diverge points warp uop target ≡ splits split
    → warp.done ≡ false
    → warp.simt_stack ≡ top ∷ rest
    → warp.active ≡ top.active
    → uop.guard.width ≡ top.active.width
    → uop.guard.bits_lo < 2 ^ 32
    → (on_stack lane (commit warp_size (some split) next_pc warp).simt_stack
        ≡ on_stack lane warp.simt_stack)
      × ((lane_mask_test split.taken lane && lane_mask_test split.fallthrough lane) ≡ false)
unfolding diverge commit
diverge-commit points warp uop target warp_size lane next_pc split top rest e running stack active
      gw fits =
    let shared =
      advance-on_stack warp_size warp.pc split next_pc uop.guard top rest lane gw fits
        ((diverge-masks points warp uop target split e).0
          ∙ ap (λ m. lane_mask_and m uop.guard) active)
        ((diverge-masks points warp uop target split e).1
          ∙ ap (λ m. lane_mask_and m (lane_mask_not_width uop.guard)) active) in
    (
      ap (λ (v : WarpState). on_stack lane v.simt_stack)
            (if_no warp.done warp
              (refresh warp (advance warp_size warp.pc (some split) next_pc warp.simt_stack))
              running)
          ∙ refreshed (advance warp_size warp.pc (some split) next_pc warp.simt_stack)
          ∙ ap (λ s. on_stack lane (advance warp_size warp.pc (some split) next_pc s)) stack
          ∙ shared.0
          ∙ ap (on_stack lane) (sym stack),
      shared.1,
    )
  where
    refreshed : (s : List SimtFrame) → on_stack lane (refresh warp s).simt_stack ≡ on_stack lane s
    refreshed [] = refl
    refreshed (f ∷ s) = refl
