-- ===== src/Warp/Lanes.antt =====
-- The loop that every lane-wise handler runs:
-- `for (lane = 0; lane < mask.width && lane < 32; lane++) { if (!test) continue; ... }`,
-- where the body may return with a diagnostic, and what the lanes before wrote stays written.
use proto_gpu.Prelude.{
  ℕ, zero, suc, ◌+◌, ◌≤◌, ◌<◌, ◌≡◌, refl, ◌≢◌, ◌⊎◌, min, true, false, Option, none, some, arith,
  ltb, Bool-cases, subst, ltb→lt, ltb→le, inl, inr,
}
use proto_gpu.Contracts.{LaneMask, lane_mask_test, Code}
use proto_gpu.Contracts.Masks.{lane_mask_test_lem}

module _ {S : Type 0} (m : LaneMask) (body : ℕ → S → S × Option Code) where
  next_lane : S × Option Code → (S → S × Option Code) → S × Option Code
  next_lane (s, none) rest = rest s
  next_lane (s, some c) rest = (s, some c)

  pub lanes_from : (left lane : ℕ) → S → S × Option Code
  unfolding next_lane
  lanes_from zero lane s = (s, none)
  lanes_from (suc left) lane s = elim (lane_mask_test m lane) [
    | true ↦ next_lane (body lane s) (lanes_from left (suc lane))
    | false ↦ lanes_from left (suc lane) s
  ]

  unfoldable pub for_lanes : S → S × Option Code
  unfolding lanes_from
  for_lanes s = lanes_from (min m.width 32) 0 s

  -- What every body keeps holds at the end, errors included.
  lanes_from_inv :
      (P : S → Type 0)
      → ((lane : ℕ) (s : S) → P s → P (body lane s).0)
      → (left lane : ℕ) (s : S) → P s
      → P (lanes_from left lane s).0
  unfolding lanes_from
  lanes_from_inv P keep zero lane s h = h
  lanes_from_inv P keep (suc left) lane s h = elim (Bool-cases (lane_mask_test m lane)) [
    | inr off ↦ rw (off, lanes_from) (lanes_from_inv P keep left (suc lane) s h)
    | inl on ↦
        rw (on, lanes_from)
          (after (body lane s) (keep lane s h) (lanes_from_inv P keep left (suc lane)))
  ]
    where
      after :
          (r : S × Option Code)
          → P r.0
          → ((t : S) → P t → P (lanes_from left (suc lane) t).0)
          → P (next_lane r (lanes_from left (suc lane))).0
      after (t, none) ht ih = ih t ht
      after (t, some c) ht ih = ht

  pub for_lanes_inv :
      (P : S → Type 0)
      → ((lane : ℕ) (s : S) → P s → P (body lane s).0)
      → (s : S) → P s
      → P (for_lanes s).0
  unfolding for_lanes
  for_lanes_inv P keep s h = lanes_from_inv P keep (min m.width 32) 0 s h

-- How a body treats the lanes, given what a lane looks like before its turn and after it.
pub record LaneWise {S : Type 0} (m : LaneMask) (body : ℕ → S → S × Option Code)
    (Todo Done : ℕ → S → Type 0) : Type 0 where
  pub does :
      (l : ℕ) (s : S)
      → lane_mask_test m l ≡ true
      → Todo l s
      → ((body l s).1 ≡ none) × Done l (body l s).0
  pub keeps_todo : (l k : ℕ) (s : S) → l ≢ k → Todo k s → Todo k (body l s).0
  pub keeps_done : (l k : ℕ) (s : S) → l ≢ k → Done k s → Done k (body l s).0

module _ {S : Type 0} (m : LaneMask) (body : ℕ → S → S × Option Code) (Todo Done : ℕ → S → Type 0)
    (wise : LaneWise m body Todo Done) where
  lt_suc_cases : (k n : ℕ) → k < suc n → (k < n) ⊎ (k ≡ n)
  lt_suc_cases k n h = omega arith

  -- The lane after its turn: done if the mask has it, as it was if not.
  abbrev Settled : ℕ → S → Type 0
  Settled k s = (lane_mask_test m k ≡ true → Done k s) × (lane_mask_test m k ≡ false → Todo k s)

  abbrev Swept : ℕ → S → Type 0
  Swept lane s = ((k : ℕ) → k < lane → Settled k s) × ((k : ℕ) → lane ≤ k → Todo k s)

  sweep_on :
      (lane : ℕ) (s : S)
      → lane_mask_test m lane ≡ true
      → Swept lane s
      → Swept (suc lane) (body lane s).0
  sweep_on lane s on h =
      (earlier, λ k le. wise.keeps_todo lane k s (omega arith) (h.1 k (omega arith)))
    where
      done_now : ((body lane s).1 ≡ none) × Done lane (body lane s).0
      done_now = wise.does lane s on (h.1 lane (omega arith))

      earlier : (k : ℕ) → k < suc lane → Settled k (body lane s).0
      earlier k lt = elim (lt_suc_cases k lane lt) [
        | inl before ↦ (
          λ e. wise.keeps_done lane k s (omega arith) ((h.0 k before).0 e),
          λ e. wise.keeps_todo lane k s (omega arith) ((h.0 k before).1 e),
        )
        | inr now ↦ (λ e. rw now done_now.1, λ e. absurd (on_off k now e))
      ]
        where
          on_off : (k : ℕ) → k ≡ lane → lane_mask_test m k ≡ false → ⊥
          on_off k now e = cc

  sweep_off : (lane : ℕ) (s : S) → lane_mask_test m lane ≡ false → Swept lane s → Swept (suc lane) s
  sweep_off lane s off h = (earlier, λ k le. h.1 k (omega arith))
    where
      earlier : (k : ℕ) → k < suc lane → Settled k s
      earlier k lt = elim (lt_suc_cases k lane lt) [
        | inl before ↦ h.0 k before
        | inr now ↦ (λ e. cc, λ e. h.1 k (omega arith))
      ]

  sweep :
      (left lane end : ℕ) (s : S)
      → lane + left ≡ end
      → Swept lane s
      → ((lanes_from m body left lane s).1 ≡ none) × Swept end (lanes_from m body left lane s).0
  unfolding lanes_from
  sweep zero lane end s e h = (refl, subst (λ n. Swept n s) (omega arith) h)
  sweep (suc left) lane end s e h = elim (Bool-cases (lane_mask_test m lane)) [
    | inr off ↦
        rw (off, lanes_from) (sweep left (suc lane) end s (omega arith) (sweep_off lane s off h))
    | inl on ↦
        rw (on, lanes_from)
          (after (body lane s) (wise.does lane s on (h.1 lane (omega arith))).0
            (λ t. sweep left (suc lane) end t (omega arith)) (sweep_on lane s on h))
  ]
    where
      after :
          (r : S × Option Code)
          → r.1 ≡ none
          → ((t : S)
              → Swept (suc lane) t
              → ((lanes_from m body left (suc lane) t).1 ≡ none)
                × Swept end (lanes_from m body left (suc lane) t).0)
          → Swept (suc lane) r.0
          → ((next_lane m body r (lanes_from m body left (suc lane))).1 ≡ none)
            × Swept end (next_lane m body r (lanes_from m body left (suc lane))).0
      after (t, none) e ih h' = ih t h'
      after (t, some c) e ih h' = cc

  off_past : (k : ℕ) → min m.width 32 ≤ k → lane_mask_test m k ≡ false
  off_past k h = ground (arith, lane_mask_test_lem m k)

  -- The loop succeeds, every lane of the mask is done, and every other lane is as it was.
  pub for_lanes_total :
      (s : S)
      → ((k : ℕ) → Todo k s)
      → ((for_lanes m body s).1 ≡ none) × ((k : ℕ) → Settled k (for_lanes m body s).0)
  unfolding for_lanes
  for_lanes_total s h = (swept.0, settled)
    where
      swept :
          ((lanes_from m body (min m.width 32) 0 s).1 ≡ none)
          × Swept (min m.width 32) (lanes_from m body (min m.width 32) 0 s).0
      swept =
          sweep (min m.width 32) 0 (min m.width 32) s (omega arith)
            ((λ k lt. absurd (omega arith)), λ k le. h k)

      settled : (k : ℕ) → Settled k (lanes_from m body (min m.width 32) 0 s).0
      settled k = elim (Bool-cases (ltb k (min m.width 32))) [
        | inl inside ↦ swept.1.0 k (ltb→lt _ _ inside)
        | inr past ↦ (
          λ e. absurd (on_off e (off_past k (ltb→le _ _ past))),
          λ e. swept.1.1 k (ltb→le _ _ past),
        )
      ]
        where
          on_off : lane_mask_test m k ≡ true → lane_mask_test m k ≡ false → ⊥
          on_off a b = cc
