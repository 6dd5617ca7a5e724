-- ===== src/Simt/Run/Picks.antt =====
-- The warp scheduler picks a warp that is not done, as long as there is one.
use native.Mathlib.Nat.{mod-lt}
use proto_gpu.Prelude.{
  ℕ, ◌+◌, ◌≤◌, ◌<◌, ◌^◌, ◌≡◌, ◌⊎◌, inl, inr, sym, subst, Bool, true, false, Option, none, some,
  arith, leb, leb→le, Bool-cases,
}
use proto_gpu.Sched.Warps.{
  WarpPolicy, in_order_run_to_completion, round_robin_interleave_step, pick_next, pick_round_robin,
}
use proto_gpu.Sched.Warps.Laws.{
  InOrderPick, RoundPick, pick_in_order-InOrderPick, pick_round_robin-RoundPick,
}

-- The scheduler's counter passes over no warp that is not done.
abbrev pub Counted : WarpPolicy → ℕ → ℕ → (ℕ → Bool) → Type 0
Counted in_order_run_to_completion counter n done = (j : ℕ) → j < counter → done j ≡ true
Counted round_robin_interleave_step counter n done = (counter < n) ⊎ (n ≡ 0)

-- The pick, where the warps from `n` on count as done.
abbrev pub PickOk : WarpPolicy → ℕ → (ℕ → Bool) → ℕ × Option ℕ → Type 0
PickOk policy n done (counter, none) = (w : ℕ) → w < n → done w ≡ true
PickOk in_order_run_to_completion n done (counter, some w) =
    (done w ≡ false) × ((j : ℕ) → j < counter → done j ≡ true) × (counter ≡ w)
PickOk round_robin_interleave_step n done (counter, some w) = (done w ≡ false) × (counter < n)

in_order-PickOk :
    (counter n : ℕ) (done : ℕ → Bool) (r : ℕ × Option ℕ)
    → ((j : ℕ) → j < counter → done j ≡ true)
    → InOrderPick counter n done r
    → PickOk in_order_run_to_completion n done r
in_order-PickOk counter n done (next, none) h p = λ w lt. elim (Bool-cases (leb counter w)) [
  | inl le ↦ p.1 w (leb→le counter w le) lt
  | inr gt ↦ h w (ground arith)
]
in_order-PickOk counter n done (next, some w) h p = (
  p.1.2,
  λ j lt. elim (Bool-cases (leb counter j)) [
    | inl le ↦ p.1.3 j (leb→le counter j le) (omega (arith, p.0))
    | inr gt ↦ h j (ground arith)
  ],
  p.0,
)

round-PickOk :
    (counter n : ℕ) (done : ℕ → Bool) (r : ℕ × Option ℕ)
    → RoundPick counter n done r
    → PickOk round_robin_interleave_step n done r
round-PickOk counter n done (next, none) p = p.1
round-PickOk counter n done (next, some w) p =
    let pos : 0 < n = omega (arith, p.1) in (p.2.4, omega (arith, p.0, mod-lt (w + 1) pos))

pub pick_next-PickOk :
    (policy : WarpPolicy) (counter n : ℕ) (done : ℕ → Bool)
    → n ≤ 2 ^ 31
    → Counted policy counter n done
    → PickOk policy n done (pick_next policy counter n done)
unfolding pick_next pick_round_robin
pick_next-PickOk in_order_run_to_completion counter n done small h =
    in_order-PickOk counter n done _ h (pick_in_order-InOrderPick counter n done)
pick_next-PickOk round_robin_interleave_step counter n done small (inl lt) =
    round-PickOk counter n done _ (pick_round_robin-RoundPick counter n done lt small)
pick_next-PickOk round_robin_interleave_step counter n done small (inr z) =
    subst (λ k. PickOk round_robin_interleave_step k done (pick_round_robin counter k done)) (sym z)
      (λ w lt. absurd (omega arith))
