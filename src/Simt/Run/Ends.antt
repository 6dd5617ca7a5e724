-- ===== src/Simt/Run/Ends.antt =====
-- The loop over the turns of a block's warps ends.
use native.Mathlib.Nat.{mod-eq_of_lt}
use proto_gpu.Prelude.{
  ℕ, zero, suc, ◌^◌, ◌≤◌, ◌<◌, ◌≡◌, refl, ap, sym, ◌∙◌, subst, inl, inr, false, Option, none, some,
  List, arith, leb, leb→le, length, Bool-cases,
}
use proto_gpu.Sched.Warps.{WarpPolicy, pick_next}
use proto_gpu.Sched.Ctas.{stop_requested}
use proto_gpu.Simt.Run.Picks.{Counted, PickOk, pick_next-PickOk}
use proto_gpu.Simt.Run.Turns.{
  Ended, over_budget, all_done, RoundLeaves, RoundOk, rounds_left, is_done_past, turn_of-RoundOk,
}
use proto_gpu.Simt.Run.{
  RunEnv, RunState, is_done, with_stop, Round, goes_on, returns, picked, round, after_round, turns,
}

module _ (env : RunEnv) (points : List (Option ℕ)) (policy : WarpPolicy)
    (room : env.max_steps < 2 ^ 64) where
  picked-RoundOk :
      (s : RunState) (counter : ℕ) (pick : Option ℕ)
      → s.step_count < env.max_steps
      → PickOk policy (length s.warps) (is_done s.warps) (counter, pick)
      → (r : Round) × (picked env points (record s { counter = counter }) pick ≡ some r)
        × RoundOk env policy s r
  unfolding picked RoundLeaves
  picked-RoundOk s counter none less p = (
    _,
    refl,
    all_done
        (λ w. elim (Bool-cases (leb (length s.warps) w)) [
          | inl le ↦ is_done_past s.warps w (leb→le (length s.warps) w le)
          | inr gt ↦ p w (ground arith)
        ])
        refl,
  )
  picked-RoundOk s counter (some w) less p =
      turn_of-RoundOk env points policy room (record s { counter = counter }) w less p

  round-RoundOk :
      (s : RunState)
      → stop_requested s.ctas ≡ false
      → length s.warps ≤ 2 ^ 31
      → Counted policy s.counter (length s.warps) (is_done s.warps)
      → (r : Round) × (round env points policy s ≡ some r) × RoundOk env policy s r
  unfolding round RoundLeaves
  round-RoundOk s on small counted = elim (Bool-cases (leb env.max_steps s.step_count)) [
    | inl le ↦
        (returns (with_stop s), rw (le), over_budget (leb→le env.max_steps s.step_count le) refl)
    | inr gt ↦
        let p =
          subst
            (λ k.
              PickOk policy (length s.warps) (is_done s.warps)
                (pick_next policy s.counter k (is_done s.warps)))
            (sym (mod-eq_of_lt {n = length s.warps} {m = 2 ^ 32} (omega arith)))
            (pick_next-PickOk policy s.counter (length s.warps) (is_done s.warps) small counted) in
        let (r, e, ok) = picked-RoundOk s _ _ (ground (arith, gt)) p in (r, rw (gt, on) e, ok)
  ]

  -- How the loop from a state leaves it.
  abbrev pub Ends : RunState → Option RunState → Type 0
  Ends s o = (s' : RunState) × (o ≡ some s') × Ended env s.ctas s'

  rounds-Ends :
      (fuel : ℕ) (s : RunState) (r : Round)
      → ((s' : RunState)
          → rounds_left env s' < fuel
          → stop_requested s'.ctas ≡ false
          → length s'.warps ≤ 2 ^ 31
          → Counted policy s'.counter (length s'.warps) (is_done s'.warps)
          → Ends s' (turns env points policy fuel s'))
      → rounds_left env s < suc fuel
      → stop_requested s.ctas ≡ false
      → length s.warps ≤ 2 ^ 31
      → round env points policy s ≡ some r
      → RoundOk env policy s r
      → Ends s (turns env points policy (suc fuel) s)
  unfolding turns RoundLeaves
  rounds-Ends fuel s (returns s') ih lt on small e ended =
      (s', ap (after_round (turns env points policy fuel)) e, ended)
  rounds-Ends fuel s (goes_on s') ih lt on small e (less, same, n, counted) =
      let (s'', e', ended) =
        ih s' (omega arith) (ap stop_requested same ∙ on) (omega (arith, n, small)) counted in
      (
        s'',
        ap (after_round (turns env points policy fuel)) e ∙ e',
        subst (λ c. Ended env c s'') same ended,
      )

  -- Where the step limit is below 2 ^ 64, there are at most 2 ^ 31 warps, the queue is not stopped and
  -- the scheduler has passed over no live warp, fuel above the live warps and the steps that are left
  -- suffices for the turns of a block. They end at a diagnostic, at the step limit with the queue
  -- stopped, or with every warp done and the queue as it was.
  pub turns-Ends :
      (fuel : ℕ) (s : RunState)
      → rounds_left env s < fuel
      → stop_requested s.ctas ≡ false
      → length s.warps ≤ 2 ^ 31
      → Counted policy s.counter (length s.warps) (is_done s.warps)
      → Ends s (turns env points policy fuel s)
  turns-Ends zero s lt on small counted = absurd (omega arith)
  turns-Ends (suc fuel) s lt on small counted =
      let (r, e, ok) = round-RoundOk s on small counted in
      rounds-Ends fuel s r (λ s' h k few c. turns-Ends fuel s' h k few c) lt on small e ok
