-- ===== src/Simt/Run/Turns.antt =====
-- One turn in the loop over a block's warps: it ends a warp, runs an instruction or fails.
use mathlib.Core.Option
use proto_gpu.Prelude.{
  ℕ, zero, suc, ◌+◌, ◌-◌, ◌^◌, ◌≤◌, ◌<◌, ◌≡◌, refl, ap, sym, ◌∙◌, inl, Bool, true, false, Option,
  none, some, List, [], ◌∷◌, arith, if◌then◌else◌, length, length-set, get_elem?, set, if_elim,
}
use proto_gpu.Contracts.{Code, e_pc_oob, InstRecord}
use proto_gpu.Contracts.Words.{is_neg64}
use proto_gpu.Warp.{WarpState}
use proto_gpu.Units.Mem.{MemState}
use proto_gpu.Units.Exec.Floats.{FloatOps}
use proto_gpu.Instruction.{DescriptorRegistry}
use proto_gpu.Sched.Warps.{WarpPolicy, in_order_run_to_completion, round_robin_interleave_step}
use proto_gpu.Sched.Ctas.{CtaScheduler, request_stop}
use proto_gpu.Simt.Stack.{Normal, runs, ended, broken, settle}
use proto_gpu.Simt.Stack.Lanes.{normalize-total}
use proto_gpu.Simt.Step.{
  Outcome, warp_ends, steps, stops_with, warp_step, turn, fetch_and_run, outcome, run_inst,
}
use proto_gpu.Simt.Run.Picks.{Counted, PickOk}
use proto_gpu.Simt.Run.{
  RunEnv, RunState, is_done, machine_of, Round, goes_on, returns, after_turn, after_step, turn_of,
}

-- The warps that are not done.
abbrev pub live : List WarpState → ℕ
live [] = 0
live (w ∷ ws) = (if w.done then 0 else 1) + live ws

pub live-le : (ws : List WarpState) → live ws ≤ length ws
live-le [] = omega arith
live-le (w ∷ ws) = ground (arith, live-le ws)

live-set :
    (ws : List WarpState) (i : ℕ) (old new : WarpState)
    → get_elem? ws i ≡ some old
    → old.done ≡ false
    → live (set ws i new) + 1 ≡ live ws + (if new.done then 0 else 1)
live-set [] i old new at alive = cc
live-set (w ∷ ws) zero old new at alive = ground arith
live-set (w ∷ ws) (suc i) old new at alive = ground (arith, live-set ws i old new at alive)

-- A warp that ends is done, one that runs an instruction was not.
EndsDone : Outcome → Type 0
EndsDone (warp_ends m) = m.warp.done ≡ true
EndsDone (steps m) = Unit {0}
EndsDone (stops_with c m) = Unit {0}

module _ (fl : FloatOps) (registry : DescriptorRegistry) (warp_size : ℕ) (points : List (Option ℕ))
    (insts : List InstRecord) where
  outcome-EndsDone : (r : MemState × Option Code) → EndsDone (outcome r)
  unfolding EndsDone
  outcome-EndsDone (m, none) = tt
  outcome-EndsDone (m, some c) = tt

  fetch_and_run-EndsDone :
      (m : MemState) → EndsDone (fetch_and_run fl registry warp_size points insts m)
  unfolding fetch_and_run EndsDone
  fetch_and_run-EndsDone m =
      if_elim EndsDone (is_neg64 m.warp.pc) (tt {0}) (fetched (get_elem? insts m.warp.pc))
    where
      fetched :
          (o : Option InstRecord)
          → EndsDone (elim o [
            | none ↦ stops_with e_pc_oob m
            | some inst ↦ outcome (run_inst fl registry warp_size points m inst)
          ])
      fetched none = tt
      fetched (some inst) = outcome-EndsDone (run_inst fl registry warp_size points m inst)

  turn-EndsDone :
      (m : MemState) (n : Normal) → EndsDone (turn fl registry warp_size points insts m n)
  unfolding turn EndsDone
  turn-EndsDone m (runs top rest) = go m.warp.done refl
    where
      go :
          (b : Bool)
          → m.warp.done ≡ b
          → EndsDone (
              if b
              then warp_ends (record m { warp = (settle warp_size m.warp (runs top rest)).0 })
              else fetch_and_run fl registry warp_size points insts
                  (record m { warp = (settle warp_size m.warp (runs top rest)).0 }))
      go true e = e
      go false e = fetch_and_run-EndsDone _
  turn-EndsDone m ended = refl
  turn-EndsDone m (broken rest) = tt

  warp_step-EndsDone :
      (m : MemState)
      → (o : Outcome) × (warp_step fl registry warp_size points insts m ≡ some o) × EndsDone o
  unfolding warp_step
  warp_step-EndsDone m =
      let (n, e) =
        normalize-total (length m.warp.simt_stack) m.warp.exited m.warp.simt_stack (omega arith) in
      (
        turn fl registry warp_size points insts m n,
        ap (Option.map (turn fl registry warp_size points insts m)) e,
        turn-EndsDone m n,
      )

-- How a block's loop ends, from a queue: it fails, it stops the queue at the budget, or no warp is
-- left.
pub data Ended (env : RunEnv) (ctas : CtaScheduler) (s : RunState) : Type 0 where
  failed : (c : Code) → s.diagnostic ≡ some c → Ended env ctas s
  over_budget : env.max_steps ≤ s.step_count → s.ctas ≡ request_stop ctas → Ended env ctas s
  all_done : ((w : ℕ) → is_done s.warps w ≡ true) → s.ctas ≡ ctas → Ended env ctas s

-- What the rounds left to a block are at most.
abbrev pub rounds_left : RunEnv → RunState → ℕ
rounds_left env s = live s.warps + (env.max_steps - s.step_count)

-- What a round that goes on or returns leaves, of a number of rounds, a queue and a number of warps.
unfoldable pub RoundLeaves : RunEnv → WarpPolicy → ℕ → CtaScheduler → ℕ → Round → Type 0
RoundLeaves env policy left ctas count (goes_on s') =
    (rounds_left env s' < left)
    × (s'.ctas ≡ ctas)
    × (length s'.warps ≡ count)
    × Counted policy s'.counter (length s'.warps) (is_done s'.warps)
RoundLeaves env policy left ctas count (returns s') = Ended env ctas s'

abbrev pub RoundOk : RunEnv → WarpPolicy → RunState → Round → Type 0
RoundOk env policy s r = RoundLeaves env policy (rounds_left env s) s.ctas (length s.warps) r

-- A warp that is not picked is as it was.
is_done-set :
    (ws : List WarpState) (i j : ℕ) (new : WarpState)
    → j < i
    → is_done (set ws i new) j ≡ is_done ws j
is_done-set [] i j new lt = refl
is_done-set (w ∷ ws) zero j new lt = absurd (omega arith)
is_done-set (w ∷ ws) (suc i) zero new lt = refl
is_done-set (w ∷ ws) (suc i) (suc j) new lt = is_done-set ws i j new (omega arith)

pub is_done_past : (ws : List WarpState) (w : ℕ) → length ws ≤ w → is_done ws w ≡ true
is_done_past [] w le = refl
is_done_past (x ∷ ws) zero le = absurd (omega arith)
is_done_past (x ∷ ws) (suc w) le = is_done_past ws w (omega arith)

Counted-set :
    (policy : WarpPolicy) (ws : List WarpState) (counter w : ℕ) (new : WarpState)
    → PickOk policy (length ws) (is_done ws) (counter, some w)
    → Counted policy counter (length (set ws w new)) (is_done (set ws w new))
Counted-set in_order_run_to_completion ws counter w new p =
    λ j lt. is_done-set ws w j new (omega (arith, p.2)) ∙ p.1 j lt
Counted-set round_robin_interleave_step ws counter w new p =
    inl (omega (arith, p.1, length-set ws w new))

alive-of :
    (policy : WarpPolicy) (n : ℕ) (done : ℕ → Bool) (counter w : ℕ)
    → PickOk policy n done (counter, some w)
    → done w ≡ false
alive-of in_order_run_to_completion n done counter w p = p.0
alive-of round_robin_interleave_step n done counter w p = p.0

module _ (env : RunEnv) (points : List (Option ℕ)) (policy : WarpPolicy)
    (room : env.max_steps < 2 ^ 64) where
  after_turn-RoundOk :
      (s : RunState) (w : ℕ) (warp : WarpState) (o : Outcome)
      → get_elem? s.warps w ≡ some warp
      → warp.done ≡ false
      → s.step_count < env.max_steps
      → PickOk policy (length s.warps) (is_done s.warps) (s.counter, some w)
      → EndsDone o
      → RoundOk env policy s (after_turn s w o)
  unfolding after_turn RoundLeaves EndsDone
  after_turn-RoundOk s w warp (warp_ends m) at alive less pick ends = (
    ground (arith, live-set s.warps w warp m.warp at alive),
    refl,
    length-set s.warps w m.warp,
    Counted-set policy s.warps s.counter w m.warp pick,
  )
  after_turn-RoundOk s w warp (steps m) at alive less pick ends = (
    ground (arith, live-set s.warps w warp m.warp at alive),
    refl,
    length-set s.warps w m.warp,
    Counted-set policy s.warps s.counter w m.warp pick,
  )
  after_turn-RoundOk s w warp (stops_with c m) at alive less pick ends = failed c refl

  -- A turn of the warp that was picked.
  pub turn_of-RoundOk :
      (s : RunState) (w : ℕ)
      → s.step_count < env.max_steps
      → PickOk policy (length s.warps) (is_done s.warps) (s.counter, some w)
      → (r : Round) × (turn_of env points s w (get_elem? s.warps w) ≡ some r)
        × RoundOk env policy s r
  unfolding turn_of after_step
  turn_of-RoundOk s w less pick = go (get_elem? s.warps w) refl
    where
      go :
          (o : Option WarpState)
          → get_elem? s.warps w ≡ o
          → (r : Round) × (turn_of env points s w o ≡ some r) × RoundOk env policy s r
      go none at =
          let e : true ≡ false =
            sym (ap (λ o. elim o [ none ↦ true | some warp ↦ warp.done ]) at)
            ∙ alive-of policy _ _ s.counter w pick in
          cc
      go (some warp) at =
          let alive : warp.done ≡ false =
            sym (ap (λ o. elim o [ none ↦ true | some warp ↦ warp.done ]) at)
            ∙ alive-of policy _ _ s.counter w pick in
          let (o, e, ends) =
            warp_step-EndsDone env.fl env.registry env.launch.warp_size points env.insts
              (machine_of s warp) in
          (
            after_turn s w o,
            ap
                  (λ b.
                    if b
                    then some (goes_on s)
                    else after_step s w (
                        warp_step env.fl env.registry env.launch.warp_size points env.insts
                          (machine_of s warp)))
                  alive
                ∙ ap (after_step s w) e,
            after_turn-RoundOk s w warp o at alive less pick ends,
          )
