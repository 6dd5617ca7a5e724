-- ===== src/Simt/Run/Blocks.antt =====
-- The loop over thread blocks ends, and so does a run.
use mathlib.Core.Option
use native.Mathlib.Nat.{mod-eq_of_lt}
use proto_gpu.Prelude.{
  ℕ, zero, suc, ◌+◌, ◌^◌, ◌≤◌, ◌<◌, ◌≡◌, refl, ap, sym, ◌∙◌, subst, ◌⊎◌, inl, inr, Bool, true,
  false, Option, none, some, List, [], ◌∷◌, arith, ltb, if_yes, if◌then◌else◌, length, get_or, set,
}
use proto_gpu.Contracts.{Code}
use proto_gpu.Warp.{WarpState}
use proto_gpu.Sched.Warps.{
  WarpPolicy, in_order_run_to_completion, round_robin_interleave_step, on_cta_start,
}
use proto_gpu.Sched.Ctas.{
  CtaScheduler, CtaPolicy, fifo, sm_round_robin, CtaWorkItem, Acquired, waits, nothing, item,
  queue_of, acquire, serve, stop_requested, request_stop,
}
use proto_gpu.Simt.Cfa.{Analysis, diag, reconv}
use proto_gpu.Simt.Run.Picks.{Counted}
use proto_gpu.Simt.Run.Turns.{Ended, failed, over_budget, all_done, live-le}
use proto_gpu.Simt.Run.Ends.{turns-Ends}
use proto_gpu.Simt.Run.{
  RunEnv, RunState, is_done, init_warp_of, init_warps, started, analyzed, run_started, run_one_cta,
  policy_of,
}
use proto_gpu.Simt.Run.Kernels.{after_block, acquired, blocks, waiting}

Counted-start :
    (policy : WarpPolicy) (n : ℕ) (done : ℕ → Bool) → Counted policy (on_cta_start policy) n done
unfolding on_cta_start
Counted-start in_order_run_to_completion n done = λ j lt. absurd (omega arith)
Counted-start round_robin_interleave_step zero done = inr refl
Counted-start round_robin_interleave_step (suc n) done = inl (omega arith)

-- Below 2 ^ 32 warps the loop that starts them ends, with all of them.
init_warps-all :
    (env : RunEnv) (i : CtaWorkItem) (left w : ℕ)
    → w + left ≡ env.launch.warp_count
    → env.launch.warp_count < 2 ^ 32
    → (ws : List WarpState) × (init_warps env i (suc left) w ≡ some ws) × (length ws ≡ left)
unfolding init_warps
init_warps-all env i zero w e small = ([], rw (lt_no (omega arith)) refl, refl)
  where
    lt_no : env.launch.warp_count ≤ w → ltb w env.launch.warp_count ≡ false
    lt_no h = ground (arith, h)
init_warps-all env i (suc left) w e small =
    let (ws, rest, n) = init_warps-all env i left (w + 1) (omega (arith, e)) small in
    (
      init_warp_of env i w ∷ ws,
      if_yes (ltb w env.launch.warp_count) _ (some []) (ground (arith, e))
          ∙ ap
              (λ v.
                Option.map (λ warps. init_warp_of env i w ∷ warps) (init_warps env i (suc left) v))
              (mod-eq_of_lt {n = w + 1} {m = 2 ^ 32} (omega arith))
          ∙ ap (Option.map (λ warps. init_warp_of env i w ∷ warps)) rest,
      ground (arith, n),
    )

module _ (env : RunEnv) (room : env.max_steps < 2 ^ 64)
    (small : env.launch.warp_count ≤ 2 ^ 31) where
  analyzed-Ended :
      (s : RunState) (a : Analysis)
      → stop_requested s.ctas ≡ false
      → length s.warps ≤ 2 ^ 31
      → (s' : RunState) × (analyzed env s a ≡ some s') × Ended env s.ctas s'
  unfolding analyzed
  analyzed-Ended s (diag c) on few = (_, refl, failed c refl)
  analyzed-Ended s (reconv points) on few =
      let policy = policy_of env.warp_scheduler in
      turns-Ends env points policy room (suc (length s.warps + env.max_steps))
        (record s { counter = on_cta_start policy }) (omega (arith, live-le s.warps)) on few
        (Counted-start policy (length s.warps) (is_done s.warps))

  -- A block's run ends: it fails, it stops the queue at the step limit, or its warps are done.
  pub run_one_cta-Ended :
      (s : RunState) (i : CtaWorkItem)
      → stop_requested s.ctas ≡ false
      → (s' : RunState) × (run_one_cta env s i ≡ some s') × Ended env s.ctas s'
  unfolding run_one_cta started
  run_one_cta-Ended s i on =
      let (ws, e, n) = init_warps-all env i env.launch.warp_count 0 (omega arith) (omega arith) in
      subst
        (λ o.
          (s' : RunState) × (run_started env (Option.map (λ warps. record s { warps = warps }) o)
            ≡ some s')
          × Ended env s.ctas s')
        (sym e) (analyzed-Ended (record s { warps = ws }) _ on (omega (arith, n)))

-- How the loop over the blocks ends.
pub data Finished (env : RunEnv) (policy : CtaPolicy) (s : RunState) : Type 0 where
  run_fails : (c : Code) → s.diagnostic ≡ some c → Finished env policy s
  budget_spent : s.diagnostic ≡ none → env.max_steps ≤ s.step_count → Finished env policy s
  all_blocks_done : s.diagnostic ≡ none → waiting policy s.ctas ≡ 0 → Finished env policy s

-- What SM 0 gets from queues that are closed.
data Got (policy : CtaPolicy) (ctas : CtaScheduler) : CtaScheduler × Acquired → Type 0 where
  got_stop : stop_requested ctas ≡ true → Got policy ctas (ctas, nothing)
  got_end : waiting policy ctas ≡ 0 → Got policy ctas (ctas, nothing)
  got_item :
      (i : CtaWorkItem) (next : CtaScheduler)
      → waiting policy next + 1 ≡ waiting policy ctas
      → next.is_closed ≡ true
      → stop_requested next ≡ false
      → Got policy ctas (next, item i)

get_or-set_tail :
    (queues : List (List CtaWorkItem)) (sm : ℕ) (first : CtaWorkItem) (rest : List CtaWorkItem)
    → get_or queues sm [] ≡ first ∷ rest
    → get_or (set queues sm rest) sm [] ≡ rest
get_or-set_tail [] sm first rest e = cc
get_or-set_tail (q ∷ qs) zero first rest e = refl
get_or-set_tail (q ∷ qs) (suc sm) first rest e = get_or-set_tail qs sm first rest e

waiting-set :
    (policy : CtaPolicy) (ctas : CtaScheduler) (first : CtaWorkItem) (rest : List CtaWorkItem)
    → get_or ctas.queues (queue_of policy ctas 0) [] ≡ first ∷ rest
    → waiting policy (record ctas { queues = set ctas.queues (queue_of policy ctas 0) rest }) + 1
      ≡ waiting policy ctas
waiting-set fifo ctas first rest e =
    ground (arith, ap length (get_or-set_tail ctas.queues 0 first rest e), ap length e)
waiting-set sm_round_robin ctas first rest e = ground (
  arith,
  ap length (get_or-set_tail ctas.queues (queue_of sm_round_robin ctas 0) first rest e),
  ap length e,
)

acquire-Got :
    (policy : CtaPolicy) (ctas : CtaScheduler)
    → ctas.is_closed ≡ true
    → Got policy ctas (acquire policy ctas 0)
unfolding acquire stop_requested
acquire-Got policy ctas closed = go ctas.is_stopped refl
  where
    served :
        (queue : List CtaWorkItem)
        → get_or ctas.queues (queue_of policy ctas 0) [] ≡ queue
        → ctas.is_stopped ≡ false
        → Got policy ctas (serve ctas (queue_of policy ctas 0) queue)
    served [] e on =
        subst (λ b. Got policy ctas (ctas, if b then nothing else waits)) (sym closed)
          (got_end (ap length e))
    served (first ∷ rest) e on = got_item first _ (waiting-set policy ctas first rest e) closed on

    go :
        (b : Bool)
        → ctas.is_stopped ≡ b
        → Got policy ctas (
            if b
            then (ctas, nothing)
            else serve ctas
                (queue_of policy ctas 0)
                (get_or ctas.queues (queue_of policy ctas 0) []))
    go true stop = got_stop stop
    go false on = served _ refl on

waiting-request_stop :
    (policy : CtaPolicy) (ctas : CtaScheduler)
    → waiting policy (request_stop ctas) ≡ waiting policy ctas
unfolding request_stop
waiting-request_stop fifo ctas = refl
waiting-request_stop sm_round_robin ctas = refl

-- Before a turn of the loop: nothing failed, the queues are closed, and they are stopped only where the
-- steps are spent.
abbrev pub Ready : RunEnv → RunState → Type 0
Ready env s =
    (s.diagnostic ≡ none)
    × (s.ctas.is_closed ≡ true)
    × ((stop_requested s.ctas ≡ false) ⊎ (env.max_steps ≤ s.step_count))

module _ (env : RunEnv) (policy : CtaPolicy) (room : env.max_steps < 2 ^ 64)
    (small : env.launch.warp_count ≤ 2 ^ 31) where
  Loop : Option RunState → Type 0
  Loop o = (s' : RunState) × (o ≡ some s') × Finished env policy s'

  after_block-Loop :
      (next : RunState → Option RunState) (ctas : CtaScheduler) (s : RunState) (d : Option Code)
      → s.diagnostic ≡ d
      → Ended env ctas s
      → ctas.is_closed ≡ true
      → stop_requested ctas ≡ false
      → (s.diagnostic ≡ none
          → s.ctas.is_closed ≡ true
          → waiting policy s.ctas ≡ waiting policy ctas
          → (stop_requested s.ctas ≡ false) ⊎ (env.max_steps ≤ s.step_count)
          → Loop (next s))
      → Loop (elim d [ none ↦ next s | some c ↦ some s ])
  unfolding Loop stop_requested request_stop
  after_block-Loop next ctas s (some c) e ended closed on ih = (s, refl, run_fails c e)
  after_block-Loop next ctas s none e (failed c e') closed on ih =
      let clash : none ≡ some c = sym e ∙ e' in cc
  after_block-Loop next ctas s none e (over_budget le q) closed on ih =
      ih e (ap (λ c. c.is_closed) q ∙ closed)
        (ap (waiting policy) q ∙ waiting-request_stop policy ctas) (inr le)
  after_block-Loop next ctas s none e (all_done all q) closed on ih =
      ih e (ap (λ c. c.is_closed) q ∙ closed) (ap (waiting policy) q)
        (inl (ap stop_requested q ∙ on))

  Got-Loop :
      (next : RunState → Option RunState) (s : RunState) (r : CtaScheduler × Acquired)
      → ((s' : RunState)
          → Ready env s'
          → waiting policy s'.ctas < waiting policy s.ctas
          → Loop (next s'))
      → Ready env s
      → Got policy s.ctas r
      → Loop (acquired env next (record s { ctas = r.0 }) r.1)
  unfolding Loop
  Got-Loop next s _ ih (fine, closed, inl on) (got_stop stop) =
      let clash : false ≡ true = sym on ∙ stop in cc
  Got-Loop next s _ ih (fine, closed, inr le) (got_stop stop) = (_, refl, budget_spent fine le)
  Got-Loop next s _ ih (fine, closed, rest) (got_end none_left) =
      (_, refl, all_blocks_done fine none_left)
  Got-Loop next s _ ih (fine, closed, rest) (got_item i ctas less closed' on) =
      let (s', e, ended) = run_one_cta-Ended env room small (record s { ctas = ctas }) i on in
      subst (λ o. Loop (after_block next o)) (sym e)
        (after_block-Loop next ctas s' s'.diagnostic refl ended closed' on
          (λ fine' shut same rest'. ih s' (fine', shut, rest') (omega (arith, same, less))))

  -- Where the step limit is below 2 ^ 64, a block has at most 2 ^ 31 warps, nothing has failed, the
  -- queues are closed, and they are stopped only at the step limit, fuel above the waiting blocks
  -- suffices for the loop over the blocks. It ends at a diagnostic, at the step limit or when no block
  -- waits.
  pub blocks-Finished :
      (fuel : ℕ) (s : RunState)
      → Ready env s
      → waiting policy s.ctas < fuel
      → (s' : RunState) × (blocks env policy fuel s ≡ some s') × Finished env policy s'
  unfolding blocks Loop
  blocks-Finished zero s ready lt = absurd (omega arith)
  blocks-Finished (suc fuel) s ready lt =
      Got-Loop (blocks env policy fuel) s _
        (λ s' r h. blocks-Finished fuel s' r (omega (arith, h, lt))) ready
        (acquire-Got policy s.ctas ready.1)
