-- ===== src/Simt/Launch/Fresh.antt =====
-- A launch that passes the checks has queues that nothing has stopped, and the warps of its threads.
use proto_gpu.Prelude.{
  ℕ, ◌+◌, ◌-◌, ◌/◌, ◌≤◌, ◌≡◌, refl, false, not, ◌&&◌, ◌||◌, Option, none, some, ◌==◌, arith, ltb,
  str_eq, if◌then◌else◌, if_elim, String,
}
use proto_gpu.Contracts.{LaunchConfig, e_warp_sched, e_cta_sched, e_warp_size, e_launch_overflow}
use proto_gpu.Contracts.Words.{to_u64}
use proto_gpu.Sched.Warps.{WarpPolicy, create_warp_scheduler}
use proto_gpu.Sched.Ctas.{CtaScheduler, CtaPolicy, create, create_cta_scheduler, stop_requested}
use proto_gpu.Simt.Launch.{
  SimConfig, Launch, Checked, refused, accepted, used_sm_count, choose_ctas, check_warp_scheduler,
  check_selectors, check_launch, is_zero_dim, threads_of,
}

-- The queues of an accepted launch are not stopped.
abbrev pub IsFresh : Checked → Type 0
IsFresh (refused c) = 0 ≤ 0
IsFresh (accepted l) =
    (stop_requested l.ctas.1 ≡ false)
    × (l.warp_count ≡ to_u64 (l.threads_per_block + (l.warp_size - 1)) / l.warp_size)

abbrev AreFresh : Option (CtaPolicy × CtaScheduler) → Type 0
AreFresh none = 0 ≤ 0
AreFresh (some ctas) = stop_requested ctas.1 ≡ false

create_cta_scheduler-AreFresh :
    (name : String) (sm_count : ℕ) → AreFresh (create_cta_scheduler name sm_count)
unfolding create_cta_scheduler create stop_requested
create_cta_scheduler-AreFresh name sm_count =
    if_elim AreFresh (str_eq name "fifo") refl
      (if_elim AreFresh (str_eq name "sm_round_robin") refl (omega arith))

choose_ctas-AreFresh : (cfg : SimConfig) → AreFresh (choose_ctas cfg)
choose_ctas-AreFresh cfg =
    chosen (create_cta_scheduler cfg.cta_scheduler (used_sm_count cfg))
      (create_cta_scheduler-AreFresh _ _)
  where
    chosen :
        (o : Option (CtaPolicy × CtaScheduler))
        → AreFresh o
        → AreFresh (elim o [
          | some ctas ↦ some ctas
          | none ↦
              if cfg.allow_unknown_selectors
              then create_cta_scheduler "fifo" (used_sm_count cfg)
              else none
        ])
    chosen (some ctas) fresh = fresh
    chosen none fresh =
        if_elim AreFresh cfg.allow_unknown_selectors (create_cta_scheduler-AreFresh "fifo" _)
          (omega arith)

check_warp_scheduler-IsFresh :
    (cfg : SimConfig) (l : Launch) → IsFresh (accepted l) → IsFresh (check_warp_scheduler cfg l)
check_warp_scheduler-IsFresh cfg l fresh = by_policy (create_warp_scheduler cfg.warp_scheduler)
  where
    by_policy :
        (o : Option WarpPolicy)
        → IsFresh (elim o [
          | some policy ↦ accepted l
          | none ↦ if cfg.allow_unknown_selectors then accepted l else refused e_warp_sched
        ])
    by_policy (some policy) = fresh
    by_policy none = if_elim IsFresh cfg.allow_unknown_selectors fresh (omega arith)

check_selectors-IsFresh :
    (cfg : SimConfig) (warp_size threads : ℕ) → IsFresh (check_selectors cfg warp_size threads)
unfolding check_selectors
check_selectors-IsFresh cfg warp_size threads =
    if_elim IsFresh
      (not (str_eq cfg.memory_model "no_cache_addrspace") && not cfg.allow_unknown_selectors)
      (omega arith) (by_ctas (choose_ctas cfg) (choose_ctas-AreFresh cfg))
  where
    made : CtaPolicy × CtaScheduler → Launch
    made ctas = record {
      warp_size = warp_size;
      threads_per_block = threads;
      warp_count = to_u64 (threads + (warp_size - 1)) / warp_size;
      ctas = ctas;
    }

    by_ctas :
        (o : Option (CtaPolicy × CtaScheduler))
        → AreFresh o
        → IsFresh (elim o [
          | none ↦ refused e_cta_sched
          | some ctas ↦ check_warp_scheduler cfg (made ctas)
        ])
    by_ctas none fresh = omega arith
    by_ctas (some ctas) fresh = check_warp_scheduler-IsFresh cfg (made ctas) (fresh, refl)

pub check_launch-IsFresh :
    (cfg : SimConfig) (launch : LaunchConfig) → IsFresh (check_launch cfg launch)
unfolding check_launch
check_launch-IsFresh cfg launch =
    if_elim IsFresh (is_zero_dim launch.grid_dim || is_zero_dim launch.block_dim) (omega arith)
      (by_threads (threads_of launch.block_dim))
  where
    size : ℕ
    size = if launch.warp_size == 0 then cfg.warp_size else launch.warp_size

    by_threads :
        (o : Option ℕ)
        → IsFresh (elim o [
          | none ↦ refused e_launch_overflow
          | some threads ↦
              if size == 0 || ltb 32 size
              then refused e_warp_size
              else check_selectors cfg size threads
        ])
    by_threads none = omega arith
    by_threads (some threads) =
        if_elim IsFresh (size == 0 || ltb 32 size) (omega arith)
          (check_selectors-IsFresh cfg size threads)
