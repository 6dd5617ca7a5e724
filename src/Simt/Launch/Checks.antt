-- ===== src/Simt/Launch/Checks.antt =====
-- What a launch that passes the checks satisfies (src/simt/simt.cpp).
use native.Mathlib.Nat.{div-mul-le_self, mod-eq_of_lt}
use proto_gpu.Prelude.{
  ℕ, ◌+◌, ◌-◌, ◌*◌, ◌/◌, ◌^◌, ◌≤◌, ◌≡◌, ◌≢◌, refl, sym, ◌∙◌, ap, true, false, not, ◌&&◌, ◌||◌,
  str_eq, Option, none, some, ltb, ◌==◌, if◌then◌else◌, arith, Bool-cases, inl, inr, if_no, if_yes,
  if_elim, subst, some_inj, ltb→le,
}
use proto_gpu.Contracts.{
  Dim3, LaunchConfig, e_cta_sched, e_launch_overflow, e_warp_size, e_warp_sched,
}
use proto_gpu.Contracts.Words.{to_u64}
use proto_gpu.Sched.Warps.{WarpPolicy, create_warp_scheduler}
use proto_gpu.Sched.Ctas.{CtaPolicy, CtaScheduler}
use proto_gpu.Simt.Launch.{
  SimConfig, Launch, Checked, refused, accepted, mul_u64_overflow, threads_of, check_warp_scheduler,
  choose_ctas, check_selectors, check_launch, is_zero_dim,
}

mul_le : (a b q : ℕ) → a ≤ q → a * b ≤ q * b
mul_le a b q h = grind arith

-- The product that the overflow check passes is exact.
mul_u64_overflow-exact : (a b r : ℕ) → mul_u64_overflow a b ≡ some r → r ≡ a * b
unfolding mul_u64_overflow
mul_u64_overflow-exact a b r e = elim (Bool-cases (a == 0 || b == 0)) [
  | inl z ↦ sym (some_inj (sym (if_yes (a == 0 || b == 0) (some 0) checked z) ∙ e)) ∙ zero_product z
  | inr z ↦
      let past = sym (if_no (a == 0 || b == 0) (some 0) checked z) ∙ e in
      elim (Bool-cases (ltb ((2 ^ 64 - 1) / b) a)) [
        | inl big ↦ absurd (
            never (sym (if_yes (ltb ((2 ^ 64 - 1) / b) a) none (some (to_u64 (a * b))) big) ∙ past))
        | inr fits ↦
            sym (
              some_inj
                (sym (if_no (ltb ((2 ^ 64 - 1) / b) a) none (some (to_u64 (a * b))) fits) ∙ past))
            ∙ mod-eq_of_lt (
                omega (
                  arith,
                  mul_le a b ((2 ^ 64 - 1) / b) (ltb→le ((2 ^ 64 - 1) / b) a fits),
                  div-mul-le_self (2 ^ 64 - 1) b,
                ))
      ]
]
  where
    checked : Option ℕ
    checked = if ltb ((2 ^ 64 - 1) / b) a then none else some (to_u64 (a * b))

    never : none ≢ some r
    never h = absurd cc

    zero_product : (a == 0 || b == 0) ≡ true → 0 ≡ a * b
    zero_product z = grind (arith, z)

threads_of-exact :
    (block : Dim3) (r : ℕ) → threads_of block ≡ some r → r ≡ block.x * block.y * block.z
unfolding threads_of
threads_of-exact block r e = by_rows (mul_u64_overflow block.x block.y) refl e
  where
    all_rows : Option ℕ → Option ℕ
    all_rows o = elim o [ none ↦ none | some xy ↦ mul_u64_overflow xy block.z ]

    by_rows :
        (o : Option ℕ)
        → mul_u64_overflow block.x block.y ≡ o
        → all_rows o ≡ some r
        → r ≡ block.x * block.y * block.z
    by_rows none f g = absurd cc
    by_rows (some xy) f g =
        mul_u64_overflow-exact xy block.z r g
        ∙ ap (λ n. n * block.z) (mul_u64_overflow-exact block.x block.y xy f)

-- A launch that is accepted has the sizes it was checked with.
abbrev pub HasSizes : ℕ → ℕ → Checked → Type 0
HasSizes warp_size threads (refused c) = 0 ≤ 0
HasSizes warp_size threads (accepted l) =
    (l.warp_size ≡ warp_size) × (l.threads_per_block ≡ threads)

check_warp_scheduler-HasSizes :
    (cfg : SimConfig) (l : Launch)
    → HasSizes l.warp_size l.threads_per_block (check_warp_scheduler cfg l)
check_warp_scheduler-HasSizes cfg l = by_policy (create_warp_scheduler cfg.warp_scheduler)
  where
    by_policy :
        (o : Option WarpPolicy)
        → HasSizes l.warp_size l.threads_per_block (elim o [
          | some policy ↦ accepted l
          | none ↦ if cfg.allow_unknown_selectors then accepted l else refused e_warp_sched
        ])
    by_policy (some policy) = (refl, refl)
    by_policy none =
        if_elim (HasSizes l.warp_size l.threads_per_block) cfg.allow_unknown_selectors (refl, refl)
          (omega arith)

check_selectors-HasSizes :
    (cfg : SimConfig) (warp_size threads : ℕ)
    → HasSizes warp_size threads (check_selectors cfg warp_size threads)
unfolding check_selectors
check_selectors-HasSizes cfg warp_size threads =
    if_elim (HasSizes warp_size threads)
      (not (str_eq cfg.memory_model "no_cache_addrspace") && not cfg.allow_unknown_selectors)
      (omega arith) (by_ctas (choose_ctas cfg))
  where
    made : CtaPolicy × CtaScheduler → Launch
    made ctas = record {
      warp_size = warp_size;
      threads_per_block = threads;
      warp_count = to_u64 (threads + (warp_size - 1)) / warp_size;
      ctas = ctas;
    }

    by_ctas :
        (o : Option (CtaPolicy × CtaScheduler))
        → HasSizes warp_size threads (elim o [
          | none ↦ refused e_cta_sched
          | some ctas ↦ check_warp_scheduler cfg (made ctas)
        ])
    by_ctas none = omega arith
    by_ctas (some ctas) = check_warp_scheduler-HasSizes cfg (made ctas)

-- What the checks guarantee: a warp size from 1 to 32, and the exact product of the block's
-- dimensions.
abbrev pub Guaranteed : LaunchConfig → Checked → Type 0
Guaranteed launch (refused c) = 0 ≤ 0
Guaranteed launch (accepted l) =
    (1 ≤ l.warp_size)
    × (l.warp_size ≤ 32)
    × (l.threads_per_block ≡ launch.block_dim.x * launch.block_dim.y * launch.block_dim.z)

with_sizes :
    (launch : LaunchConfig) (warp_size threads : ℕ) (c : Checked)
    → 1 ≤ warp_size
    → warp_size ≤ 32
    → threads ≡ launch.block_dim.x * launch.block_dim.y * launch.block_dim.z
    → HasSizes warp_size threads c
    → Guaranteed launch c
with_sizes launch warp_size threads (refused c) lo hi e h = omega arith
with_sizes launch warp_size threads (accepted l) lo hi e h =
    (omega (arith, h.0), omega (arith, h.0), h.1 ∙ e)

check_launch-Guaranteed :
    (cfg : SimConfig) (launch : LaunchConfig) → Guaranteed launch (check_launch cfg launch)
unfolding check_launch
check_launch-Guaranteed cfg launch =
    if_elim (Guaranteed launch) (is_zero_dim launch.grid_dim || is_zero_dim launch.block_dim)
      (omega arith) (by_threads (threads_of launch.block_dim) refl)
  where
    size : ℕ
    size = if launch.warp_size == 0 then cfg.warp_size else launch.warp_size

    by_size :
        (threads : ℕ)
        → threads_of launch.block_dim ≡ some threads
        → Guaranteed launch (
            if size == 0 || ltb 32 size
            then refused e_warp_size
            else check_selectors cfg size threads)
    by_size threads e = elim (Bool-cases (size == 0 || ltb 32 size)) [
      | inl bad ↦
          subst (Guaranteed launch)
            (sym (
              if_yes (size == 0 || ltb 32 size) (refused e_warp_size)
                (check_selectors cfg size threads) bad))
            (omega arith)
      | inr good ↦
          subst (Guaranteed launch)
            (sym (
              if_no (size == 0 || ltb 32 size) (refused e_warp_size)
                (check_selectors cfg size threads) good))
            (with_sizes launch size threads (check_selectors cfg size threads) (bounds size good).0
              (bounds size good).1 (threads_of-exact launch.block_dim threads e)
              (check_selectors-HasSizes cfg size threads))
    ]
      where
        bounds : (n : ℕ) → (n == 0 || ltb 32 n) ≡ false → (1 ≤ n) × (n ≤ 32)
        bounds n h = ground (arith, h)

    by_threads :
        (o : Option ℕ)
        → threads_of launch.block_dim ≡ o
        → Guaranteed launch (elim o [
          | none ↦ refused e_launch_overflow
          | some threads ↦
              if size == 0 || ltb 32 size
              then refused e_warp_size
              else check_selectors cfg size threads
        ])
    by_threads none e = omega arith
    by_threads (some threads) e = by_size threads e

-- A launch that the checks accept has a warp size from 1 to 32, and its number of threads in a block
-- is the exact product of the block's dimensions.
pub check_launch-accepted :
    (cfg : SimConfig) (launch : LaunchConfig) (l : Launch)
    → check_launch cfg launch ≡ accepted l
    → (1 ≤ l.warp_size)
      × (l.warp_size ≤ 32)
      × (l.threads_per_block ≡ launch.block_dim.x * launch.block_dim.y * launch.block_dim.z)
check_launch-accepted cfg launch l e =
    subst (Guaranteed launch) e (check_launch-Guaranteed cfg launch)
