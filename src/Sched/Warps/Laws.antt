-- ===== src/Sched/Warps/Laws.antt =====
-- What the warp schedulers pick (src/simt/warp_scheduler.cpp): the first live warp from the counter on.
use native.Mathlib.Nat.{mod-lt, mod-eq_of_lt, mod-eq-sub-mod}
use proto_gpu.Prelude.{
  leb, leb→le, ltb→lt, ℕ, zero, suc, ◌+◌, ◌-◌, ◌%◌, ◌^◌, if◌then◌else◌, ◌≤◌, ◌<◌, ◌≡◌, refl, sym,
  ◌∙◌, ap, subst, Bool, true, false, not, ◌&&◌, Option, none, some, arith, ltb, ◌==◌, Bool-cases,
  inl, inr, ◌⊎◌, ==→ne, ==→eq, ltb→le,
}
use proto_gpu.Contracts.Words.{to_u32}
use proto_gpu.Sched.Warps.{first_live, pick_in_order, first_live_round, pick_round_robin}

module _ (is_done : ℕ → Bool) where
  -- The search finds the first live warp of its range, or shows that there is none.
  abbrev pub Found : ℕ → ℕ → Option ℕ → Type 0
  Found i end none = (j : ℕ) → i ≤ j → j < end → is_done j ≡ true
  Found i end (some w) =
      (i ≤ w) × (w < end) × (is_done w ≡ false) × ((j : ℕ) → i ≤ j → j < w → is_done j ≡ true)

  here_or_later : (P : ℕ → Type 0) (i j : ℕ) → i ≤ j → P i → (suc i ≤ j → P j) → P j
  here_or_later P i j lo h later = elim (Bool-cases (i == j)) [
    | inl e ↦ subst P (==→eq i j e) h
    | inr e ↦ later (omega (arith, ==→ne i j e))
  ]

  widen : (i end : ℕ) (r : Option ℕ) → is_done i ≡ true → Found (suc i) end r → Found i end r
  widen i end none dead h =
      λ j lo hi. here_or_later (λ n. is_done n ≡ true) i j lo dead (λ more. h j more hi)
  widen i end (some w) dead (lo', hi', live, before) = (
    omega arith,
    hi',
    live,
    λ j lo hi. here_or_later (λ n. is_done n ≡ true) i j lo dead (λ more. before j more hi),
  )

  pub first_live-Found : (left i end : ℕ) → i + left ≡ end → Found i end (first_live is_done left i)
  unfolding first_live
  first_live-Found zero i end e = λ j lo hi. absurd (omega arith)
  first_live-Found (suc left) i end e = elim (Bool-cases (is_done i)) [
    | inr live ↦
        rw (live, first_live) (omega arith, omega arith, live, λ j lo hi. absurd (omega arith))
    | inl dead ↦
        rw (dead, first_live)
          (widen i end (first_live is_done left (suc i)) dead
            (first_live-Found left (suc i) end (omega arith)))
  ]

  -- Over steps `k` of the round: the warp of step `k` is `(next + k) % warp_count`.
  abbrev pub RoundFound : (next warp_count k end : ℕ) → Option ℕ → Type 0
  RoundFound next count k end none = (j : ℕ) → k ≤ j → j < end → is_done ((next + j) % count) ≡ true
  RoundFound next count k end (some w) =
      (s : ℕ) × (k ≤ s)
      × (s < end)
      × (w ≡ (next + s) % count)
      × (is_done w ≡ false)
      × ((j : ℕ) → k ≤ j → j < s → is_done ((next + j) % count) ≡ true)

  module _ (next count : ℕ) where
    widen_round :
        (k end : ℕ) (r : Option ℕ)
        → is_done ((next + k) % count) ≡ true
        → RoundFound next count (suc k) end r
        → RoundFound next count k end r
    widen_round k end none dead h = λ j lo hi.
        here_or_later (λ n. is_done ((next + n) % count) ≡ true) k j lo dead (λ more. h j more hi)
    widen_round k end (some w) dead (s, lo', hi', e, live, before) = (
      s,
      omega arith,
      hi',
      e,
      live,
      λ j lo hi.
          here_or_later (λ n. is_done ((next + n) % count) ≡ true) k j lo dead
            (λ more. before j more hi),
    )

    -- Below 2 ^ 32 the sum of the source does not wrap.
    round_step :
        (left k : ℕ)
        → next + k < 2 ^ 32
        → first_live_round is_done count next (suc left) k ≡ (
            if is_done ((next + k) % count)
            then first_live_round is_done count next left (suc k)
            else some ((next + k) % count))
    unfolding first_live_round
    round_step left k small =
        ap
          (λ i.
            if is_done (i % count)
            then first_live_round is_done count next left (suc k)
            else some (i % count))
          (mod-eq_of_lt small)

    pub first_live_round-Found :
        (left k end : ℕ)
        → k + left ≡ end
        → next + end ≤ 2 ^ 32
        → RoundFound next count k end (first_live_round is_done count next left k)
    unfolding first_live_round
    first_live_round-Found zero k end e small = λ j lo hi. absurd (omega arith)
    first_live_round-Found (suc left) k end e small =
        elim (Bool-cases (is_done ((next + k) % count))) [
          | inr live ↦
              rw (round_step left k (omega arith), live)
                (k, omega arith, omega arith, refl, live, λ j lo hi. absurd (omega arith))
          | inl dead ↦
              rw (round_step left k (omega arith), dead)
                (widen_round k end (first_live_round is_done count next left (suc k)) dead
                  (first_live_round-Found left (suc k) end (omega arith) small))
        ]

-- What a pick of the in-order policy answers: the first live warp at or after the counter, which
-- moves to it; or none, where all the warps from the counter on are done, with the counter kept.
abbrev pub InOrderPick : ℕ → ℕ → (ℕ → Bool) → ℕ × Option ℕ → Type 0
InOrderPick current count is_done (next, none) =
    (next ≡ current) × ((j : ℕ) → current ≤ j → j < count → is_done j ≡ true)
InOrderPick current count is_done (next, some w) = (next ≡ w) × Found is_done current count (some w)

-- The in-order policy picks the first live warp at or after its counter and moves the counter to
-- it; where every warp from the counter on is done it picks none and keeps the counter.
pub pick_in_order-InOrderPick :
    (current count : ℕ) (is_done : ℕ → Bool)
    → InOrderPick current count is_done (pick_in_order current count is_done)
unfolding pick_in_order first_live
pick_in_order-InOrderPick current count is_done = elim (Bool-cases (count == 0)) [
  | inl e ↦ rw (e, pick_in_order) (refl, λ j lo hi. absurd (omega (arith, ==→eq count 0 e)))
  | inr e ↦ elim (Bool-cases (ltb current count && not (is_done current))) [
    | inl live ↦
        rw (e, live, pick_in_order)
          (
            refl,
            (
              omega arith,
              ltb→lt current count (ground arith),
              ground arith,
              λ j lo hi. absurd (omega arith),
            ),
          )
    | inr dead ↦
        rw (e, dead, pick_in_order)
          (settle (first_live is_done (count - current) current)
            (searched (Bool-cases (leb current count))))
  ]
]
  where
    nothing_left :
        (left : ℕ)
        → count ≤ current
        → left ≡ 0
        → Found is_done current count (first_live is_done left current)
    nothing_left zero h e = λ j lo hi. absurd (omega arith)
    nothing_left (suc left) h e = absurd (omega arith)

    searched :
        (leb current count ≡ true) ⊎ (leb current count ≡ false)
        → Found is_done current count (first_live is_done (count - current) current)
    searched (inl le) =
        first_live-Found is_done (count - current) current count
          (omega (arith, leb→le current count le))
    searched (inr gt) = nothing_left (count - current) (ground arith) (ground arith)

    settle :
        (r : Option ℕ)
        → Found is_done current count r
        → InOrderPick current count is_done
            (elim r [ none ↦ (current, none) | some i ↦ (i, some i) ])
    settle none h = (refl, h)
    settle (some w) h = (refl, h)

-- What a pick of the round-robin policy answers: the first live warp cyclically from the counter
-- on, with the counter left on its successor; or none, where every warp is done.
abbrev pub RoundPick : ℕ → ℕ → (ℕ → Bool) → ℕ × Option ℕ → Type 0
RoundPick next count is_done (after, none) =
    (after ≡ next) × ((w : ℕ) → w < count → is_done w ≡ true)
RoundPick next count is_done (after, some w) =
    (after ≡ (w + 1) % count) × (w < count) × RoundFound is_done next count 0 count (some w)

-- With its counter below the number of warps, and at most 2 ^ 31 warps, the round-robin policy picks the first live warp
-- cyclically from the counter on, which moves past it; where every warp is done it picks none.
pub pick_round_robin-RoundPick :
    (next count : ℕ) (is_done : ℕ → Bool)
    → next < count
    → count ≤ 2 ^ 31
    → RoundPick next count is_done (pick_round_robin next count is_done)
unfolding pick_round_robin
pick_round_robin-RoundPick next count is_done in_range small = elim (Bool-cases (count == 0)) [
  | inl e ↦ absurd (omega (arith, ==→eq count 0 e))
  | inr e ↦
      rw (e, pick_round_robin)
        (settle (first_live_round is_done count next count 0)
          (first_live_round-Found is_done next count count 0 count (omega arith) (omega arith)))
]
  where
    zero_le : (j : ℕ) → 0 ≤ j
    zero_le j = omega arith

    -- the step of the round that looks at warp w
    step_of : (w : ℕ) → w < count → (j : ℕ) × (j < count) × ((next + j) % count ≡ w)
    step_of w hi = elim (Bool-cases (ltb w next)) [
      | inl before ↦ (
        w + count - next,
        omega (arith, ltb→lt w next before),
        wraps (omega (arith, ltb→lt w next before)),
      )
      | inr after ↦ (
        w - next,
        omega arith,
        subst (λ n. n % count ≡ w) (sym (back (ltb→le w next after))) (mod-eq_of_lt hi),
      )
    ]
      where
        back : next ≤ w → next + (w - next) ≡ w
        back h = omega arith

        drop_count : (a : ℕ) → a + count - count ≡ a
        drop_count a = omega arith

        wraps : next + (w + count - next) ≡ w + count → (next + (w + count - next)) % count ≡ w
        wraps e =
            subst (λ n. n % count ≡ w) (sym e)
              (mod-eq-sub-mod (omega arith) ∙ ap (λ n. n % count) (drop_count w) ∙ mod-eq_of_lt hi)

    settle :
        (r : Option ℕ)
        → RoundFound is_done next count 0 count r
        → RoundPick next count is_done
            (elim r [ none ↦ (next, none) | some idx ↦ (to_u32 (idx + 1) % count, some idx) ])
    settle none h = (
      refl,
      λ w hi. let (j, lt, e) = step_of w hi in subst (λ n. is_done n ≡ true) e (h j (zero_le j) lt),
    )
    settle (some w) (s, lo, hi, e, live, before) =
        let below : w < count = subst (λ n. n < count) (sym e) (mod-lt (next + s) (omega arith)) in
        (ap (λ n. n % count) (mod-eq_of_lt (omega arith)), below, (s, lo, hi, e, live, before))
