-- ===== src/Simt/Stack/Lanes.antt =====
-- Where the lanes of a warp are on its reconvergence stack.
use proto_gpu.Prelude.{
  ℕ, zero, suc, ◌≤◌, ◌≡◌, refl, sym, ◌∙◌, ap, subst, Bool, true, false, ◌&&◌, ◌||◌, Option, none,
  some, List, [], ◌∷◌, ◌==◌, if◌then◌else◌, length, arith, Bool-cases, inl, inr, if_no, ==→eq,
  if_yes, some_inj,
}
use proto_gpu.Contracts.{LaneMask, lane_mask_or_same_width, lane_mask_empty, lane_mask_test}
use proto_gpu.Contracts.Masks.{lane_mask_test-or}
use proto_gpu.Warp.{SimtFrame}
use proto_gpu.Simt.Stack.{merge_join, Normal, runs, ended, broken, normalize, live_top}

-- Some frame of the stack has the lane.
abbrev pub on_stack : ℕ → List SimtFrame → Bool
on_stack lane [] = false
on_stack lane (f ∷ rest) = lane_mask_test f.active lane || on_stack lane rest

-- Every mask of the stack has one width, at most 32.
pub data HasWidth (w : ℕ) : List SimtFrame → Type 0 where
  bottom : HasWidth w []
  above :
      {f : SimtFrame} {rest : List SimtFrame}
      → f.active.width ≡ w
      → HasWidth w rest
      → HasWidth w (f ∷ rest)

-- One join frame of the stack took the lanes that arrived.
pub data Merged (pc : ℕ) (arrived : LaneMask) : List SimtFrame → List SimtFrame → Type 0 where
  here :
      {f : SimtFrame} {rest : List SimtFrame}
      → Merged pc arrived
          (f ∷ rest)
          (record f { active = lane_mask_or_same_width f.active arrived } ∷ rest)
  there :
      {f : SimtFrame} {rest merged : List SimtFrame}
      → Merged pc arrived rest merged
      → Merged pc arrived (f ∷ rest) (f ∷ merged)

module _ (pc : ℕ) (arrived : LaneMask) where
  merge_join-Merged :
      (stack merged : List SimtFrame)
      → merge_join pc arrived stack ≡ some merged
      → Merged pc arrived stack merged
  unfolding merge_join
  merge_join-Merged [] merged e = absurd cc
  merge_join-Merged (f ∷ rest) merged e = elim (Bool-cases test) [
    | inl g ↦
        subst (λ m. Merged pc arrived (f ∷ rest) m)
          (some_inj (sym (if_yes test taken (onto more) g) ∙ e)) here
    | inr g ↦ by_rest more refl (merge_join-Merged rest) (sym (if_no test taken (onto more) g) ∙ e)
  ]
    where
      test : Bool
      test = f.is_join && f.pc == pc

      more : Option (List SimtFrame)
      more = merge_join pc arrived rest

      taken : Option (List SimtFrame)
      taken = some (record f { active = lane_mask_or_same_width f.active arrived } ∷ rest)

      onto : Option (List SimtFrame) → Option (List SimtFrame)
      onto o = elim o [ none ↦ none | some m ↦ some (f ∷ m) ]

      by_rest :
          (o : Option (List SimtFrame))
          → more ≡ o
          → ((m : List SimtFrame) → more ≡ some m → Merged pc arrived rest m)
          → onto o ≡ some merged
          → Merged pc arrived (f ∷ rest) merged
      by_rest none k ih h = absurd cc
      by_rest (some m) k ih h =
          subst (λ n. Merged pc arrived (f ∷ rest) n) (some_inj h) (there (ih m k))

  pub Merged-length : {s m : List SimtFrame} → Merged pc arrived s m → length m ≡ length s
  Merged-length here = refl
  Merged-length (there h) = ap suc (Merged-length h)

  pub Merged-HasWidth :
      {s m : List SimtFrame} (w : ℕ) → Merged pc arrived s m → HasWidth w s → HasWidth w m
  unfolding lane_mask_or_same_width
  Merged-HasWidth w here (above e h) = above e h
  Merged-HasWidth w (there g) (above e h) = above e (Merged-HasWidth w g h)

  pub Merged-on_stack :
      {s m : List SimtFrame} (w lane : ℕ)
      → Merged pc arrived s m
      → HasWidth w s
      → arrived.width ≡ w
      → on_stack lane m ≡ (lane_mask_test arrived lane || on_stack lane s)
  Merged-on_stack w lane (here {f = f} {rest = rest}) (above e h) a =
      ground (arith, lane_mask_test-or f.active arrived lane (e ∙ sym a))
  Merged-on_stack w lane (there {f = f} {rest = rest} {merged = merged} g) (above e h) a =
      ground (arith, Merged-on_stack w lane g h a)

-- The ways a turn of the loop goes.
pub data Turn (fuel : ℕ) (exited : LaneMask) (top : SimtFrame) (rest : List SimtFrame)
    : Option Normal → Type 0 where
  pops :
      lane_mask_empty (live_top exited top).active ≡ true
      → Turn fuel exited top rest (normalize fuel exited rest)
  joins :
      lane_mask_empty (live_top exited top).active ≡ false
      → Turn fuel exited top rest
          (some (runs (record (live_top exited top) { is_join = false }) rest))
  merges :
      (merged : List SimtFrame)
      → Merged top.pc (live_top exited top).active rest merged
      → Turn fuel exited top rest (normalize fuel exited merged)
  breaks :
      lane_mask_empty (live_top exited top).active ≡ false
      → top.is_join ≡ false
      → top.pc ≡ top.reconv_pc
      → merge_join top.pc (live_top exited top).active rest ≡ none
      → Turn fuel exited top rest (some (broken rest))
  stays :
      lane_mask_empty (live_top exited top).active ≡ false
      → top.is_join ≡ false
      → Turn fuel exited top rest (some (runs (live_top exited top) rest))

pub normalize-Turn :
    (fuel : ℕ) (exited : LaneMask) (top : SimtFrame) (rest : List SimtFrame)
    → Turn fuel exited top rest (normalize (suc fuel) exited (top ∷ rest))
unfolding normalize
normalize-Turn fuel exited top rest = elim (Bool-cases (lane_mask_empty live.active)) [
  | inl e ↦ subst T (sym (if_yes (lane_mask_empty live.active) popped on e)) (pops e)
  | inr e ↦
      subst T (sym (if_no (lane_mask_empty live.active) popped on e))
        (elim (Bool-cases top.is_join) [
          | inl f ↦ subst T (sym (if_yes top.is_join joined past f)) (joins e)
          | inr f ↦
              subst T (sym (if_no top.is_join joined past f))
                (elim (Bool-cases (top.pc == top.reconv_pc)) [
                  | inl g ↦
                      subst T (sym (if_yes (top.pc == top.reconv_pc) (arrive into) kept g))
                        (at_join e f (==→eq top.pc top.reconv_pc g) into refl)
                  | inr g ↦
                      subst T (sym (if_no (top.pc == top.reconv_pc) (arrive into) kept g))
                        (stays e f)
                ])
        ])
]
  where
    T : Option Normal → Type 0
    T = Turn fuel exited top rest

    live : SimtFrame
    live = live_top exited top

    popped : Option Normal
    popped = normalize fuel exited rest

    joined : Option Normal
    joined = some (runs (record live { is_join = false }) rest)

    into : Option (List SimtFrame)
    into = merge_join top.pc live.active rest

    arrive : Option (List SimtFrame) → Option Normal
    arrive o = elim o [ none ↦ some (broken rest) | some merged ↦ normalize fuel exited merged ]

    kept : Option Normal
    kept = some (runs live rest)

    past : Option Normal
    past = if top.pc == top.reconv_pc then arrive into else kept

    on : Option Normal
    on = if top.is_join then joined else past

    at_join :
        lane_mask_empty live.active ≡ false
        → top.is_join ≡ false
        → top.pc ≡ top.reconv_pc
        → (o : Option (List SimtFrame)) → into ≡ o
        → T (arrive o)
    at_join e f met none h = breaks e f met h
    at_join e f met (some merged) h =
        merges merged (merge_join-Merged top.pc live.active rest merged h)

-- The loop ends within as many turns as the stack is deep.
pub normalize-total :
    (fuel : ℕ) (exited : LaneMask) (stack : List SimtFrame)
    → length stack ≤ fuel
    → (n : Normal) × (normalize fuel exited stack ≡ some n)
unfolding normalize
normalize-total fuel exited [] h = (ended, refl)
normalize-total zero exited (top ∷ rest) h = absurd (omega arith)
normalize-total (suc fuel) exited (top ∷ rest) h =
    answers (normalize (suc fuel) exited (top ∷ rest)) (normalize-Turn fuel exited top rest)
      (λ s lt. normalize-total fuel exited s lt)
  where
    answers :
        (o : Option Normal)
        → Turn fuel exited top rest o
        → ((s : List SimtFrame)
            → length s ≤ fuel
            → (n : Normal) × (normalize fuel exited s ≡ some n))
        → (n : Normal) × (o ≡ some n)
    answers o (pops e) ih = ih rest (omega arith)
    answers o (joins e) ih = (runs (record (live_top exited top) { is_join = false }) rest, refl)
    answers o (merges merged m) ih =
        ih merged (omega (arith, Merged-length top.pc (live_top exited top).active m))
    answers o (breaks lane path met e) ih = (broken rest, refl)
    answers o (stays e f) ih = (runs (live_top exited top) rest, refl)
