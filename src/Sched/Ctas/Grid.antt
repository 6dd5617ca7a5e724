-- ===== src/Sched/Ctas/Grid.antt =====
-- The blocks of a grid are submitted in the order of their linear numbers (src/simt/simt.cpp).
use native.Mathlib.Nat.{mod-eq_of_lt, add-mul}
use proto_gpu.Prelude.{
  ℕ, zero, suc, ◌+◌, ◌*◌, ◌^◌, ◌≤◌, ◌≡◌, refl, sym, subst, ◌∙◌, ap, ap₂, List, [], ◌∷◌, ◌++◌, map,
  arith,
}
use proto_gpu.Contracts.{Dim3}
use proto_gpu.Sched.Ctas.{CtaWorkItem, grid_row, grid_plane, grid_items}

-- n numbers from `a` on
abbrev pub count_from : ℕ → ℕ → List ℕ
count_from a zero = []
count_from a (suc n) = a ∷ count_from (suc a) n

count_from-append : (a m n : ℕ) → count_from a m ++ count_from (a + m) n ≡ count_from a (m + n)
count_from-append a zero n = ap₂ count_from (omega arith) (omega arith)
count_from-append a (suc m) n =
    ap (λ l. a ∷ l)
      (ap (λ b. count_from (suc a) m ++ count_from b n) (omega arith)
        ∙ count_from-append (suc a) m n)
    ∙ ap (count_from a) (succ_add m n)
  where
    succ_add : (m n : ℕ) → suc (m + n) ≡ suc m + n
    succ_add m n = omega arith

abbrev pub numbers : List CtaWorkItem → List ℕ
numbers items = map (λ (i : CtaWorkItem). i.cta_linear) items

numbers-append : (xs ys : List CtaWorkItem) → numbers (xs ++ ys) ≡ numbers xs ++ numbers ys
numbers-append [] ys = refl
numbers-append (x ∷ xs) ys = ap (λ l. x.cta_linear ∷ l) (numbers-append xs ys)

zero_times : (x : ℕ) → 0 * x ≡ 0
zero_times x = omega arith

none_left : (a n : ℕ) → n ≡ 0 → [] ≡ count_from a n
none_left a n e = sym (ap (count_from a) e)

next_row : (a x : ℕ) → suc a * x ≡ a * x + x
next_row a x = grind arith

mul_mono : (a b x : ℕ) → a ≤ b → a * x ≤ b * x
mul_mono a b x h = grind arith

-- Two runs of numbers, the second from where the first ends.
runs_on :
    (xs ys : List CtaWorkItem) (a b m n k : ℕ)
    → numbers xs ≡ count_from a m
    → numbers ys ≡ count_from b n
    → b ≡ a + m
    → k ≡ m + n
    → numbers (xs ++ ys) ≡ count_from a k
runs_on xs ys a b m n k hx hy hb hk =
    numbers-append xs ys
    ∙ ap₂ ◌++◌ hx (hy ∙ ap (λ c. count_from c n) hb)
    ∙ count_from-append a m n
    ∙ ap (count_from a) (sym hk)

module _ (g : Dim3) where
  abbrev first : ℕ → ℕ → ℕ
  first cz cy = (cz * g.y + cy) * g.x

  grid_row-numbers :
      (cz cy left cx : ℕ)
      → first cz cy + cx + left ≤ 2 ^ 64
      → numbers (grid_row g cz cy left cx) ≡ count_from (first cz cy + cx) left
  unfolding grid_row
  grid_row-numbers cz cy zero cx h = refl
  grid_row-numbers cz cy (suc left) cx h = ap₂ ◌∷◌ (mod-eq_of_lt (omega arith)) (
      grid_row-numbers cz cy left (suc cx) (omega arith)
      ∙ ap (λ n. count_from n left) (omega arith))

  grid_plane-numbers :
      (cz left cy : ℕ)
      → first cz (cy + left) ≤ 2 ^ 64
      → numbers (grid_plane g cz left cy) ≡ count_from (first cz cy) (left * g.x)
  unfolding grid_plane
  grid_plane-numbers cz zero cy h = none_left (first cz cy) (0 * g.x) (zero_times g.x)
  grid_plane-numbers cz (suc left) cy h =
      runs_on (grid_row g cz cy g.x 0) (grid_plane g cz left (suc cy)) (first cz cy)
        (first cz (suc cy)) g.x (left * g.x) (suc left * g.x)
        (grid_row-numbers cz cy g.x 0 (omega (arith, room))
          ∙ ap (λ n. count_from n g.x) (omega arith))
        (grid_plane-numbers cz left (suc cy) (omega (arith, room))) below
        (omega (arith, next_row left g.x))
    where
      below : first cz (suc cy) ≡ first cz cy + g.x
      below = ap (λ n. n * g.x) (omega arith) ∙ next_row (cz * g.y + cy) g.x

      room : (first cz cy + g.x ≤ 2 ^ 64) × (first cz (suc cy + left) ≤ 2 ^ 64)
      room = (
        omega (
          arith,
          below,
          mul_mono (cz * g.y + suc cy) (cz * g.y + (cy + suc left)) g.x (omega arith),
          h,
        ),
        omega (
          arith,
          mul_mono (cz * g.y + (suc cy + left)) (cz * g.y + (cy + suc left)) g.x (omega arith),
          h,
        ),
      )

  grid_items-numbers_from :
      (left cz : ℕ)
      → (cz + left) * g.y * g.x ≤ 2 ^ 64
      → numbers (grid_items g left cz) ≡ count_from (cz * g.y * g.x) (left * g.y * g.x)
  unfolding grid_items
  grid_items-numbers_from zero cz h =
      none_left (cz * g.y * g.x) (0 * g.y * g.x)
        (ap (λ n. n * g.x) (zero_times g.y) ∙ zero_times g.x)
  grid_items-numbers_from (suc left) cz h =
      runs_on (grid_plane g cz g.y 0) (grid_items g left (suc cz)) (cz * g.y * g.x)
        (suc cz * g.y * g.x) (g.y * g.x) (left * g.y * g.x) (suc left * g.y * g.x)
        (grid_plane-numbers cz g.y 0 room.0
          ∙ ap (λ n. count_from (n * g.x) (g.y * g.x)) (omega arith))
        (grid_items-numbers_from left (suc cz) room.1) (deeper cz) (deeper left ∙ omega arith)
    where
      deeper : (a : ℕ) → suc a * g.y * g.x ≡ a * g.y * g.x + g.y * g.x
      deeper a = ap (λ n. n * g.x) (next_row a g.y) ∙ add-mul (a * g.y) g.y g.x

      rows : suc cz * g.y ≤ (cz + suc left) * g.y
      rows = mul_mono (suc cz) (cz + suc left) g.y (omega arith)

      shifted : (a b : ℕ) → suc a + b ≡ a + suc b
      shifted a b = omega arith

      room : (first cz (0 + g.y) ≤ 2 ^ 64) × ((suc cz + left) * g.y * g.x ≤ 2 ^ 64)
      room = (
        omega (
          arith,
          mul_mono (cz * g.y + (0 + g.y)) ((cz + suc left) * g.y) g.x
              (omega (arith, rows, next_row cz g.y)),
          h,
        ),
        subst (λ n. n * g.y * g.x ≤ 2 ^ 64) (sym (shifted cz left)) h,
      )

-- In a grid whose blocks a uint64_t counts, the blocks are submitted once each in the order of
-- their linear numbers, from 0 on.
pub grid_items-numbers :
    (g : Dim3)
    → g.z * g.y * g.x ≤ 2 ^ 64
    → numbers (grid_items g g.z 0) ≡ count_from 0 (g.z * g.y * g.x)
grid_items-numbers g h =
    grid_items-numbers_from g g.z 0 (subst (λ n. n * g.y * g.x ≤ 2 ^ 64) (zero_add g.z) h)
    ∙ ap (λ n. count_from n (g.z * g.y * g.x)) (ap (λ n. n * g.x) (zero_times g.y) ∙ zero_times g.x)
  where
    zero_add : (n : ℕ) → n ≡ 0 + n
    zero_add n = omega arith
