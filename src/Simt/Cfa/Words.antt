-- ===== src/Simt/Cfa/Words.antt =====
-- The bit sets of the analysis: 64-bit words.
use native.Mathlib.Nat.{pow-suc, one-le-pow}
use proto_gpu.Prelude.{
  ap₂, if_elim, ne→==, ◌⊎◌, ℕ, zero, suc, ◌+◌, ◌-◌, ◌/◌, ◌%◌, ◌^◌, ◌≡◌, ◌≢◌, ◌<◌, refl, sym, ◌∙◌,
  ap, bit_and, bit_or, Bool, true, false, not, ◌&&◌, List, [], ◌∷◌, ◌==◌, if◌then◌else◌, get_or,
  set, replicate, arith, Bool-cases, inl, inr, get_or-replicate, ==→eq,
}
use proto_gpu.Prelude.Bits.{
  test_bit, test_bit-and, test_bit-or, test_bit-pow, test_bit-zero, bits_ext, bit_and-lt_right,
  bit_and-lt,
}

pub record BitSet : Type 0 where
  pub n : ℕ
  pub w : List ℕ

-- what a read out of the vector of sets would give: it is never reached
abbrev pub no_bits : BitSet
no_bits = record { n = 0; w = [] }

-- `w.back() &= mask`
abbrev mask_back : List ℕ → ℕ → List ℕ
mask_back [] mask = []
mask_back (x ∷ []) mask = bit_and x mask ∷ []
mask_back (x ∷ y ∷ xs) mask = x ∷ mask_back (y ∷ xs) mask

unfoldable pub all : ℕ → BitSet
all n =
    let full = replicate ((n + 63) / 64) (2 ^ 64 - 1) in
    record { n = n; w = if n % 64 == 0 then full else mask_back full (2 ^ (n % 64) - 1) }

unfoldable pub test : BitSet → ℕ → Bool
test s idx = not (bit_and (get_or s.w (idx / 64) 0) (2 ^ (idx % 64)) == 0)

-- `set` of the source
unfoldable pub insert : BitSet → ℕ → BitSet
insert s idx = record s {
  w = set s.w (idx / 64) (bit_or (get_or s.w (idx / 64) 0) (2 ^ (idx % 64)));
}

unfoldable pub singleton : ℕ → ℕ → BitSet
unfolding insert
singleton n idx = insert record { n = n; w = replicate ((n + 63) / 64) 0 } idx

same_words : List ℕ → List ℕ → Bool
same_words [] [] = true
same_words [] (y ∷ ys) = false
same_words (x ∷ xs) [] = false
same_words (x ∷ xs) (y ∷ ys) = x == y && same_words xs ys

unfoldable pub equals : BitSet → BitSet → Bool
unfolding same_words
equals a b = a.n == b.n && same_words a.w b.w

and_words : List ℕ → List ℕ → List ℕ
and_words [] ys = []
and_words (x ∷ xs) [] = bit_and x 0 ∷ and_words xs []
and_words (x ∷ xs) (y ∷ ys) = bit_and x y ∷ and_words xs ys

unfoldable pub iand : BitSet → BitSet → BitSet
unfolding and_words
iand a b = record a { w = and_words a.w b.w }

pow_lt_suc : (k : ℕ) → 2 ^ k < 2 ^ suc k
pow_lt_suc k = omega (arith, pow-suc 2 k, one-le-pow k 2 (omega arith))

-- A single bit is there or not.
and_pow : (a k : ℕ) → bit_and a (2 ^ k) ≡ (if test_bit a k then 2 ^ k else 0)
and_pow a k =
    bits_ext (suc k) (bit_and a (2 ^ k)) (if test_bit a k then 2 ^ k else 0)
      (bit_and-lt_right (suc k) a (2 ^ k) (pow_lt_suc k))
      (if_elim (λ n. n < 2 ^ suc k) (test_bit a k) (pow_lt_suc k) (omega (arith, pow_lt_suc k)))
      λ i hi.
        test_bit-and a (2 ^ k) i
        ∙ ap (λ b. test_bit a i && b) (test_bit-pow k i)
        ∙ same i (Bool-cases (i == k))
  where
    same :
        (i : ℕ)
        → ((i == k) ≡ true) ⊎ ((i == k) ≡ false)
        → (test_bit a i && (i == k)) ≡ test_bit (if test_bit a k then 2 ^ k else 0) i
    same i (inl e) =
        ground (arith, ap (test_bit a) (==→eq i k e), test_bit-pow k i, test_bit-zero i, e)
    same i (inr e) = ground (arith, test_bit-pow k i, test_bit-zero i, e)

-- Membership as a bit of a word.
pub test_lem : (s : BitSet) (i : ℕ) → test s i ≡ test_bit (get_or s.w (i / 64) 0) (i % 64)
unfolding test
test_lem s i =
    ap (λ n. not (n == 0)) (and_pow (get_or s.w (i / 64) 0) (i % 64))
    ∙ read (test_bit (get_or s.w (i / 64) 0) (i % 64))
  where
    read : (b : Bool) → not ((if b then 2 ^ (i % 64) else 0) == 0) ≡ b
    read true = ground (arith, one-le-pow (i % 64) 2)
    read false = refl

zero_and : (b : ℕ) → bit_and 0 b ≡ 0
zero_and b = omega (arith, bit_and-lt 0 0 b (omega arith))

and_zero : (a : ℕ) → bit_and a 0 ≡ 0
and_zero a = omega (arith, bit_and-lt_right 0 a 0 (omega arith))

get_or-and_words :
    (xs ys : List ℕ) (i : ℕ)
    → get_or (and_words xs ys) i 0 ≡ bit_and (get_or xs i 0) (get_or ys i 0)
unfolding and_words
get_or-and_words [] ys i = sym (zero_and (get_or ys i 0))
get_or-and_words (x ∷ xs) [] zero = refl
get_or-and_words (x ∷ xs) [] (suc i) = get_or-and_words xs [] i
get_or-and_words (x ∷ xs) (y ∷ ys) zero = refl
get_or-and_words (x ∷ xs) (y ∷ ys) (suc i) = get_or-and_words xs ys i

pub test-iand : (a b : BitSet) (i : ℕ) → test (iand a b) i ≡ (test a i && test b i)
unfolding iand
test-iand a b i =
    test_lem (iand a b) i
    ∙ ap (λ n. test_bit n (i % 64)) (get_or-and_words a.w b.w (i / 64))
    ∙ test_bit-and (get_or a.w (i / 64) 0) (get_or b.w (i / 64) 0) (i % 64)
    ∙ ap₂ (λ p q. p && q) (sym (test_lem a i)) (sym (test_lem b i))

-- A write changes its own place at most.
get_or-set_cases :
    (xs : List ℕ) (i j v d : ℕ)
    → (get_or (set xs i v) j d ≡ get_or xs j d) ⊎ ((i ≡ j) × (get_or (set xs i v) j d ≡ v))
get_or-set_cases [] i j v d = inl refl
get_or-set_cases (x ∷ xs) zero zero v d = inr (refl, refl)
get_or-set_cases (x ∷ xs) zero (suc j) v d = inl refl
get_or-set_cases (x ∷ xs) (suc i) zero v d = inl refl
get_or-set_cases (x ∷ xs) (suc i) (suc j) v d = elim (get_or-set_cases xs i j v d) [
  | inl e ↦ inl e
  | inr h ↦ inr (ap suc h.0, h.1)
]

-- A set with one more element has that element and those it had.
pub test-insert : (s : BitSet) (k i : ℕ) → k ≢ i → test (insert s k) i ≡ test s i
unfolding insert
test-insert s k i ne =
    test_lem (insert s k) i
    ∙ word
        (get_or-set_cases s.w (k / 64) (i / 64) (bit_or (get_or s.w (k / 64) 0) (2 ^ (k % 64))) 0)
    ∙ sym (test_lem s i)
  where
    x : ℕ
    x = bit_or (get_or s.w (k / 64) 0) (2 ^ (k % 64))

    other_bit :
        (q : ℕ)
        → k / 64 ≡ q
        → q ≡ i / 64
        → test_bit (bit_or (get_or s.w q 0) (2 ^ (k % 64))) (i % 64)
          ≡ test_bit (get_or s.w q 0) (i % 64)
    other_bit q e f = ground (
      arith,
      test_bit-or (get_or s.w q 0) (2 ^ (k % 64)) (i % 64),
      test_bit-pow (k % 64) (i % 64),
      ne→== (i % 64) (k % 64) (omega arith),
    )

    word :
        (get_or (set s.w (k / 64) x) (i / 64) 0 ≡ get_or s.w (i / 64) 0)
          ⊎ ((k / 64 ≡ i / 64) × (get_or (set s.w (k / 64) x) (i / 64) 0 ≡ x))
        → test_bit (get_or (set s.w (k / 64) x) (i / 64) 0) (i % 64)
          ≡ test_bit (get_or s.w (i / 64) 0) (i % 64)
    word (inl e) = ap (λ n. test_bit n (i % 64)) e
    word (inr (e, f)) =
        ap (λ n. test_bit n (i % 64)) f
        ∙ other_bit (k / 64) refl e
        ∙ ap (λ q. test_bit (get_or s.w q 0) (i % 64)) e

pub test-singleton : (n k i : ℕ) → k ≢ i → test (singleton n k) i ≡ false
unfolding singleton
test-singleton n k i ne =
    test-insert record { n = n; w = replicate ((n + 63) / 64) 0 } k i ne
    ∙ test_lem record { n = n; w = replicate ((n + 63) / 64) 0 } i
    ∙ ap (λ x. test_bit x (i % 64)) (get_or-replicate {A = ℕ} ((n + 63) / 64) (i / 64) 0)
    ∙ test_bit-zero (i % 64)

same_words-eq : (xs ys : List ℕ) → same_words xs ys ≡ true → xs ≡ ys
unfolding same_words
same_words-eq [] [] h = refl
same_words-eq [] (y ∷ ys) h = absurd cc
same_words-eq (x ∷ xs) [] h = absurd cc
same_words-eq (x ∷ xs) (y ∷ ys) h = elim (Bool-cases (x == y)) [
  | inl e ↦ ap₂ (λ z zs. z ∷ zs) (==→eq x y e) (same_words-eq xs ys (ground (arith, h, e)))
  | inr e ↦ absurd (ground (arith, h, e))
]

pub equals-eq : (a b : BitSet) → equals a b ≡ true → a ≡ b
unfolding equals
equals-eq a b h = elim (Bool-cases (a.n == b.n)) [
  | inl e ↦
      ap₂ {C = BitSet} (λ n w. record { n = n; w = w }) (==→eq a.n b.n e)
        (same_words-eq a.w b.w (ground (arith, h, e)))
  | inr e ↦ absurd (ground (arith, h, e))
]
