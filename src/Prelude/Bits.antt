-- ===== src/Prelude/Bits.antt =====
-- Bits of native numbers, as `(a >> i) & 1`, and how `&`, `|` and `~` act on them.
use Prim.Native.Nat.{digits, bit_and-bitwise, bit_or-bitwise}
use Prim.Native.Nat.{
  ℕ, zero, suc, ◌+◌, ◌-◌, ◌*◌, ◌/◌, ◌%◌, ◌^◌, ◌≤◌, ◌<◌, min, max, bit_and, bit_or,
}
use mathlib.Core.Path.{◌≡◌, refl, ap, ◌∙◌, sym}
use mathlib.Core.Bool.{Bool, false, not, ◌&&◌, ◌||◌}
use native.Mathlib.Omega.{arith}
use native.Mathlib.Nat.{pow-suc, one-le-pow, div-div-eq-div-mul, div-one, mul_comm}
use proto_gpu.Prelude.Tests.{ltb, ◌==◌}

unfoldable pub test_bit : ℕ → ℕ → Bool
test_bit a zero = a % 2 == 1
test_bit a (suc i) = test_bit (a / 2) i

pub test_bit-zero : (i : ℕ) → test_bit 0 i ≡ false
unfolding test_bit
test_bit-zero zero = refl
test_bit-zero (suc i) = test_bit-zero i

div-two-pow : (a i : ℕ) → a / 2 ^ suc i ≡ a / 2 / 2 ^ i
div-two-pow a i =
    ap (λ (t : ℕ). a / t) (pow-suc 2 i ∙ mul_comm (2 ^ i) 2) ∙ sym (div-div-eq-div-mul a 2 (2 ^ i))

-- The recursion on digits is the source's shift and mask.
pub test_bit_lem : (a i : ℕ) → test_bit a i ≡ (a / 2 ^ i % 2 == 1)
unfolding test_bit
test_bit_lem a zero = ap (λ (t : ℕ). t % 2 == 1) (sym (div-one a))
test_bit_lem a (suc i) = test_bit_lem (a / 2) i ∙ ap (λ (t : ℕ). t % 2 == 1) (sym (div-two-pow a i))

halve : (d m : ℕ) → m < 2 → (d * 2 + m) / 2 ≡ d
halve d m h = omega arith

and_digits :
    (n a b i : ℕ) → a ≤ n → test_bit (digits (λ _. 0) min n a b) i ≡ (test_bit a i && test_bit b i)
unfolding test_bit
and_digits zero zero b i h = ground (arith, test_bit-zero i)
and_digits zero (suc a) b i h = absurd (omega arith)
and_digits (suc n) zero b i h = ground (arith, test_bit-zero i)
and_digits (suc n) (suc a) b zero h = ground arith
and_digits (suc n) (suc a) b (suc i) h =
    ap (λ (t : ℕ). test_bit t i) (halve _ (min (suc a % 2) (b % 2)) (omega arith))
    ∙ and_digits n (suc a / 2) (b / 2) i (omega arith)

or_digits :
    (n a b i : ℕ) → a ≤ n → test_bit (digits (λ b. b) max n a b) i ≡ (test_bit a i || test_bit b i)
unfolding test_bit
or_digits zero zero b i h = ground (arith, test_bit-zero i)
or_digits zero (suc a) b i h = absurd (omega arith)
or_digits (suc n) zero b i h = ground (arith, test_bit-zero i)
or_digits (suc n) (suc a) b zero h = ground arith
or_digits (suc n) (suc a) b (suc i) h =
    ap (λ (t : ℕ). test_bit t i) (halve _ (max (suc a % 2) (b % 2)) (omega arith))
    ∙ or_digits n (suc a / 2) (b / 2) i (omega arith)

pub test_bit-and : (a b i : ℕ) → test_bit (bit_and a b) i ≡ (test_bit a i && test_bit b i)
test_bit-and a b i =
    ap (λ (t : ℕ). test_bit t i) (bit_and-bitwise a b) ∙ and_digits a a b i (omega arith)

pub test_bit-or : (a b i : ℕ) → test_bit (bit_or a b) i ≡ (test_bit a i || test_bit b i)
test_bit-or a b i =
    ap (λ (t : ℕ). test_bit t i) (bit_or-bitwise a b) ∙ or_digits a a b i (omega arith)

-- A number below a power of two is given by its bits below the exponent.
pub bits_ext :
    (k a b : ℕ) → a < 2 ^ k → b < 2 ^ k → ((i : ℕ) → i < k → test_bit a i ≡ test_bit b i) → a ≡ b
unfolding test_bit
bits_ext zero a b ha hb h = omega arith
bits_ext (suc k) a b ha hb h =
    let same_low = h 0 (omega arith) in
    let same_rest =
      bits_ext k (a / 2) (b / 2) (omega (arith, pow-suc 2 k)) (omega (arith, pow-suc 2 k))
        (λ i hi. h (suc i) (omega arith)) in
    ground (arith, same_low, same_rest)

pub test_bit_past : (k a i : ℕ) → a < 2 ^ k → k ≤ i → test_bit a i ≡ false
unfolding test_bit
test_bit_past zero a i ha hi = ground (arith, test_bit-zero i)
test_bit_past (suc k) a zero ha hi = absurd (omega arith)
test_bit_past (suc k) a (suc i) ha hi =
    test_bit_past k (a / 2) i (omega (arith, pow-suc 2 k)) (omega arith)

-- If every bit from `k` up is clear, the number is below `2 ^ k`.
bits_below : (k n a : ℕ) → a ≤ n → ((i : ℕ) → k ≤ i → test_bit a i ≡ false) → a < 2 ^ k
unfolding test_bit
bits_below zero n zero le h = omega arith
bits_below zero zero (suc a) le h = absurd (omega arith)
bits_below zero (suc n) (suc a) le h =
    let low = h 0 (omega arith) in
    let rest = bits_below zero n (suc a / 2) (omega arith) (λ i hi. h (suc i) (omega arith)) in
    ground (arith, low, rest)
bits_below (suc k) n a le h =
    let rest = bits_below k (a / 2) (a / 2) (omega arith) (λ i hi. h (suc i) (omega arith)) in
    omega (arith, rest, pow-suc 2 k)

pub bit_and-lt : (k a b : ℕ) → a < 2 ^ k → bit_and a b < 2 ^ k
bit_and-lt k a b h =
    bits_below k (bit_and a b) (bit_and a b) (omega arith)
      λ i hi. ground (arith, test_bit-and a b i, test_bit_past k a i h hi)

pub bit_or-lt : (k a b : ℕ) → a < 2 ^ k → b < 2 ^ k → bit_or a b < 2 ^ k
bit_or-lt k a b ha hb =
    bits_below k (bit_or a b) (bit_or a b) (omega arith) λ i hi.
      ground (arith, test_bit-or a b i, test_bit_past k a i ha hi, test_bit_past k b i hb hi)

-- `~a` on `k` bits.
pub test_bit-not : (k a i : ℕ) → a < 2 ^ k → i < k → test_bit (2 ^ k - 1 - a) i ≡ not (test_bit a i)
unfolding test_bit
test_bit-not zero a i ha hi = elim hi [ ]
test_bit-not (suc k) a zero ha hi = ground (arith, pow-suc 2 k, one-le-pow k 2)
test_bit-not (suc k) a (suc i) ha hi =
    let half : (2 ^ suc k - 1 - a) / 2 ≡ 2 ^ k - 1 - a / 2 = omega (arith, pow-suc 2 k) in
    ap (λ (t : ℕ). test_bit t i) half
    ∙ test_bit-not k (a / 2) i (omega (arith, pow-suc 2 k)) (omega arith)

pub test_bit_ones : (k i : ℕ) → test_bit (2 ^ k - 1) i ≡ ltb i k
unfolding test_bit
test_bit_ones zero i = ground (arith, test_bit-zero i)
test_bit_ones (suc k) zero = ground (arith, pow-suc 2 k, one-le-pow k 2)
test_bit_ones (suc k) (suc i) =
    let half : (2 ^ suc k - 1) / 2 ≡ 2 ^ k - 1 = omega (arith, pow-suc 2 k, one-le-pow k 2) in
    ap (λ (t : ℕ). test_bit t i) half ∙ test_bit_ones k i ∙ ground arith

pub test_bit-pow : (j i : ℕ) → test_bit (2 ^ j) i ≡ (i == j)
unfolding test_bit
test_bit-pow zero zero = refl
test_bit-pow zero (suc i) = ground (arith, test_bit-zero i)
test_bit-pow (suc j) zero = ground (arith, pow-suc 2 j)
test_bit-pow (suc j) (suc i) =
    let half : 2 ^ suc j / 2 ≡ 2 ^ j = omega (arith, pow-suc 2 j) in
    ap (λ (t : ℕ). test_bit t i) half ∙ test_bit-pow j i ∙ ground arith

pub bit_and-lt_right : (k a b : ℕ) → b < 2 ^ k → bit_and a b < 2 ^ k
bit_and-lt_right k a b h =
    bits_below k (bit_and a b) (bit_and a b) (omega arith)
      λ i hi. ground (arith, test_bit-and a b i, test_bit_past k b i h hi)

-- `a & 1` is the parity.
pub bit_and-one : (a : ℕ) → bit_and a 1 ≡ a % 2
unfolding test_bit
bit_and-one a =
    bits_ext 1 (bit_and a 1) (a % 2) (bit_and-lt_right 1 a 1 (omega arith)) (omega arith) low
  where
    low : (i : ℕ) → i < 1 → test_bit (bit_and a 1) i ≡ test_bit (a % 2) i
    low zero h = ground (arith, test_bit-and a 1 zero)
    low (suc i) h = absurd (omega arith)
