-- ===== src/Units/Mem/LittleEndian.antt =====
-- The bytes of a value (pack_le and unpack_le of src/units/mem_unit.cpp).
use native.Mathlib.Nat.{
  mod-add-div', div-div-eq-div-mul, pow-suc, mod-lt, mod-eq_of_lt, one-le-pow, pow-le-pow_right,
  mul_comm, add-mul, mul_assoc,
}
use proto_gpu.Prelude.{
  ℕ, zero, suc, ◌+◌, ◌*◌, ◌/◌, ◌%◌, ◌^◌, ◌≤◌, ◌<◌, ◌≡◌, sym, ◌∙◌, ap, bit_or, ◌||◌, leb, arith,
  if_no,
}
use proto_gpu.Prelude.Bits.{test_bit, test_bit-or, test_bit-zero, bits_ext, bit_or-lt}
use proto_gpu.Contracts.Words.{to_u8, to_u64}
use proto_gpu.Units.Mem.{pack_from, pack_le, unpack_from, unpack_le}

twice : (b k : ℕ) → b * 2 ^ suc k ≡ 2 * (b * 2 ^ k)
twice b k = ap (λ n. b * n) (pow-suc 2 k) ∙ sym (mul_assoc b (2 ^ k) 2) ∙ mul_comm (b * 2 ^ k) 2

halves : (a c : ℕ) → (a + 2 * c) / 2 ≡ a / 2 + c
halves a c = omega arith

half : (c : ℕ) → 2 * c / 2 ≡ c
half c = omega arith

-- Numbers whose bits do not overlap add up to their `|`.
split_bits :
    (k a b i : ℕ)
    → a < 2 ^ k
    → test_bit (a + b * 2 ^ k) i ≡ (test_bit a i || test_bit (b * 2 ^ k) i)
unfolding test_bit
split_bits zero a b i h = ground (arith, test_bit-zero i)
split_bits (suc k) a b zero h = rw (twice b k) (ground arith)
split_bits (suc k) a b (suc i) h =
    rw (twice b k, halves a (b * 2 ^ k), half (b * 2 ^ k))
      (split_bits k (a / 2) b i (omega (arith, h, pow-suc 2 k)))

bit_or-disjoint :
    (K k a b : ℕ) → a < 2 ^ k → a + b * 2 ^ k < 2 ^ K → bit_or a (b * 2 ^ k) ≡ a + b * 2 ^ k
bit_or-disjoint K k a b h top =
    bits_ext K (bit_or a (b * 2 ^ k)) (a + b * 2 ^ k)
      (bit_or-lt K a (b * 2 ^ k) (omega arith) (omega arith)) top
      λ i hi. test_bit-or a (b * 2 ^ k) i ∙ sym (split_bits k a b i h)

-- The digits in base 256 of a remainder.
pow_four : (n : ℕ) → 2 ^ suc (suc (suc (suc n))) ≡ 2 ^ n * 16
pow_four n =
    omega (
      arith,
      pow-suc 2 n,
      pow-suc 2 (suc n),
      pow-suc 2 (suc (suc n)),
      pow-suc 2 (suc (suc (suc n))),
    )

pow_eight : (n : ℕ) → 2 ^ (8 * suc n) ≡ 2 ^ (8 * n) * 256
pow_eight n =
    ap (λ m. 2 ^ m) (spelled n)
    ∙ omega (arith, pow_four (8 * n), pow_four (suc (suc (suc (suc (8 * n))))))
  where
    spelled : (n : ℕ) → 8 * suc n ≡ suc (suc (suc (suc (suc (suc (suc (suc (8 * n))))))))
    spelled n = omega arith

next_digit : (v P : ℕ) → v % (P * 256) ≡ v % P + to_u8 (v / P) * P
next_digit v P =
    let q = v / P in
    omega (
      arith,
      mod-add-div' v P,
      ap (λ n. n * P) (mod-add-div' q 256),
      add-mul (q % 256) (q / 256 * 256) P,
      mod-add-div' v (P * 256),
      ap (λ n. n * (P * 256)) (div-div-eq-div-mul v P 256),
      mul_assoc (q / 256) 256 P,
      ap (λ n. q / 256 * n) (mul_comm 256 P),
    )

-- Unpacking goes on from the bytes read so far.
unpack_from-pack_from :
    (v left i : ℕ)
    → i + left ≤ 8
    → unpack_from (pack_from v i left) i (v % 2 ^ (8 * i)) ≡ v % 2 ^ (8 * (i + left))
unfolding unpack_from pack_from
unpack_from-pack_from v zero i h = ap (λ n. v % 2 ^ (8 * n)) (omega arith)
unpack_from-pack_from v (suc left) i h =
    if_no (leb 8 i) (v % P) (unpack_from (pack_from v (suc i) left) (suc i) next) (ground arith)
    ∙ ap (unpack_from (pack_from v (suc i) left) (suc i)) grown
    ∙ unpack_from-pack_from v left (suc i) (omega arith)
    ∙ ap (λ n. v % 2 ^ (8 * n)) (shift i)
  where
    P : ℕ
    P = 2 ^ (8 * i)

    next : ℕ
    next = bit_or (v % P) (to_u64 (to_u8 (v / P) * P))

    shift : (n : ℕ) → suc n + left ≡ n + suc left
    shift n = omega arith

    widened : P * 256 ≡ 2 ^ (8 * suc i)
    widened = sym (pow_eight i)

    small : to_u8 (v / P) * P < 2 ^ 64
    small = grind (
      arith,
      pow_eight i,
      pow-le-pow_right {n = 2} (omega arith) {i = 8 * suc i} {j = 64} (omega arith),
    )

    bounded : v % P + to_u8 (v / P) * P < 2 ^ 64
    bounded = grind (
      arith,
      next_digit v P,
      mod-lt v {m = P * 256} (omega (arith, one-le-pow (8 * i) 2 (omega arith))),
      pow_eight i,
      pow-le-pow_right {n = 2} (omega arith) {i = 8 * suc i} {j = 64} (omega arith),
    )

    grown : next ≡ v % 2 ^ (8 * suc i)
    grown =
        ap (bit_or (v % P)) (mod-eq_of_lt small)
        ∙ bit_or-disjoint 64 (8 * i) (v % P) (to_u8 (v / P))
            (mod-lt v (one-le-pow (8 * i) 2 (omega arith))) bounded
        ∙ sym (next_digit v P)
        ∙ ap (λ n. v % n) widened

-- Reading back at most 8 little-endian bytes of a value gives the value modulo `2 ^ (8 * size)`.
pub unpack_le-pack_le : (v size : ℕ) → size ≤ 8 → unpack_le (pack_le v size) ≡ v % 2 ^ (8 * size)
unfolding unpack_le pack_le
unpack_le-pack_le v size h =
    ap (unpack_from (pack_from v 0 size) 0) (omega arith)
    ∙ unpack_from-pack_from v size 0 (omega arith)
    ∙ ap (λ n. v % 2 ^ (8 * n)) (omega arith)
