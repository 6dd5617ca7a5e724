-- ===== src/Contracts/Masks.antt =====
-- Lane masks, lane by lane: every mask operation is a Boolean operation on each lane.
use native.Mathlib.Nat.{one-le-pow}
use proto_gpu.Prelude.{
  ℕ, ◌-◌, ◌/◌, ◌^◌, ◌≤◌, ◌<◌, ◌≡◌, ap, bit_and, true, false, not, ◌&&◌, ◌||◌, ltb, arith, ==→eq,
  eq→==,
}
use proto_gpu.Prelude.Bits.{
  test_bit, test_bit-zero, test_bit_lem, test_bit-and, test_bit-or, bits_ext, bit_and-lt, bit_or-lt,
  bit_and-one, bit_and-lt_right, test_bit-not, test_bit_ones,
}
use proto_gpu.Contracts.{
  LaneMask, lane_mask_all, lane_mask_and, lane_mask_test, lane_mask_prefix, lane_mask_or_same_width,
  lane_mask_not_width, lane_mask_empty,
}

-- A mask of a warp: at most 32 lanes, and no bit at or past the width.
pub record IsMask (w : ℕ) (m : LaneMask) : Type 0 where
  pub has_width : m.width ≡ w
  pub fits : m.bits_lo < 2 ^ w

pub lane_mask_test_lem :
    (m : LaneMask) (lane : ℕ)
    → lane_mask_test m lane ≡ (ltb lane m.width && ltb lane 32 && test_bit m.bits_lo lane)
unfolding lane_mask_test
lane_mask_test_lem m lane =
    ground (arith, test_bit_lem m.bits_lo lane, bit_and-one (m.bits_lo / 2 ^ lane))

-- A lane at or past the width is off in every mask.
pub lane_mask_test_past : (m : LaneMask) (lane : ℕ) → m.width ≤ lane → lane_mask_test m lane ≡ false
lane_mask_test_past m lane h = ground (arith, lane_mask_test_lem m lane)

-- The intersection holds the lanes of both masks (of one width).
pub lane_mask_test-and :
    (a b : LaneMask) (lane : ℕ)
    → a.width ≡ b.width
    → lane_mask_test (lane_mask_and a b) lane ≡ (lane_mask_test a lane && lane_mask_test b lane)
unfolding lane_mask_and
lane_mask_test-and a b lane h = ground (
  arith,
  lane_mask_test_lem a lane,
  lane_mask_test_lem b lane,
  lane_mask_test_lem (lane_mask_and a b) lane,
  test_bit-and a.bits_lo b.bits_lo lane,
)

pub lane_mask_test-or :
    (a b : LaneMask) (lane : ℕ)
    → a.width ≡ b.width
    → lane_mask_test (lane_mask_or_same_width a b) lane
      ≡ (lane_mask_test a lane || lane_mask_test b lane)
unfolding lane_mask_or_same_width
lane_mask_test-or a b lane h = ground (
  arith,
  lane_mask_test_lem a lane,
  lane_mask_test_lem b lane,
  lane_mask_test_lem (lane_mask_or_same_width a b) lane,
  test_bit-or a.bits_lo b.bits_lo lane,
)

complement_bit :
    (m : LaneMask) (lane : ℕ)
    → m.bits_lo < 2 ^ 32
    → lane < 32
    → lane < m.width
    → test_bit (lane_mask_not_width m).bits_lo lane ≡ not (test_bit m.bits_lo lane)
unfolding lane_mask_not_width
complement_bit m lane h below inside = ground (
  arith,
  test_bit-and (0xffff_ffff - m.bits_lo) (2 ^ m.width - 1) lane,
  test_bit-not 32 m.bits_lo lane h below,
  test_bit_ones m.width lane,
)

-- The complement within the width.
pub lane_mask_test-not :
    (m : LaneMask) (lane : ℕ)
    → m.bits_lo < 2 ^ 32
    → lane_mask_test (lane_mask_not_width m) lane
      ≡ (ltb lane m.width && ltb lane 32 && not (lane_mask_test m lane))
unfolding lane_mask_not_width
lane_mask_test-not m lane h = ground (
  arith,
  lane_mask_test_lem m lane,
  lane_mask_test_lem (lane_mask_not_width m) lane,
  complement_bit m lane h,
)

-- `lane_mask_all` turns on exactly the lanes of the warp (up to 32).
pub lane_mask_test-all :
    (w lane : ℕ) → lane_mask_test (lane_mask_all w) lane ≡ (ltb lane w && ltb lane 32)
unfolding lane_mask_all
lane_mask_test-all w lane =
    ground (
      arith,
      lane_mask_test_lem (lane_mask_all w) lane,
      test_bit_ones w lane,
      test_bit_ones 32 lane,
    )

-- `lane_mask_prefix` turns on the lanes below `lanes_on`.
pub lane_mask_test-prefix :
    (w n lane : ℕ)
    → lane_mask_test (lane_mask_prefix w n) lane ≡ (ltb lane w && ltb lane 32 && ltb lane n)
unfolding lane_mask_prefix
lane_mask_test-prefix w n lane = ground (
  arith,
  lane_mask_test_lem (lane_mask_prefix w n) lane,
  test_bit_ones n lane,
  test_bit_ones 32 lane,
  test_bit-zero lane,
)

-- A mask that is not empty has a lane on, and an empty one has none.
pub lane_mask_test-empty :
    (m : LaneMask) (lane : ℕ) → lane_mask_empty m ≡ true → lane_mask_test m lane ≡ false
unfolding lane_mask_empty
lane_mask_test-empty m lane h = ground (
  arith,
  lane_mask_test_lem m lane,
  test_bit-zero lane,
  ap (λ (t : ℕ). test_bit t lane) (==→eq m.bits_lo 0 h),
)

full_width : (w b : ℕ) → 32 ≤ w → w ≤ 32 → 0xffff_ffff - b < 2 ^ w
full_width w b lo hi = rw (eq_of_bounds w lo hi) (omega arith)
  where
    eq_of_bounds : (w : ℕ) → 32 ≤ w → w ≤ 32 → w ≡ 32
    eq_of_bounds w lo hi = omega arith

module _ (w : ℕ) where
  pub lane_mask_and-IsMask :
      (a b : LaneMask) → IsMask w a → IsMask w b → IsMask w (lane_mask_and a b)
  unfolding lane_mask_and
  lane_mask_and-IsMask a b ha hb = record {
    has_width = ha.has_width;
    fits = bit_and-lt w a.bits_lo b.bits_lo ha.fits;
  }

  pub lane_mask_or-IsMask :
      (a b : LaneMask) → IsMask w a → IsMask w b → IsMask w (lane_mask_or_same_width a b)
  unfolding lane_mask_or_same_width
  lane_mask_or-IsMask a b ha hb = record {
    has_width = ha.has_width;
    fits = bit_or-lt w a.bits_lo b.bits_lo ha.fits hb.fits;
  }

  pub lane_mask_not-IsMask :
      (a : LaneMask) → w ≤ 32 → 0 < w → IsMask w a → IsMask w (lane_mask_not_width a)
  unfolding lane_mask_not_width
  lane_mask_not-IsMask a le pos ha = ground (
    arith,
    full_width w a.bits_lo,
    bit_and-lt_right w (0xffff_ffff - a.bits_lo) (2 ^ w - 1) (omega (arith, one-le-pow w 2)),
    ha.has_width,
    ap (λ (t : ℕ). bit_and (0xffff_ffff - a.bits_lo) (2 ^ t - 1)) ha.has_width,
  )

-- With no lane on, the mask is empty.
pub lane_mask_empty_of_none :
    (w : ℕ) (m : LaneMask)
    → w ≤ 32
    → IsMask w m
    → ((lane : ℕ) → lane_mask_test m lane ≡ false)
    → lane_mask_empty m ≡ true
unfolding lane_mask_empty
lane_mask_empty_of_none w m le h none_on = eq→== m.bits_lo 0 (
    bits_ext w m.bits_lo 0 h.fits (omega (arith, one-le-pow w 2))
      (λ i hi. ground (arith, none_on i, lane_mask_test_lem m i, test_bit-zero i, h.has_width)))
