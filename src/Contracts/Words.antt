-- ===== src/Contracts/Words.antt =====
-- Casts to the fixed widths, and the sign of a 64-bit pattern.
use proto_gpu.Prelude.{ℕ, ◌+◌, ◌-◌, ◌%◌, ◌^◌, Bool, leb, ltb, if◌then◌else◌}

abbrev pub to_u8 : ℕ → ℕ
to_u8 n = n % 2 ^ 8

abbrev pub to_u32 : ℕ → ℕ
to_u32 n = n % 2 ^ 32

abbrev pub to_u64 : ℕ → ℕ
to_u64 n = n % 2 ^ 64

-- `v < 0` for an int64_t with the pattern `v`
abbrev pub is_neg64 : ℕ → Bool
is_neg64 v = leb (2 ^ 63) v

-- `a < b` for two int32_t with the patterns `a` and `b`: flipping the sign bit keeps the order
abbrev pub slt32 : ℕ → ℕ → Bool
slt32 a b = ltb ((a + 2 ^ 31) % 2 ^ 32) ((b + 2 ^ 31) % 2 ^ 32)

-- the pattern of an int32_t extended to 64 bits
abbrev pub sext32 : ℕ → ℕ
sext32 a = if ltb a (2 ^ 31) then a else a + (2 ^ 64 - 2 ^ 32)
