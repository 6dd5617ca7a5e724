-- ===== src/Warp/Builtins.antt =====
-- The thread indices that `%tid` gives: the coordinates of the thread's linear index in its block.
use native.Mathlib.Nat.{
  div-add-mod, div-div-eq-div-mul, mod-lt, mod-le, div-le_self, div-lt_iff_lt-mul, mul_comm,
}
use proto_gpu.Prelude.{ℕ, ◌+◌, ◌*◌, ◌/◌, ◌%◌, ◌^◌, ◌≤◌, ◌<◌, ◌≡◌, ap, arith}
use proto_gpu.Contracts.{Dim3}
use proto_gpu.Warp.{WarpState, tid_x, tid_y, tid_z, thread_linear}

-- A block whose dimensions a uint32_t holds and whose threads a uint32_t counts.
pub record IsBlock (b : Dim3) : Type 0 where
  pub x_pos : 0 < b.x
  pub y_pos : 0 < b.y
  pub z_pos : 0 < b.z
  pub counted : b.x * b.y * b.z < 2 ^ 32

mul-pos : (a b : ℕ) → 0 < a → 0 < b → 0 < a * b
mul-pos a b ha hb = grind arith

mul-le : (a b : ℕ) → 0 < b → a ≤ a * b
mul-le a b h = grind arith

module _ (t x y z : ℕ) (x_pos : 0 < x) (y_pos : 0 < y) (inside : t < x * y * z) where
  z_digit : t / (x * y) < z
  z_digit = (div-lt_iff_lt-mul (mul-pos x y x_pos y_pos)).1 (rw mul_comm inside)

  digits_sum : x * (t / x % y + y * (t / (x * y))) + t % x ≡ t
  digits_sum = omega (
    arith,
    div-add-mod t x,
    div-div-eq-div-mul t x y,
    ap (λ (q : ℕ). x * q) (div-add-mod (t / x) y),
    ap (λ (q : ℕ). x * (y * q)) (div-div-eq-div-mul t x y),
  )

module _ (w : WarpState) (lane : ℕ) (block : IsBlock w.launch.block_dim)
    (inside : w.lane_base_thread_linear + lane
      < w.launch.block_dim.x * w.launch.block_dim.y * w.launch.block_dim.z) where
  t : ℕ
  t = w.lane_base_thread_linear + lane

  exact :
      (thread_linear w lane ≡ t)
      × (tid_x w lane ≡ t % w.launch.block_dim.x)
      × (tid_y w lane ≡ t / w.launch.block_dim.x % w.launch.block_dim.y)
      × (tid_z w lane ≡ t / (w.launch.block_dim.x * w.launch.block_dim.y))
  unfolding tid_x tid_y tid_z t
  exact = ground (
    arith,
    block.x_pos,
    block.y_pos,
    block.z_pos,
    block.counted,
    mul-le (w.launch.block_dim.x * w.launch.block_dim.y) w.launch.block_dim.z,
    mul-pos w.launch.block_dim.x w.launch.block_dim.y,
    mod-le t w.launch.block_dim.x,
    mod-le (t / w.launch.block_dim.x) w.launch.block_dim.y,
    div-le_self t w.launch.block_dim.x,
    div-le_self t (w.launch.block_dim.x * w.launch.block_dim.y),
  )

  -- In a block that a uint32_t counts, for a lane that has a thread of it: the thread indices are
  -- below the dimensions and are the coordinates, x first, of the thread's linear index.
  pub tid_linear :
      (tid_x w lane < w.launch.block_dim.x)
      × (tid_y w lane < w.launch.block_dim.y)
      × (tid_z w lane < w.launch.block_dim.z)
      × (w.launch.block_dim.x * (tid_y w lane + w.launch.block_dim.y * tid_z w lane) + tid_x w lane
          ≡ w.lane_base_thread_linear + lane)
  unfolding t
  tid_linear =
      rw (exact.1, exact.2, exact.3)
        (
          mod-lt t block.x_pos,
          mod-lt (t / w.launch.block_dim.x) block.y_pos,
          z_digit t _ _ _ block.x_pos block.y_pos inside,
          digits_sum t _ _ _ block.x_pos block.y_pos inside,
        )
