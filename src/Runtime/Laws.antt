-- ===== src/Runtime/Laws.antt =====
-- Host buffers, and copies between them and device memory.
use mathlib.Core.List.{append_assoc}
use proto_gpu.Prelude.{
  ℕ, ◌+◌, ◌^◌, ◌<◌, ◌≡◌, refl, ap, ◌∙◌, true, some, List, [], ◌∷◌, ◌++◌, arith, length, set,
  replicate, take, length-append, length-replicate,
}
use proto_gpu.Prelude.Dict.{insert, lookup-insert}
use proto_gpu.Prelude.Results.{ok}
use proto_gpu.Contracts.Words.{to_u64}
use proto_gpu.Memory.{write_global, read_global}
use proto_gpu.Memory.Params.{blob_slice_lem}
use proto_gpu.Runtime.{Runtime, overwrite, host_write, host_read, memcpy_h2d, memcpy_d2h}

set-append : (xs ys : List ℕ) (y b : ℕ) → set (xs ++ y ∷ ys) (length xs) b ≡ xs ++ b ∷ ys
set-append [] ys y b = refl
set-append (x ∷ xs) ys y b = ap (λ (t : List ℕ). x ∷ t) (set-append xs ys y b)

overwrite-append :
    (xs ys bytes : List ℕ)
    → length ys ≡ length bytes
    → length xs + length bytes < 2 ^ 64
    → overwrite (xs ++ ys) (length xs) bytes ≡ xs ++ bytes
unfolding overwrite
overwrite-append xs [] [] same room = refl
overwrite-append xs [] (b ∷ bytes) same room = absurd (omega arith)
overwrite-append xs (y ∷ ys) [] same room = absurd (omega arith)
overwrite-append xs (y ∷ ys) (b ∷ bytes) same room =
    rw (set-append xs ys y b, next, ← append_assoc xs (b ∷ []) ys)
      (overwrite-append (xs ++ b ∷ []) ys bytes (omega arith)
          (omega (arith, length-append xs (b ∷ [])))
        ∙ append_assoc xs (b ∷ []) bytes)
  where
    next : to_u64 (length xs + 1) ≡ length (xs ++ b ∷ [])
    next = omega (arith, length-append xs (b ∷ []))

-- Bytes that fill a fresh buffer are what is left in it.
overwrite-replicate :
    (bytes : List ℕ)
    → length bytes < 2 ^ 64
    → overwrite (replicate (length bytes) 0) 0 bytes ≡ bytes
overwrite-replicate bytes room =
    overwrite-append [] (replicate (length bytes) 0) bytes (length-replicate (length bytes) 0)
      (omega arith)

take_all : (xs : List ℕ) → take (length xs) xs ≡ xs
take_all [] = refl
take_all (x ∷ xs) = ap (λ (t : List ℕ). x ∷ t) (take_all xs)

-- The runtime with the buffer `id` holding `bytes`.
abbrev pub holding : Runtime → ℕ → List ℕ → Runtime
holding rt id bytes = record rt { host_bufs = insert id bytes rt.host_bufs }

module _ (rt : Runtime) (id : ℕ) (bytes : List ℕ) (room : length bytes < 2 ^ 64) where
  -- Bytes are written over a fresh buffer of their size.
  pub host_write-holding :
      (old : List ℕ)
      → old ≡ replicate (length bytes) 0
      → host_write (holding rt id old) id 0 bytes ≡ ok (holding (holding rt id old) id bytes)
  unfolding host_write
  host_write-holding old fresh = ground (
    arith,
    lookup-insert id id old rt.host_bufs,
    ap length fresh,
    length-replicate {A = ℕ} (length bytes) 0,
    ap (λ (t : List ℕ). overwrite t 0 bytes) fresh ∙ overwrite-replicate bytes room,
  )

  pub host_read-holding : host_read (holding rt id bytes) id 0 (length bytes) ≡ some bytes
  unfolding host_read
  host_read-holding = ground (
    arith,
    lookup-insert id id bytes rt.host_bufs,
    blob_slice_lem bytes 0 (length bytes) (omega arith) room,
    take_all bytes,
  )

  -- A write that device memory accepts stores the buffer there.
  pub memcpy_h2d-holding :
      (dst : ℕ)
      → (write_global rt.mem dst bytes).1 ≡ true
      → memcpy_h2d (holding rt id bytes) dst id 0 (length bytes)
        ≡ ok (record (holding rt id bytes) { mem = (write_global rt.mem dst bytes).0 })
  unfolding memcpy_h2d
  memcpy_h2d-holding dst done = ground (arith, host_read-holding)

  -- A read that device memory accepts fills the buffer.
  pub memcpy_d2h-holding :
      (src : ℕ) (old : List ℕ)
      → old ≡ replicate (length bytes) 0
      → read_global rt.mem src (length bytes) ≡ some bytes
      → memcpy_d2h (holding rt id old) id 0 src (length bytes)
        ≡ ok (holding (holding rt id old) id bytes)
  unfolding memcpy_d2h
  memcpy_d2h-holding src old fresh read = ground (arith, host_write-holding old fresh)
