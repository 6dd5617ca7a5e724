-- ===== src/Cuda/Args/Laws.antt =====
-- A packed blob holds each argument at its parameter's offset.
use proto_gpu.Prelude.{
  ℕ, zero, suc, ◌+◌, ◌^◌, ◌≤◌, ◌<◌, ◌≡◌, refl, ap, ap₂, sym, ◌∙◌, ◌⊎◌, inl, inr, some, List, [],
  ◌∷◌, ==→eq, subst, some_inj, length, get_or, get_elem?, set, replicate, arith, get_or-set,
  get_or-set_ne, length-set,
}
use proto_gpu.Prelude.Results.{Result, ok, err, >>=-eq-ok}
use proto_gpu.Contracts.Words.{to_u64}
use proto_gpu.Memory.{
  ParamDesc, ParamType, AddrSpaceManager, blob_slice, read_param_symbol, set_param_blob,
  set_param_layout,
}
use proto_gpu.Memory.Params.{first_named, read_param_symbol-eq-param_bytes, blob_slice_lem}
use proto_gpu.Runtime.{overwrite}
use proto_gpu.Cuda.Devices.{DeviceMemory, host_bytes}
use proto_gpu.Cuda.Devices.Copies.{length-host_bytes}
use proto_gpu.Cuda.Args.{PackError, blob_size, pack_value, pack_at, pack_params, pack_kernel_args}

length-overwrite :
    (buf : List ℕ) (off : ℕ) (bytes : List ℕ) → length (overwrite buf off bytes) ≡ length buf
unfolding overwrite
length-overwrite buf off [] = refl
length-overwrite buf off (b ∷ bytes) =
    length-overwrite (set buf off b) (to_u64 (off + 1)) bytes ∙ length-set buf off b

zero_left : (n : ℕ) → 0 + n ≡ n
zero_left n = omega arith

zero_right : (n : ℕ) → n + 0 ≡ n
zero_right n = omega arith

moved : (n k : ℕ) → n + 1 + k ≡ n + suc k
moved n k = omega arith

get_or-overwrite_out :
    (buf : List ℕ) (off : ℕ) (bytes : List ℕ) (x : ℕ)
    → off + length bytes < 2 ^ 64
    → (x < off) ⊎ (off + length bytes ≤ x)
    → get_or (overwrite buf off bytes) x 0 ≡ get_or buf x 0
unfolding overwrite
get_or-overwrite_out buf off [] x room out = refl
get_or-overwrite_out buf off (b ∷ bytes) x room out =
    get_or-overwrite_out (set buf off b) (to_u64 (off + 1)) bytes x (omega arith) (ground arith)
    ∙ get_or-set_ne buf off x b 0
        (λ e. elim out [ inl l ↦ absurd (omega arith) | inr r ↦ absurd (omega arith) ])

get_or-overwrite :
    (buf : List ℕ) (off : ℕ) (bytes : List ℕ) (k : ℕ)
    → off + length bytes < 2 ^ 64
    → off + length bytes ≤ length buf
    → k < length bytes
    → get_or (overwrite buf off bytes) (off + k) 0 ≡ get_or bytes k 0
unfolding overwrite
get_or-overwrite buf off [] k room fits lt = absurd (omega arith)
get_or-overwrite buf off (b ∷ bytes) zero room fits lt = ground (
  arith,
  ap (λ (t : ℕ). get_or (overwrite (set buf off b) (to_u64 (off + 1)) bytes) t 0) (zero_right off),
  get_or-overwrite_out (set buf off b) (to_u64 (off + 1)) bytes off (omega arith)
      (inl (omega arith)),
  get_or-set buf off off b 0,
)
get_or-overwrite buf off (b ∷ bytes) (suc k) room fits lt =
    ap (λ (t : ℕ). get_or (overwrite (set buf off b) (to_u64 (off + 1)) bytes) t 0) next
    ∙ get_or-overwrite (set buf off b) (to_u64 (off + 1)) bytes k (omega arith)
        (omega (arith, length-set buf off b)) (omega arith)
  where
    next : off + suc k ≡ to_u64 (off + 1) + k
    next = omega arith

get_or-host_bytes :
    (host : ℕ → ℕ) (src n k : ℕ) → k < n → get_or (host_bytes host src n) k 0 ≡ host (src + k)
unfolding host_bytes
get_or-host_bytes host src zero k lt = absurd (omega arith)
get_or-host_bytes host src (suc n) zero lt = ap host (sym (zero_right src))
get_or-host_bytes host src (suc n) (suc k) lt =
    get_or-host_bytes host (src + 1) n k (omega arith) ∙ ap host (moved src k)

-- The parameters of a layout share no byte, and every end is in range.
abbrev pub ApartFrom : ParamDesc → List ParamDesc → Type 0
ApartFrom p [] = Unit {0}
ApartFrom p (q ∷ rest) =
    ((p.offset + p.size ≤ q.offset) ⊎ (q.offset + q.size ≤ p.offset)) × ApartFrom p rest

abbrev pub IsLayout : List ParamDesc → Type 0
IsLayout [] = Unit {0}
IsLayout (p ∷ rest) = (p.offset + p.size < 2 ^ 64) × ApartFrom p rest × IsLayout rest

module _ (d : DeviceMemory) (host : ℕ → ℕ) where
  -- A value that is packed is the bytes of the host, as many as the parameter has.
  pack_value_lem :
      (i : ℕ) (type : ParamType) (size src : ℕ) (bytes : List ℕ)
      → pack_value d host i type size src ≡ ok bytes
      → bytes ≡ host_bytes host src size
  unfolding pack_value
  pack_value_lem i ParamType.u32 size src bytes h = ground (arith, ==→eq size 4)
  pack_value_lem i ParamType.u64 size src bytes h = ground (arith, ==→eq size 8)

  -- A parameter that is packed fits, and its bytes are the host's.
  pack_at_lem :
      (i : ℕ) (p : ParamDesc) (src : ℕ) (blob blob' : List ℕ)
      → p.offset + p.size < 2 ^ 64
      → pack_at d host i p src blob ≡ ok blob'
      → (p.offset + p.size ≤ length blob)
        × (blob' ≡ overwrite blob p.offset (host_bytes host src p.size))
  unfolding pack_at
  pack_at_lem i p src blob blob' room h = go (pack_value d host i p.type p.size src) refl
    where
      go :
          (r : Result PackError (List ℕ))
          → pack_value d host i p.type p.size src ≡ r
          → (p.offset + p.size ≤ length blob)
            × (blob' ≡ overwrite blob p.offset (host_bytes host src p.size))
      go (err e) at = ground arith
      go (ok bytes) at = ground (arith, pack_value_lem i p.type p.size src bytes at)

  length-pack_at :
      (i : ℕ) (p : ParamDesc) (src : ℕ) (blob blob' : List ℕ)
      → p.offset + p.size < 2 ^ 64
      → pack_at d host i p src blob ≡ ok blob'
      → length blob' ≡ length blob
  length-pack_at i p src blob blob' room h =
      ap length (pack_at_lem i p src blob blob' room h).1
      ∙ length-overwrite blob p.offset (host_bytes host src p.size)

module _ (d : DeviceMemory) (host params : ℕ → ℕ) where
  length-pack_params :
      (i : ℕ) (layout : List ParamDesc) (blob blob' : List ℕ)
      → IsLayout layout
      → pack_params d host params i layout blob ≡ ok blob'
      → length blob' ≡ length blob
  unfolding pack_params
  length-pack_params i [] blob blob' l h = cc
  length-pack_params i (p ∷ rest) blob blob' l h =
      let (mid, first, later) = >>=-eq-ok (pack_at d host i p (params i) blob) _ h in
      length-pack_params (i + 1) rest mid blob' l.2 later
      ∙ length-pack_at d host i p (params i) blob mid l.0 first

  -- Parameters apart from `q` leave its bytes.
  pack_params_apart :
      (i : ℕ) (layout : List ParamDesc) (blob blob' : List ℕ) (q : ParamDesc) (k : ℕ)
      → IsLayout layout
      → ApartFrom q layout
      → k < q.size
      → pack_params d host params i layout blob ≡ ok blob'
      → get_or blob' (q.offset + k) 0 ≡ get_or blob (q.offset + k) 0
  unfolding pack_params
  pack_params_apart i [] blob blob' q k l apart lt h = cc
  pack_params_apart i (p ∷ rest) blob blob' q k l apart lt h =
      let (mid, first, later) = >>=-eq-ok (pack_at d host i p (params i) blob) _ h in
      let (fits, e) = pack_at_lem d host i p (params i) blob mid l.0 first in
      pack_params_apart (i + 1) rest mid blob' q k l.2 apart.1 lt later
      ∙ ap (λ (t : List ℕ). get_or t (q.offset + k) 0) e
      ∙ get_or-overwrite_out blob p.offset (host_bytes host (params i) p.size) (q.offset + k)
          (omega (arith, l.0, length-host_bytes host (params i) p.size))
          (ground (arith, apart.0, length-host_bytes host (params i) p.size))

  -- The first of the parameters is packed with the first pointer, and fits.
  packed_here :
      (i : ℕ) (p : ParamDesc) (rest : List ParamDesc) (blob blob' : List ℕ) (k : ℕ)
      → IsLayout (p ∷ rest)
      → k < p.size
      → pack_params d host params i (p ∷ rest) blob ≡ ok blob'
      → (get_or blob' (p.offset + k) 0 ≡ host (params i + k)) × (p.offset + p.size ≤ length blob')
  unfolding pack_params
  packed_here i p rest blob blob' k l lt h =
      let (mid, first, later) = >>=-eq-ok (pack_at d host i p (params i) blob) _ h in
      let (fits, e) = pack_at_lem d host i p (params i) blob mid l.0 first in
      let len = length-host_bytes host (params i) p.size in
      (
        pack_params_apart (i + 1) rest mid blob' p k l.2 l.1 lt later
            ∙ ap (λ (t : List ℕ). get_or t (p.offset + k) 0) e
            ∙ get_or-overwrite blob p.offset (host_bytes host (params i) p.size) k
                (omega (arith, l.0, len)) (omega (arith, fits, len)) (omega (arith, len))
            ∙ get_or-host_bytes host (params i) p.size k lt,
        omega (
          arith,
          fits,
          length-pack_params (i + 1) rest mid blob' l.2 later,
          length-pack_at d host i p (params i) blob mid l.0 first,
        ),
      )

  pack_params_lem :
      (i j : ℕ) (layout : List ParamDesc) (blob blob' : List ℕ) (q : ParamDesc) (k : ℕ)
      → IsLayout layout
      → get_elem? layout j ≡ some q
      → k < q.size
      → pack_params d host params i layout blob ≡ ok blob'
      → (get_or blob' (q.offset + k) 0 ≡ host (params (i + j) + k))
        × (q.offset + q.size ≤ length blob')
  unfolding pack_params
  pack_params_lem i j [] blob blob' q k l at lt h = cc
  pack_params_lem i zero (p ∷ rest) blob blob' q k l at lt h =
      let same : p ≡ q = some_inj at in
      let here =
        packed_here i p rest blob blob' k l (subst (λ (t : ParamDesc). k < t.size) (sym same) lt)
          h in
      rw (zero_right i, ← same) here
  pack_params_lem i (suc j) (p ∷ rest) blob blob' q k l at lt h =
      let (mid, first, later) = >>=-eq-ok (pack_at d host i p (params i) blob) _ h in
      rw (← moved i j) (pack_params_lem (i + 1) j rest mid blob' q k l.2 at lt later)

-- Bytes that agree one by one.
blob_slice-host_bytes :
    (blob : List ℕ) (off : ℕ) (host : ℕ → ℕ) (src n : ℕ)
    → off + n < 2 ^ 64
    → ((k : ℕ) → k < n → get_or blob (off + k) 0 ≡ host (src + k))
    → blob_slice blob off n ≡ host_bytes host src n
unfolding blob_slice host_bytes
blob_slice-host_bytes blob off host src zero room same = refl
blob_slice-host_bytes blob off host src (suc n) room same =
    ap₂ ◌∷◌
      (ap (λ (t : ℕ). get_or blob t 0) (sym (zero_right off))
        ∙ same 0 (omega arith)
        ∙ ap host (zero_right src))
      (ap (λ (t : ℕ). blob_slice blob t n) next
        ∙ blob_slice-host_bytes blob (off + 1) host (src + 1) n (omega arith) (λ k lt.
          ap (λ (t : ℕ). get_or blob t 0) (moved off k)
          ∙ same (suc k) (omega arith)
          ∙ ap host (sym (moved src k))))
  where
    next : to_u64 (off + 1) ≡ off + 1
    next = omega arith

module _ (d : DeviceMemory) (host params : ℕ → ℕ) (layout : List ParamDesc) (blob : List ℕ)
    (apart : IsLayout layout)
    (packed : pack_kernel_args d host (some params) layout ≡ ok blob) where
  packed_byte :
      (j : ℕ) (p : ParamDesc) (k : ℕ)
      → get_elem? layout j ≡ some p
      → k < p.size
      → (get_or blob (p.offset + k) 0 ≡ host (params j + k)) × (p.offset + p.size ≤ length blob)
  unfolding pack_kernel_args
  packed_byte j p k at lt = rw (← zero_left j) (
      pack_params_lem d host params 0 j layout (replicate (blob_size 0 layout) 0) blob p k apart at
        lt packed)

  -- Once a kernel's layout and its packed arguments are set, a parameter's name reads the bytes of
  -- the argument at its place, if it is the first with that name.
  pub read_param_symbol-pack_kernel_args :
      (m : AddrSpaceManager) (j : ℕ) (p : ParamDesc)
      → get_elem? layout j ≡ some p
      → first_named p.name layout ≡ some p
      → 0 < p.size
      → p.offset + p.size < 2 ^ 64
      → length blob < 2 ^ 64
      → read_param_symbol (set_param_blob (set_param_layout m layout) blob) p.name p.size
        ≡ some (host_bytes host (params j) p.size)
  read_param_symbol-pack_kernel_args m j p at named pos room short =
      read_param_symbol-eq-param_bytes m layout blob p.name p.size
        (λ q e. rw (← (some_inj (sym named ∙ e))) room) short
      ∙ (ground (
        arith,
        named,
        (packed_byte j p 0 at pos).1,
        blob_slice_lem blob p.offset p.size,
        blob_slice-host_bytes blob p.offset host (params j) p.size room
            (λ k lt. (packed_byte j p k at lt).0),
      ))
