-- ===== src/Memory/Params.antt =====
-- Kernel parameters: which bytes of the blob a parameter's name reads.
use native.Mathlib.Nat.{mod-eq_of_lt}
use proto_gpu.Prelude.{
  ℕ, zero, suc, ◌+◌, ◌^◌, ◌≤◌, ◌<◌, ◌≡◌, refl, ap, sym, ◌∙◌, String, str_eq, eq_iff, Option, none,
  some, List, [], ◌∷◌, ◌++◌, arith, ltb, if◌then◌else◌, length, get_or, take, drop, take-drop-suc,
}
use proto_gpu.Contracts.Words.{to_u64}
use proto_gpu.Memory.{
  ParamDesc, AddrSpaceManager, find_param, emplace_all, blob_slice, set_param_layout,
  set_param_blob, read_param_symbol,
}

-- The first entry of a layout with the name.
abbrev pub first_named : String → List ParamDesc → Option ParamDesc
first_named name [] = none
first_named name (p ∷ rest) = if str_eq p.name name then some p else first_named name rest

abbrev pub or_else {ℓ} : {A : Type ℓ} → Option A → Option A → Option A
or_else none y = y
or_else (some x) y = some x

find_param-append :
    (name : String) (xs : List (String × ParamDesc)) (p : ParamDesc)
    → find_param name (xs ++ (p.name, p) ∷ [])
      ≡ or_else (find_param name xs) (if str_eq p.name name then some p else none)
unfolding find_param
find_param-append name [] p = refl
find_param-append name ((key, q) ∷ xs) p = ground (arith, find_param-append name xs p)

find_param-emplace_all :
    (name : String) (xs : List (String × ParamDesc)) (ps : List ParamDesc)
    → find_param name (emplace_all xs ps) ≡ or_else (find_param name xs) (first_named name ps)
unfolding emplace_all
find_param-emplace_all name xs [] = ground arith
find_param-emplace_all name xs (p ∷ ps) = ground (
  arith,
  eq_iff p.name name,
  find_param-append name xs p,
  find_param-emplace_all name xs ps,
  find_param-emplace_all name (xs ++ (p.name, p) ∷ []) ps,
)

pub blob_slice_lem :
    (blob : List ℕ) (off size : ℕ)
    → off + size ≤ length blob
    → length blob < 2 ^ 64
    → blob_slice blob off size ≡ take size (drop off blob)
unfolding blob_slice
blob_slice_lem blob off zero h room = refl
blob_slice_lem blob off (suc size) h room =
    let next : to_u64 (off + 1) ≡ suc off = omega arith in
    ap (λ (n : ℕ). get_or blob off 0 ∷ blob_slice blob n size) next
    ∙ ap (λ (ys : List ℕ). get_or blob off 0 ∷ ys)
        (blob_slice_lem blob (suc off) size (omega arith) room)
    ∙ sym (take-drop-suc blob off size 0 (omega arith))

-- What a symbol reads: the bytes of the first parameter with its name, if the blob has them all.
abbrev pub param_bytes : List ParamDesc → List ℕ → String → ℕ → Option (List ℕ)
param_bytes layout blob name size = elim (first_named name layout) [
  | none ↦ none
  | some p ↦
      if ltb (length blob) (p.offset + size) then none else some (take size (drop p.offset blob))
]

param_case :
    (o : Option ParamDesc) (blob : List ℕ) (size : ℕ)
    → ((p : ParamDesc) → o ≡ some p → p.offset + size < 2 ^ 64)
    → length blob < 2 ^ 64
    → ◌≡◌ {A = Option (List ℕ)}
        (elim o [
          | none ↦ none
          | some p ↦
              if ltb (length blob) (to_u64 (p.offset + size))
              then none
              else some (blob_slice blob p.offset size)
        ])
        (elim o [
          | none ↦ none
          | some p ↦
              if ltb (length blob) (p.offset + size)
              then none
              else some (take size (drop p.offset blob))
        ])
param_case none blob size offs room = refl
param_case (some p) blob size offs room =
    let exact : to_u64 (p.offset + size) ≡ p.offset + size = mod-eq_of_lt (offs p refl) in
    ground (arith, exact, blob_slice_lem blob p.offset size)

-- After a layout and a blob are set, a symbol reads the bytes of the first parameter of its name:
-- `size` bytes of the blob from the offset on, or nothing if the name is unknown or the blob short.
pub read_param_symbol-eq-param_bytes :
    (m : AddrSpaceManager) (layout : List ParamDesc) (blob : List ℕ) (name : String) (size : ℕ)
    → ((p : ParamDesc) → first_named name layout ≡ some p → p.offset + size < 2 ^ 64)
    → length blob < 2 ^ 64
    → read_param_symbol (set_param_blob (set_param_layout m layout) blob) name size
      ≡ param_bytes layout blob name size
unfolding read_param_symbol set_param_blob set_param_layout find_param
read_param_symbol-eq-param_bytes m layout blob name size offs room =
    rw (find_param-emplace_all name [] layout, read_param_symbol)
      (param_case (first_named name layout) blob size offs room)
