-- ===== src/Simt/Cfa.antt =====
-- The control-flow analysis (src/simt/control_flow_analysis.cpp): the successors of each
-- instruction, the post-dominator sets, and the reconvergence point of each predicated branch.
pub mod Words
pub mod Paths
pub mod Fixpoint
pub mod Reconv
use proto_gpu.Prelude.{
  ℕ, zero, suc, ◌+◌, ◌*◌, ◌^◌, Bool, true, false, not, ◌&&◌, ◌||◌, Option, none, some, List, [],
  ◌∷◌, ◌++◌, ltb, leb, ◌==◌, if◌then◌else◌, length, get_elem?, get_or, set, replicate,
}
use proto_gpu.Contracts.{
  InstRecord, MicroOp, MicroOpKind, MicroOpOp, Operand, OperandKind, Code, e_reconv_invalid,
  e_reconv_miss,
}
use proto_gpu.Contracts.Words.{is_neg64}
use proto_gpu.Instruction.{DescriptorRegistry, lookup, expand}
use proto_gpu.Simt.Cfa.Words.{BitSet, no_bits, all, singleton, test, insert, equals, iand}

pub record InstCtrlInfo : Type 0 where
  pub has_bra : Bool
  pub has_ret : Bool
  pub is_predicated : Bool
  pub bra_target : Option ℕ

-- the target of a branch with one immediate input; any other branch keeps the one before
abbrev pub note_target : Option ℕ → List Operand → Option ℕ
note_target old (o ∷ []) = elim o.kind [ OperandKind.imm ↦ some o.imm_i64 | _ ↦ old ]
note_target old _ = old

abbrev pub note_uop : InstCtrlInfo → MicroOp → InstCtrlInfo
note_uop info u = elim u.kind [
  | MicroOpKind.control ↦ elim u.op [
    | MicroOpOp.bra ↦ record info {
      has_bra = true;
      bra_target = note_target info.bra_target u.inputs;
    }
    | MicroOpOp.ret ↦ record info { has_ret = true }
    | _ ↦ info
  ]
  | _ ↦ info
]

unfoldable pub note_uops : InstCtrlInfo → List MicroOp → InstCtrlInfo
note_uops info [] = info
note_uops info (u ∷ uops) = note_uops (note_uop info u) uops

abbrev is_some {ℓ} : {A : Type ℓ} → Option A → Bool
is_some none = false
is_some (some a) = true

unfoldable pub classify_inst : DescriptorRegistry → ℕ → InstRecord → Option InstCtrlInfo
unfolding note_uops
classify_inst registry warp_size inst = elim (lookup registry inst) [
  | none ↦ none
  | some desc ↦ some (
      note_uops
        record {
          has_bra = false;
          has_ret = false;
          is_predicated = is_some inst.pred;
          bra_target = none;
        }
        (expand inst desc warp_size))
]

-- The next instruction, or the exit node.
abbrev pub next_or_exit : ℕ → ℕ → ℕ
next_or_exit n_insts pc = if ltb (pc + 1) n_insts then pc + 1 else n_insts

abbrev pub out_of_range : ℕ → ℕ → Bool
out_of_range n_insts target = is_neg64 target || leb n_insts target

-- The successors of an instruction; `none` is a predicated branch with a bad target.
unfoldable pub branch_successors : ℕ → ℕ → Bool → Option ℕ → Option (List ℕ)
branch_successors n_insts pc true none = none
branch_successors n_insts pc true (some target) =
    if out_of_range n_insts target then none else some (target ∷ next_or_exit n_insts pc ∷ [])
branch_successors n_insts pc false none = some (next_or_exit n_insts pc ∷ [])
branch_successors n_insts pc false (some target) =
    some ((if out_of_range n_insts target then n_insts else target) ∷ [])

unfoldable pub successors : ℕ → ℕ → Option InstCtrlInfo → Option (List ℕ)
unfolding branch_successors
successors n_insts pc none = some (next_or_exit n_insts pc ∷ [])
successors n_insts pc (some info) =
    if info.has_ret
    then some (n_insts ∷ [])
    else if info.has_bra
    then branch_successors n_insts pc info.is_predicated info.bra_target
    else some (next_or_exit n_insts pc ∷ [])

-- The successor lists of the instructions from `pc` on, and of the exit node.
unfoldable pub build_cfg : ℕ → ℕ → List (Option InstCtrlInfo) → Option (List (List ℕ))
unfolding successors
build_cfg n_insts pc [] = some ([] ∷ [])
build_cfg n_insts pc (info ∷ infos) = elim (successors n_insts pc info) [
  | none ↦ none
  | some out ↦ elim (build_cfg n_insts (suc pc) infos) [
    | none ↦ none
    | some succ ↦ some (out ∷ succ)
  ]
]

-- `new_set`: the node itself and what post-dominates all its successors
unfoldable pub meet : List BitSet → BitSet → List ℕ → BitSet
unfolding iand
meet postdom acc [] = acc
meet postdom acc (s ∷ rest) = meet postdom (iand acc (get_or postdom s no_bits)) rest

unfoldable pub new_set : List (List ℕ) → ℕ → List BitSet → ℕ → BitSet
unfolding meet
new_set succ exit_node postdom i =
    insert
      (elim (get_or succ i []) [
        | [] ↦ get_or postdom exit_node no_bits
        | s ∷ rest ↦ meet postdom (get_or postdom s no_bits) rest
      ])
      i

-- The body of the `for` loop at node i, in place, with the flag `changed`.
unfoldable pub update_node : List (List ℕ) → ℕ → ℕ → List BitSet × Bool → List BitSet × Bool
unfolding new_set
update_node succ exit_node i (postdom, changed) =
    let fresh = new_set succ exit_node postdom i in
    if i == exit_node
    then (postdom, changed)
    else if equals fresh (get_or postdom i no_bits)
    then (postdom, changed)
    else (set postdom i fresh, true)

-- One pass over the nodes from `i` on.
unfoldable pub sweep : List (List ℕ) → ℕ → ℕ → ℕ → List BitSet × Bool → List BitSet × Bool
unfolding update_node
sweep succ exit_node zero i s = s
sweep succ exit_node (suc left) i s =
    sweep succ exit_node left (suc i) (update_node succ exit_node i s)

-- The `while (changed)` loop; `none` is the diagnostic of too many passes.
unfoldable pub iterate : List (List ℕ) → ℕ → ℕ → List BitSet → Option (List BitSet)
unfolding sweep
iterate succ exit_node zero postdom = none
iterate succ exit_node (suc passes) postdom =
    let swept = sweep succ exit_node (suc exit_node) 0 (postdom, false) in
    let rest = iterate succ exit_node passes swept.0 in if swept.1 then rest else some swept.0

abbrev pub start : ℕ → List BitSet
start exit_node =
    replicate exit_node (all (suc exit_node)) ++ singleton (suc exit_node) exit_node ∷ []

unfoldable pub post_dominators : List (List ℕ) → ℕ → Option (List BitSet)
unfolding iterate
post_dominators succ exit_node = iterate succ exit_node (suc exit_node * 4 + 64) (start exit_node)

-- No candidate d from `d` on, other than pc and c, is post-dominated by c.
unfoldable pub is_immediate : List BitSet → ℕ → ℕ → ℕ → ℕ → Bool
is_immediate postdom pc c zero d = true
is_immediate postdom pc c (suc left) d =
    let rest = is_immediate postdom pc c left (suc d) in
    if d == pc || d == c
    then rest
    else if not (test (get_or postdom pc no_bits) d)
    then rest
    else if test (get_or postdom d no_bits) c
    then false
    else rest

unfoldable pub find_ipdom : List BitSet → ℕ → ℕ → ℕ → ℕ → Option ℕ
unfolding is_immediate
find_ipdom postdom n_nodes pc zero c = none
find_ipdom postdom n_nodes pc (suc left) c =
    let rest = find_ipdom postdom n_nodes pc left (suc c) in
    if c == pc
    then rest
    else if not (test (get_or postdom pc no_bits) c)
    then rest
    else if is_immediate postdom pc c n_nodes 0
    then some c
    else rest

abbrev pub diverges : Option InstCtrlInfo → Bool
diverges none = false
diverges (some info) = info.has_bra && info.is_predicated

abbrev pub prepend : Option ℕ → Option (List (Option ℕ)) → Option (List (Option ℕ))
prepend r none = none
prepend r (some out) = some (r ∷ out)

abbrev pub prepend_found : Option ℕ → Option (List (Option ℕ)) → Option (List (Option ℕ))
prepend_found none rest = none
prepend_found (some c) rest = prepend (some c) rest

-- The entries of `reconv_pc` from `pc` on; `none` is a branch without an immediate post-dominator.
unfoldable pub reconv_pcs :
    List BitSet → ℕ → ℕ → List (Option InstCtrlInfo) → Option (List (Option ℕ))
unfolding find_ipdom
reconv_pcs postdom n_nodes pc [] = some []
reconv_pcs postdom n_nodes pc (info ∷ infos) =
    let rest = reconv_pcs postdom n_nodes (suc pc) infos in
    if diverges info
    then prepend_found (find_ipdom postdom n_nodes pc n_nodes 0) rest
    else prepend none rest

classify_all : DescriptorRegistry → ℕ → List InstRecord → List (Option InstCtrlInfo)
unfolding classify_inst
classify_all registry warp_size [] = []
classify_all registry warp_size (inst ∷ insts) =
    classify_inst registry warp_size inst ∷ classify_all registry warp_size insts

-- The analysis of classified instructions: a diagnostic, or the reconvergence points.
pub data Analysis : Type 0 where
  diag : Code → Analysis
  reconv : List (Option ℕ) → Analysis

abbrev pub answer : Option (List (Option ℕ)) → Analysis
answer none = diag e_reconv_miss
answer (some out) = reconv out

abbrev pub with_postdom : List (Option InstCtrlInfo) → Option (List BitSet) → Analysis
with_postdom infos none = diag e_reconv_invalid
with_postdom infos (some postdom) = answer (reconv_pcs postdom (suc (length infos)) 0 infos)

abbrev pub with_cfg : List (Option InstCtrlInfo) → Option (List (List ℕ)) → Analysis
with_cfg infos none = diag e_reconv_invalid
with_cfg infos (some succ) = with_postdom infos (post_dominators succ (length infos))

unfoldable pub analyze : List (Option InstCtrlInfo) → Analysis
analyze infos = with_cfg infos (build_cfg (length infos) 0 infos)

unfoldable pub analyze_control_flow : DescriptorRegistry → ℕ → List InstRecord → Analysis
unfolding analyze classify_all
analyze_control_flow registry warp_size insts = analyze (classify_all registry warp_size insts)
