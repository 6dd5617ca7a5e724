-- ===== src/Instruction/Laws.antt =====
-- What a lookup answers, and what an expansion keeps.
use proto_gpu.Prelude.{
  ℕ, zero, suc, ◌≡◌, refl, sym, ◌∙◌, ap, subst, true, false, Option, none, some, List, [], ◌∷◌,
  ◌++◌, get_elem?, Bool-cases, inl, inr, if_no, if_yes, some_inj,
}
use proto_gpu.Contracts.{InstRecord}
use proto_gpu.Instruction.{InstDesc, DescriptorRegistry, describes, lookup_in, lookup}

-- The first descriptor of the list that describes the instruction, or none does.
abbrev pub FirstMatch : InstRecord → List InstDesc → Option InstDesc → Type 0
FirstMatch inst descs none =
    (k : ℕ) (d : InstDesc) → get_elem? descs k ≡ some d → describes d inst ≡ false
FirstMatch inst descs (some d) =
    (before : List InstDesc) × (after : List InstDesc) × (descs ≡ before ++ d ∷ after)
    × (describes d inst ≡ true)
    × ((k : ℕ) (b : InstDesc) → get_elem? before k ≡ some b → describes b inst ≡ false)

module _ (inst : InstRecord) where
  none_in_cons :
      (d : InstDesc) (descs : List InstDesc)
      → describes d inst ≡ false
      → ((k : ℕ) (b : InstDesc) → get_elem? descs k ≡ some b → describes b inst ≡ false)
      → (k : ℕ) (b : InstDesc) → get_elem? (d ∷ descs) k ≡ some b
      → describes b inst ≡ false
  none_in_cons d descs e h zero b f = ap (λ a. describes a inst) (sym (some_inj f)) ∙ e
  none_in_cons d descs e h (suc k) b f = h k b f

  extend :
      (d : InstDesc) (descs : List InstDesc) (o : Option InstDesc)
      → describes d inst ≡ false
      → FirstMatch inst descs o
      → FirstMatch inst (d ∷ descs) o
  extend d descs none e h = none_in_cons d descs e h
  extend d descs (some f) e (before, after, s, m, b) =
      (d ∷ before, after, ap (λ l. d ∷ l) s, m, none_in_cons d before e b)

  lookup_in-FirstMatch : (descs : List InstDesc) → FirstMatch inst descs (lookup_in descs inst)
  unfolding lookup_in
  lookup_in-FirstMatch [] = λ k d e. absurd cc
  lookup_in-FirstMatch (d ∷ descs) = elim (Bool-cases (describes d inst)) [
    | inl e ↦
        subst (FirstMatch inst (d ∷ descs))
          (sym (if_yes (describes d inst) (some d) (lookup_in descs inst) e))
          ([], descs, refl, e, λ k b f. absurd cc)
    | inr e ↦
        subst (FirstMatch inst (d ∷ descs))
          (sym (if_no (describes d inst) (some d) (lookup_in descs inst) e))
          (extend d descs (lookup_in descs inst) e (lookup_in-FirstMatch descs))
  ]

-- A lookup answers the first descriptor of the registry that describes the instruction, and none
-- where no descriptor does.
pub lookup-FirstMatch :
    (registry : DescriptorRegistry) (inst : InstRecord)
    → FirstMatch inst registry.descs (lookup registry inst)
unfolding lookup
lookup-FirstMatch registry inst = lookup_in-FirstMatch inst registry.descs
