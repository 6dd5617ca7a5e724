-- ===== src/Simt/Cfa/Reconv.antt =====
-- The reconvergence points that the analysis answers.
use proto_gpu.Prelude.{
  ℕ, zero, suc, ◌+◌, ◌≡◌, ◌≢◌, refl, sym, ◌∙◌, ap, subst, Bool, true, not, Option, none, some, List,
  [], ◌∷◌, ◌==◌, if◌then◌else◌, length, get_elem?, get_or, arith, Bool-cases, inl, inr, ==→ne,
  if_no, if_yes, some_inj,
}
use proto_gpu.Simt.Cfa.Words.{BitSet, no_bits, test}
use proto_gpu.Simt.Cfa.{
  find_ipdom, is_immediate, reconv_pcs, prepend, prepend_found, diverges, build_cfg,
  post_dominators, analyze, with_cfg, with_postdom, answer, reconv, InstCtrlInfo,
}
use proto_gpu.Simt.Cfa.Fixpoint.{post_dominators-IsFixed}
use proto_gpu.Simt.Cfa.Paths.{Walk, Visits, postdom-Visits, IsFixed}

module _ (postdom : List BitSet) (n_nodes : ℕ) where
  -- The candidate found is another node that post-dominates the branch.
  find_ipdom-test :
      (pc left i c : ℕ)
      → find_ipdom postdom n_nodes pc left i ≡ some c
      → (test (get_or postdom pc no_bits) c ≡ true) × (pc ≢ c)
  unfolding find_ipdom
  find_ipdom-test pc zero i c e = absurd cc
  find_ipdom-test pc (suc left) i c e = elim (Bool-cases (i == pc)) [
    | inl f ↦ find_ipdom-test pc left (suc i) c (sym (if_yes (i == pc) rest tested f) ∙ e)
    | inr f ↦
        let past = sym (if_no (i == pc) rest tested f) ∙ e in
        elim (Bool-cases (test (get_or postdom pc no_bits) i)) [
          | inr g ↦
              find_ipdom-test pc left (suc i) c (sym (if_yes missing rest chosen (ap not g)) ∙ past)
          | inl g ↦
              let here = sym (if_no missing rest chosen (ap not g)) ∙ past in
              elim (Bool-cases (is_immediate postdom pc i n_nodes 0)) [
                | inr k ↦
                    find_ipdom-test pc left (suc i) c
                      (sym (if_no (is_immediate postdom pc i n_nodes 0) (some i) rest k) ∙ here)
                | inl k ↦
                    let same =
                      some_inj (
                        sym (if_yes (is_immediate postdom pc i n_nodes 0) (some i) rest k)
                        ∙ here) in
                    (
                      ap (test (get_or postdom pc no_bits)) (sym same) ∙ g,
                      λ h. ==→ne i pc f (same ∙ sym h),
                    )
              ]
        ]
  ]
    where
      missing : Bool
      missing = not (test (get_or postdom pc no_bits) i)

      rest : Option ℕ
      rest = find_ipdom postdom n_nodes pc left (suc i)

      chosen : Option ℕ
      chosen = if is_immediate postdom pc i n_nodes 0 then some i else rest

      tested : Option ℕ
      tested = if missing then rest else chosen

  -- The first entry is the one found, and the others are those of the instructions that follow.
  abbrev Entries : ℕ → List (Option InstCtrlInfo) → List (Option ℕ) → Type 0
  Entries pc infos out =
      (r : Option ℕ) × (tail : List (Option ℕ)) × (out ≡ r ∷ tail)
      × (reconv_pcs postdom n_nodes (suc pc) infos ≡ some tail)
      × ((c : ℕ) → r ≡ some c → find_ipdom postdom n_nodes pc n_nodes 0 ≡ some c)

  entries :
      (pc : ℕ) (info : Option InstCtrlInfo) (infos : List (Option InstCtrlInfo))
      (out : List (Option ℕ))
      → reconv_pcs postdom n_nodes pc (info ∷ infos) ≡ some out
      → Entries pc infos out
  unfolding reconv_pcs
  entries pc info infos out e = elim (Bool-cases (diverges info)) [
    | inl d ↦ found (find_ipdom postdom n_nodes pc n_nodes 0) rest refl refl (
        sym (
          if_yes (diverges info) (prepend_found (find_ipdom postdom n_nodes pc n_nodes 0) rest)
            (prepend none rest) d)
        ∙ e)
    | inr d ↦ plain rest refl (
        sym (
          if_no (diverges info) (prepend_found (find_ipdom postdom n_nodes pc n_nodes 0) rest)
            (prepend none rest) d)
        ∙ e)
  ]
    where
      rest : Option (List (Option ℕ))
      rest = reconv_pcs postdom n_nodes (suc pc) infos

      plain :
          (o : Option (List (Option ℕ)))
          → rest ≡ o
          → prepend none o ≡ some out
          → Entries pc infos out
      plain none f g = absurd cc
      plain (some tail) f g = (none, tail, sym (some_inj g), f, λ c h. absurd cc)

      found :
          (p : Option ℕ) (o : Option (List (Option ℕ)))
          → find_ipdom postdom n_nodes pc n_nodes 0 ≡ p
          → rest ≡ o
          → prepend_found p o ≡ some out
          → Entries pc infos out
      found none o p_is f g = absurd cc
      found (some a) none p_is f g = absurd cc
      found (some a) (some tail) p_is f g = (some a, tail, sym (some_inj g), f, λ c h. p_is ∙ h)

  pub reconv_pcs-test :
      (pc : ℕ) (infos : List (Option InstCtrlInfo)) (out : List (Option ℕ)) (k c : ℕ)
      → reconv_pcs postdom n_nodes pc infos ≡ some out
      → get_elem? out k ≡ some (some c)
      → (test (get_or postdom (pc + k) no_bits) c ≡ true) × (pc + k ≢ c)
  unfolding reconv_pcs
  reconv_pcs-test pc [] out k c e h =
      let no_entry : none ≡ some (some c) = ap (λ o. get_elem? o k) (some_inj e) ∙ h in absurd cc
  reconv_pcs-test pc (info ∷ infos) out zero c e h =
      let (r, tail, out_is, rest_is, r_is) = entries pc info infos out e in
      subst (λ n. (test (get_or postdom n no_bits) c ≡ true) × (n ≢ c)) (omega arith)
        (find_ipdom-test pc n_nodes 0 c
          (r_is c (some_inj (ap (λ o. get_elem? o 0) (sym out_is) ∙ h))))
  reconv_pcs-test pc (info ∷ infos) out (suc k) c e h =
      let (r, tail, out_is, rest_is, r_is) = entries pc info infos out e in
      subst (λ n. (test (get_or postdom n no_bits) c ≡ true) × (n ≢ c)) (omega arith)
        (reconv_pcs-test (suc pc) infos tail k c rest_is
          (ap (λ o. get_elem? o (suc k)) (sym out_is) ∙ h))

-- The reconvergence point that the analysis gives a branch is on every walk from the branch to
-- the exit along the successors that it built, after the branch itself.
pub analyze-Visits :
    (infos : List (Option InstCtrlInfo)) (out : List (Option ℕ)) (succ : List (List ℕ)) (pc r : ℕ)
    (nodes : List ℕ)
    → analyze infos ≡ reconv out
    → build_cfg (length infos) 0 infos ≡ some succ
    → get_elem? out pc ≡ some (some r)
    → Walk succ (length infos) pc nodes
    → Visits r nodes
unfolding analyze
analyze-Visits infos out succ pc r nodes done built entry walk =
    by_sets (post_dominators succ n) refl (ap (with_cfg infos) (sym built) ∙ done)
  where
    n : ℕ
    n = length infos

    reconv_inj : (a b : List (Option ℕ)) → reconv a ≡ reconv b → a ≡ b
    reconv_inj a b e = cc

    by_entries :
        (postdom : List BitSet) (o : Option (List (Option ℕ)))
        → IsFixed succ n postdom
        → reconv_pcs postdom (suc n) 0 infos ≡ o
        → answer o ≡ reconv out
        → Visits r nodes
    by_entries postdom none fixed e f = absurd cc
    by_entries postdom (some a) fixed e f =
        let found =
          reconv_pcs-test postdom (suc n) 0 infos a pc r e
            (ap (λ o. get_elem? o pc) (reconv_inj a out f) ∙ entry) in
        let at_pc =
          subst (λ m. (test (get_or postdom m no_bits) r ≡ true) × (m ≢ r)) (add_zero pc) found in
        postdom-Visits succ n postdom fixed pc nodes walk r at_pc.0 at_pc.1
      where
        add_zero : (m : ℕ) → 0 + m ≡ m
        add_zero m = omega arith

    by_sets :
        (p : Option (List BitSet))
        → post_dominators succ n ≡ p
        → with_postdom infos p ≡ reconv out
        → Visits r nodes
    by_sets none e f = absurd cc
    by_sets (some postdom) e f =
        by_entries postdom (reconv_pcs postdom (suc n) 0 infos)
          (post_dominators-IsFixed succ n postdom e) refl f
