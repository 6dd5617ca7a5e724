-- ===== src/Simt/Cfa/Fixpoint.antt =====
-- The loop over the post-dominator sets ends in a fixed point of the update
-- (src/simt/control_flow_analysis.cpp).
use proto_gpu.Prelude.{
  ℕ, zero, suc, ◌+◌, ◌*◌, ◌≤◌, ◌<◌, ◌≡◌, ◌≢◌, refl, sym, ◌∙◌, ap, subst, Bool, true, false, some,
  List, [], ◌∷◌, ◌++◌, ◌==◌, if◌then◌else◌, get_or, set, replicate, get_or-set_ne, arith,
  Bool-cases, inl, inr, ◌⊎◌, ==→eq, ==→ne, if_no, if_yes, some_inj,
}
use proto_gpu.Simt.Cfa.Words.{
  BitSet, no_bits, all, singleton, test, equals, test-singleton, equals-eq,
}
use proto_gpu.Simt.Cfa.{new_set, update_node, sweep, iterate, start, post_dominators}
use proto_gpu.Simt.Cfa.Paths.{IsFixed}

-- A pass that changes nothing went over nodes whose update is what they have.
module _ (succ : List (List ℕ)) (exit_node : ℕ) where
  -- An update leaves the state as it is, where the node's set is its update, or sets the flag.
  abbrev Updated : ℕ → List BitSet → Bool → List BitSet × Bool → Type 0
  Updated i postdom changed r =
      ((r ≡ (postdom, changed))
        × (i ≢ exit_node → new_set succ exit_node postdom i ≡ get_or postdom i no_bits))
      ⊎ ((r ≡ (set postdom i (new_set succ exit_node postdom i), true)) × (i ≢ exit_node))

  update_node-Updated :
      (i : ℕ) (postdom : List BitSet) (changed : Bool)
      → Updated i postdom changed (update_node succ exit_node i (postdom, changed))
  unfolding update_node
  update_node-Updated i postdom changed = elim (Bool-cases (i == exit_node)) [
    | inl e ↦ inl (
      if_yes (i == exit_node) (postdom, changed) tested e,
      λ ne. absurd (ne (==→eq i exit_node e)),
    )
    | inr e ↦ elim (Bool-cases same) [
      | inl f ↦ inl (
        if_no (i == exit_node) (postdom, changed) tested e
            ∙ if_yes same (postdom, changed) written f,
        λ ne. equals-eq (new_set succ exit_node postdom i) (get_or postdom i no_bits) f,
      )
      | inr f ↦ inr (
        if_no (i == exit_node) (postdom, changed) tested e
            ∙ if_no same (postdom, changed) written f,
        ==→ne i exit_node e,
      )
    ]
  ]
    where
      same : Bool
      same = equals (new_set succ exit_node postdom i) (get_or postdom i no_bits)

      written : List BitSet × Bool
      written = (set postdom i (new_set succ exit_node postdom i), true)

      tested : List BitSet × Bool
      tested = if same then (postdom, changed) else written

  sweep-true :
      (left i : ℕ) (s : List BitSet × Bool) → s.1 ≡ true → (sweep succ exit_node left i s).1 ≡ true
  unfolding sweep
  sweep-true zero i s h = h
  sweep-true (suc left) i s h =
      sweep-true left (suc i) (update_node succ exit_node i s)
        (flag (update_node-Updated i s.0 s.1))
    where
      flag :
          Updated i s.0 s.1 (update_node succ exit_node i s)
          → (update_node succ exit_node i s).1 ≡ true
      flag (inl (e, f)) = ap (λ (r : List BitSet × Bool). r.1) e ∙ h
      flag (inr (e, f)) = ap (λ (r : List BitSet × Bool). r.1) e

  -- The set of the exit node is never written.
  pub sweep-exit :
      (left i : ℕ) (s : List BitSet × Bool)
      → get_or (sweep succ exit_node left i s).0 exit_node no_bits ≡ get_or s.0 exit_node no_bits
  unfolding sweep
  sweep-exit zero i s = refl
  sweep-exit (suc left) i s =
      sweep-exit left (suc i) (update_node succ exit_node i s)
      ∙ kept (update_node-Updated i s.0 s.1)
    where
      kept :
          Updated i s.0 s.1 (update_node succ exit_node i s)
          → get_or (update_node succ exit_node i s).0 exit_node no_bits
            ≡ get_or s.0 exit_node no_bits
      kept (inl (e, f)) = ap (λ (r : List BitSet × Bool). get_or r.0 exit_node no_bits) e
      kept (inr (e, ne)) =
          ap (λ (r : List BitSet × Bool). get_or r.0 exit_node no_bits) e
          ∙ get_or-set_ne s.0 i exit_node (new_set succ exit_node s.0 i) no_bits ne

  abbrev Still : ℕ → ℕ → List BitSet → List BitSet → Type 0
  Still i left postdom q =
      (q ≡ postdom)
      × ((j : ℕ)
          → i ≤ j
          → j < i + left
          → j ≢ exit_node
          → new_set succ exit_node postdom j ≡ get_or postdom j no_bits)

  Still-suc :
      (i left : ℕ) (postdom q : List BitSet)
      → (i ≢ exit_node → new_set succ exit_node postdom i ≡ get_or postdom i no_bits)
      → Still (suc i) left postdom q
      → Still i (suc left) postdom q
  Still-suc i left postdom q here (same, fixed) =
      (same, λ j lo hi ne. here_or_later j lo hi ne (Bool-cases (i == j)))
    where
      here_or_later :
          (j : ℕ)
          → i ≤ j
          → j < i + suc left
          → j ≢ exit_node
          → ((i == j) ≡ true) ⊎ ((i == j) ≡ false)
          → new_set succ exit_node postdom j ≡ get_or postdom j no_bits
      here_or_later j lo hi ne (inl e) = at_node j (==→eq i j e) ne
        where
          at_node :
              (n : ℕ)
              → i ≡ n
              → n ≢ exit_node
              → new_set succ exit_node postdom n ≡ get_or postdom n no_bits
          at_node n e ne =
              subst (λ m. new_set succ exit_node postdom m ≡ get_or postdom m no_bits) e
                (here (λ f. ne (sym e ∙ f)))
      here_or_later j lo hi ne (inr e) = fixed j (omega (arith, ==→ne i j e)) (omega arith) ne

  pub sweep-Still :
      (left i : ℕ) (postdom : List BitSet)
      → (sweep succ exit_node left i (postdom, false)).1 ≡ false
      → Still i left postdom (sweep succ exit_node left i (postdom, false)).0
  unfolding sweep
  sweep-Still zero i postdom h = (refl, λ j lo hi ne. absurd (omega arith))
  sweep-Still (suc left) i postdom h =
      by_case (sweep-Still left (suc i) postdom) (update_node-Updated i postdom false)
    where
      by_case :
          ((sweep succ exit_node left (suc i) (postdom, false)).1 ≡ false
            → Still (suc i) left postdom (sweep succ exit_node left (suc i) (postdom, false)).0)
          → Updated i postdom false (update_node succ exit_node i (postdom, false))
          → Still i
              (suc left)
              postdom
              (sweep succ exit_node left (suc i) (update_node succ exit_node i (postdom, false))).0
      by_case ih (inl (e, here)) =
          Still-suc i left postdom
            (sweep succ exit_node left (suc i) (update_node succ exit_node i (postdom, false))).0
            here
            (subst
              (λ (r : List BitSet × Bool).
                (sweep succ exit_node left (suc i) r).1 ≡ false
                → Still (suc i) left postdom (sweep succ exit_node left (suc i) r).0)
              (sym e) ih h)
      by_case ih (inr (e, ne)) =
          let raised =
            sweep-true left (suc i) (update_node succ exit_node i (postdom, false))
              (ap (λ (r : List BitSet × Bool). r.1) e) in
          absurd (ground (arith, raised, h))

  -- What the loop ends with is a fixed point.
  pub iterate-IsFixed :
      (passes : ℕ) (postdom q : List BitSet)
      → ((c : ℕ) → exit_node ≢ c → test (get_or postdom exit_node no_bits) c ≡ false)
      → iterate succ exit_node passes postdom ≡ some q
      → IsFixed succ exit_node q
  unfolding iterate
  iterate-IsFixed zero postdom q only e = absurd cc
  iterate-IsFixed (suc passes) postdom q only e =
      ended
        (iterate-IsFixed passes (sweep succ exit_node (suc exit_node) 0 (postdom, false)).0 q kept)
        (Bool-cases swept.1)
    where
      swept : List BitSet × Bool
      swept = sweep succ exit_node (suc exit_node) 0 (postdom, false)

      kept : (c : ℕ) → exit_node ≢ c → test (get_or swept.0 exit_node no_bits) c ≡ false
      kept c ne = ap (λ b. test b c) (sweep-exit (suc exit_node) 0 (postdom, false)) ∙ only c ne

      ended :
          (iterate succ exit_node passes swept.0 ≡ some q → IsFixed succ exit_node q)
          → (swept.1 ≡ true) ⊎ (swept.1 ≡ false)
          → IsFixed succ exit_node q
      ended ih (inl f) =
          ih (sym (if_yes swept.1 (iterate succ exit_node passes swept.0) (some swept.0) f) ∙ e)
      ended ih (inr f) =
          subst (λ p. IsFixed succ exit_node p) same
            (fixed (sweep-Still (suc exit_node) 0 postdom f))
        where
          same : postdom ≡ q
          same =
              sym (sweep-Still (suc exit_node) 0 postdom f).0
              ∙ some_inj
                  (sym (if_no swept.1 (iterate succ exit_node passes swept.0) (some swept.0) f) ∙ e)

          fixed : Still 0 (suc exit_node) postdom swept.0 → IsFixed succ exit_node postdom
          fixed (unchanged, at_nodes) = record {
            closed = λ i lt. at_nodes i (omega arith) (omega arith) (omega arith);
            exit_only = only;
          }

  pub start-exit :
      (c : ℕ) → exit_node ≢ c → test (get_or (start exit_node) exit_node no_bits) c ≡ false
  start-exit c ne =
      ap (λ b. test b c) (last exit_node) ∙ test-singleton (suc exit_node) exit_node c ne
    where
      last :
          (n : ℕ)
          → get_or
              (replicate n (all (suc exit_node)) ++ singleton (suc exit_node) exit_node ∷ [])
              n
              no_bits
            ≡ singleton (suc exit_node) exit_node
      last zero = refl
      last (suc n) = last n

  pub post_dominators-IsFixed :
      (q : List BitSet) → post_dominators succ exit_node ≡ some q → IsFixed succ exit_node q
  unfolding post_dominators
  post_dominators-IsFixed q e =
      iterate-IsFixed (suc exit_node * 4 + 64) (start exit_node) q start-exit e
