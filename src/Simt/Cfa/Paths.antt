-- ===== src/Simt/Cfa/Paths.antt =====
-- The reconvergence point of a predicated branch lies on every path from it to the exit.
use proto_gpu.Prelude.{
  ℕ, zero, suc, ◌<◌, ◌≡◌, ◌≢◌, sym, ◌∙◌, ap, subst, true, false, some, List, [], ◌∷◌, ◌==◌,
  get_elem?, get_or, arith, Bool-cases, inl, inr, ==→eq, ==→ne, some_inj,
}
use proto_gpu.Simt.Cfa.Words.{BitSet, no_bits, test, iand, test-iand, test-insert}
use proto_gpu.Simt.Cfa.{meet, new_set}

-- The nodes after node i on a walk along successors that ends at the exit node.
pub data Walk (succ : List (List ℕ)) (exit_node : ℕ) : ℕ → List ℕ → Type 0 where
  arrived : Walk succ exit_node exit_node []
  goes :
      {i j : ℕ} {rest : List ℕ} (k : ℕ)
      → i < exit_node
      → get_elem? (get_or succ i []) k ≡ some j
      → Walk succ exit_node j rest
      → Walk succ exit_node i (j ∷ rest)

-- The place of a node on a walk.
abbrev pub Visits : ℕ → List ℕ → Type 0
Visits c nodes = (k : ℕ) × (get_elem? nodes k ≡ some c)

module _ (succ : List (List ℕ)) (exit_node : ℕ) (postdom : List BitSet) where
  abbrev at : ℕ → BitSet
  at i = get_or postdom i no_bits

  -- The meet is contained in each of its parts.
  meet-acc :
      (acc : BitSet) (rest : List ℕ) (c : ℕ)
      → test (meet postdom acc rest) c ≡ true
      → test acc c ≡ true
  unfolding meet
  meet-acc acc [] c h = h
  meet-acc acc (s ∷ rest) c h =
      ground (arith, meet-acc (iand acc (at s)) rest c h, test-iand acc (at s) c)

  meet-part :
      (acc : BitSet) (rest : List ℕ) (c k j : ℕ)
      → test (meet postdom acc rest) c ≡ true
      → get_elem? rest k ≡ some j
      → test (at j) c ≡ true
  unfolding meet
  meet-part acc [] c k j h e = absurd cc
  meet-part acc (s ∷ rest) c zero j h e =
      let inside = meet-acc (iand acc (at s)) rest c h in
      subst (λ n. test (at n) c ≡ true) (some_inj e)
        (ground (arith, inside, test-iand acc (at s) c))
  meet-part acc (s ∷ rest) c (suc k) j h e = meet-part (iand acc (at s)) rest c k j h e

  -- What the update of a node has beside the node, each successor has.
  new_set-succ :
      (i k j c : ℕ)
      → test (new_set succ exit_node postdom i) c ≡ true
      → i ≢ c
      → get_elem? (get_or succ i []) k ≡ some j
      → test (at j) c ≡ true
  unfolding new_set
  new_set-succ i k j c h ne e =
      parts (get_or succ i []) e (sym (test-insert (met (get_or succ i [])) i c ne) ∙ h)
    where
      met : List ℕ → BitSet
      met out = elim out [ [] ↦ at exit_node | s ∷ rest ↦ meet postdom (at s) rest ]

      first_or_later :
          (k s : ℕ) (rest : List ℕ)
          → get_elem? (s ∷ rest) k ≡ some j
          → test (meet postdom (at s) rest) c ≡ true
          → test (at j) c ≡ true
      first_or_later zero s rest e h =
          subst (λ n. test (at n) c ≡ true) (some_inj e) (meet-acc (at s) rest c h)
      first_or_later (suc k) s rest e h = meet-part (at s) rest c k j h e

      parts :
          (out : List ℕ) → get_elem? out k ≡ some j → test (met out) c ≡ true → test (at j) c ≡ true
      parts [] e h = absurd cc
      parts (s ∷ rest) e h = first_or_later k s rest e h

  -- A fixed point of the update, with the set of the exit node as it started.
  pub record IsFixed : Type 0 where
    pub closed : (i : ℕ) → i < exit_node → new_set succ exit_node postdom i ≡ at i
    pub exit_only : (c : ℕ) → exit_node ≢ c → test (at exit_node) c ≡ false

  -- In a fixed point, what post-dominates a node is on every walk from it to the exit.
  pub postdom-Visits :
      IsFixed
      → (i : ℕ) (nodes : List ℕ) → Walk succ exit_node i nodes
      → (c : ℕ) → test (at i) c ≡ true
      → i ≢ c
      → Visits c nodes
  postdom-Visits fixed i nodes arrived c h ne = absurd (ground (arith, fixed.exit_only c ne, h))
  postdom-Visits fixed i nodes (goes {j = j} {rest = rest} k lt e walk) c h ne =
      elim (Bool-cases (j == c)) [
        | inl same ↦ (0, ap some (==→eq j c same))
        | inr other ↦
            let later = postdom-Visits fixed j rest walk c inside (==→ne j c other) in
            (suc later.0, later.1)
      ]
    where
      inside : test (at j) c ≡ true
      inside = new_set-succ i k j c (ap (λ b. test b c) (fixed.closed i lt) ∙ h) ne e
