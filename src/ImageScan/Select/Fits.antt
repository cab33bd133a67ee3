-- ===== src/ImageScan/Select/Fits.antt =====
-- What `findBestNode` returns.
use mathlib.Core.List.{Perm, mem-cons_self}
use mathlib.Core.List.Perm
use kvisor.Base.{
  All-mem, ℤ, String, lookup, lookup-AllEntries, ◌≡◌, refl, sym, ap, subst, List, [], ◌∷◌, none,
  some, Bool, true, false, any, has, length, All, ◌&&◌, ◌==◌, arith, Option-cases, Bool-cases, inl,
  inr,
}
use kvisor.ImageScan.State.{NodeUsage, DeltaState}
use kvisor.ImageScan.State.Invariant.{Inv, NodeInv}
use kvisor.ImageScan.Select.{
  Choice, chosen, refused, panicked, no_candidates, empty_nodes, fits, candidates, more_cpu,
  find_best_node,
}

-- Whether the node is there and has the resources left.
abbrev pub hosts : DeltaState → ℤ → ℤ → String → Bool
hosts d memory cpu name = elim (lookup name d.nodes) [ none ↦ false | some n ↦ fits memory cpu n ]

-- The chosen node is one of the names, is there and has the resources left; without a choice none
-- of the names is such a node.
abbrev pub Picks : DeltaState → List String → ℤ → ℤ → Choice String → Type 0
Picks d names memory cpu (chosen name) = (has name names ≡ true) × (hosts d memory cpu name ≡ true)
Picks d names memory cpu (refused no_candidates) = any (hosts d memory cpu) names ≡ false
Picks d names memory cpu (refused empty_nodes) = ⊥
Picks d names memory cpu panicked = ⊥

module _ (d : DeltaState) (good : Inv d) (memory cpu : ℤ) where
  -- A candidate is a fitting node under one of the names.
  abbrev candidate : List String → NodeUsage → Bool
  candidate names n = has n.name names && hosts d memory cpu n.name

  candidates-All :
      (all names : List String)
      → ((x : String) → has x names ≡ true → has x all ≡ true)
      → All (λ n. candidate all n ≡ true) (candidates d memory cpu names)
  unfolding candidates
  candidates-All all [] h = tt
  candidates-All all (name ∷ names) h = elim (Option-cases (lookup name d.nodes)) [
    | inl gone ↦ rw (gone, candidates) (candidates-All all names rest)
    | inr (n, found) ↦ elim (Bool-cases (fits memory cpu n)) [
      | inl fit ↦ rw (found, candidates) (rw fit (here n found fit, candidates-All all names rest))
      | inr tight ↦ rw (found, candidates) (rw tight (candidates-All all names rest))
    ]
  ]
    where
      rest : (x : String) → has x names ≡ true → has x all ≡ true
      rest x e = h x (ground arith)

      here :
          (n : NodeUsage)
          → lookup name d.nodes ≡ some n
          → fits memory cpu n ≡ true
          → candidate all n ≡ true
      here n found fit =
          let named = (lookup-AllEntries NodeInv name n d.nodes good.nodes_good found).named in
          let listed : has name all ≡ true = h name (ground arith) in
          let hosted : hosts d memory cpu name ≡ true = rw (found, hosts) fit in
          subst (λ x. has x all && hosts d memory cpu x ≡ true) (sym named)
            (ground (arith, listed, hosted))

  no_candidates-hosts :
      (names : List String)
      → length (candidates d memory cpu names) == 0 ≡ true
      → any (hosts d memory cpu) names ≡ false
  unfolding candidates
  no_candidates-hosts [] e = refl
  no_candidates-hosts (name ∷ names) e = ground (arith, no_candidates-hosts names)

no_nodes-hosts :
    (d : DeltaState) (memory cpu : ℤ) (names : List String)
    → d.nodes ≡ []
    → any (hosts d memory cpu) names ≡ false
unfolding lookup
no_nodes-hosts d memory cpu [] e = refl
no_nodes-hosts d memory cpu (name ∷ names) e =
    let gone : lookup name d.nodes ≡ none = rw e refl in
    ground (arith, gone, no_nodes-hosts d memory cpu names e)

length-nil {ℓ} : {A : Type ℓ} (xs : List A) → length xs == 0 ≡ true → xs ≡ []
length-nil [] e = refl
length-nil (x ∷ xs) e = ground arith

module _ (sort_slice : (NodeUsage → NodeUsage → Bool) → List NodeUsage → List NodeUsage)
    (sort_slice-perm : (less : NodeUsage → NodeUsage → Bool) (xs : List NodeUsage)
      → Perm (sort_slice less xs) xs) where
  first-Picks :
      (d : DeltaState) (memory cpu : ℤ) (names : List String) (sorted : List NodeUsage)
      → Inv d
      → length (candidates d memory cpu names) == 0 ≡ false
      → Perm sorted (candidates d memory cpu names)
      → Picks d names memory cpu
          (elim sorted as (λ _. Choice String) [ [] ↦ panicked | n ∷ _ ↦ chosen n.name ])
  first-Picks d memory cpu names [] good more p = ground (arith, ap length (Perm.nil-eq p), more)
  first-Picks d memory cpu names (n ∷ ns) good more p =
      let ok =
        All-mem (candidate d good memory cpu names) n (candidates d memory cpu names)
          (candidates-All d good memory cpu names names (λ x e. e))
          (Perm.subset p n mem-cons_self) in
      (ground (arith, ok), ground (arith, ok))

  -- In a well-formed state, and whatever order `sort.Slice` makes of the candidates, as long as it
  -- only permutes them, `findBestNode` does not panic; the node that it chooses is one of the
  -- names, is there and has the requested memory and CPU left; and it reports that there are no
  -- candidates only if no name is such a node.
  pub find_best_node-Picks :
      (d : DeltaState) (names : List String) (memory cpu : ℤ)
      → Inv d
      → Picks d names memory cpu (find_best_node sort_slice d names memory cpu)
  unfolding find_best_node
  find_best_node-Picks d names memory cpu good = elim (Bool-cases (length d.nodes == 0)) [
    | inl empty ↦
        rw (empty, find_best_node) (no_nodes-hosts d memory cpu names (length-nil d.nodes empty))
    | inr some_nodes ↦ elim (Bool-cases (length (candidates d memory cpu names) == 0)) [
      | inl unfit ↦
          rw (some_nodes, find_best_node)
            (rw unfit (no_candidates-hosts d good memory cpu names unfit))
      | inr more ↦
          rw (some_nodes, find_best_node)
            (rw more (
              first-Picks d memory cpu names (sort_slice more_cpu (candidates d memory cpu names))
                good more (sort_slice-perm more_cpu (candidates d memory cpu names))))
    ]
  ]
