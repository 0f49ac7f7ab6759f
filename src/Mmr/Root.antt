-- ===== src/Mmr/Root.antt =====
-- A proof of MMRSet::getProof() (src/mmr/MMRSet.cpp) leads to the root of MMRSet::getRoot().
use kiss_vm_interpreter.Prelude.{
  ℕ, suc, ◌+◌, ◌/◌, ◌≡◌, ◌≢◌, refl, sym, ap, ◌∙◌, subst, false, List, Option, none, some, arith,
}
use kiss_vm_interpreter.Mmr.{
  MmrSet, MmrProof, get_node, sibling, max_row, climb, classify, peaks, proof_for, get_proof,
  get_root, local_peak, calculate_proof_from, calculate_proof,
}
use kiss_vm_interpreter.Mmr.Climb.{IsConsistent, IsPath, climb-IsPath}
use kiss_vm_interpreter.Mmr.Bagging.{
  count, bag_all, classify-peaks, bag_sides-bag_all, get_root-bag_all,
}

module _ {D : Type 0} (combine : D → D → D) (empty : D) (s : MmrSet D) where
  -- A parent combines its two children, a node without a sibling has no parent, no place stands in
  -- the map twice, and there is a leaf.
  pub record IsRange : Type 0 where
    pub consistent : IsConsistent combine s.nodes
    pub top :
        (row entry : ℕ)
        → get_node row (sibling entry) s.nodes ≡ none
        → get_node (suc row) (entry / 2) s.nodes ≡ none
    pub once :
        (row entry : ℕ) (d : D)
        → get_node row entry s.nodes ≡ some d
        → count (row, entry) s.nodes ≡ 1
    pub has_leaf : s.leaf_count ≢ 0

  -- There is a proof, of that leaf, and it gives the root.
  abbrev pub IsRooted : D → Option (MmrProof D) → Type 0
  IsRooted leaf none = ⊥
  IsRooted leaf (some p) = (p.leaf ≡ leaf) × (calculate_proof combine p ≡ get_root combine empty s)

  way-IsRooted :
      (entry : ℕ) (leaf : D) (way : Option (List D × (ℕ × ℕ)))
      → IsRange
      → IsPath combine s.nodes entry leaf way
      → IsRooted leaf (elim way [
        | none ↦ none
        | some (chain, peak) ↦
            let sides = classify peak false (peaks s.nodes) in
            some (record {
              blocktime = 0;
              entry = entry;
              leaf = leaf;
              chain = chain;
              left_peaks = sides.0;
              right_peaks = sides.1;
            })
      ])
  unfolding calculate_proof calculate_proof_from
  way-IsRooted entry leaf none ok h = h
  way-IsRooted entry leaf (some (chain, peak)) ok (at, alone) =
      let sides = classify peak false (peaks s.nodes) in
      let ours = local_peak combine entry leaf chain in
      let all =
        classify-peaks peak ours s.nodes (ok.once peak.0 peak.1 ours at) at
          (ok.top peak.0 peak.1 alone) in
      (
        refl,
        bag_sides-bag_all combine empty sides.0 ours sides.1
            ∙ (ap (λ ds. bag_all combine empty ds) (sym all)
                ∙ sym (get_root-bag_all combine empty s ok.has_leaf)),
      )

  -- In a range that is well formed, getProof() returns for every leaf that exists a proof of that
  -- leaf, and calculateProof() of it is getRoot().
  pub get_proof-IsRooted :
      (entry : ℕ) (leaf : D)
      → IsRange
      → get_node 0 entry s.nodes ≡ some leaf
      → IsRooted leaf (get_proof entry s)
  unfolding get_proof
  get_proof-IsRooted entry leaf ok e =
      subst (λ o. IsRooted leaf (elim o [ none ↦ none | some l ↦ proof_for entry l s ])) (sym e)
        (unfold proof_for in
          way-IsRooted entry leaf (climb (max_row s.nodes + 2) s.nodes 0 entry) ok (
            climb-IsPath combine s.nodes (max_row s.nodes + 2) 0 entry leaf ok.consistent e
              (omega arith)))
