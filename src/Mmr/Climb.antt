-- ===== src/Mmr/Climb.antt =====
-- The way up of MMRSet::getProof() (src/mmr/MMRSet.cpp) ends, and MMRProof::calculateLocalPeak()
-- (src/mmr/MMRProof.cpp) computes the node that it ends at.
use kiss_vm_interpreter.Prelude.{
  ℕ, zero, suc, ◌+◌, ◌/◌, ◌≤◌, ◌<◌, ◌≡◌, refl, sym, subst, false, List, [], ◌∷◌, Option, none, some,
  arith,
}
use kiss_vm_interpreter.Mmr.{
  NodeMap, MmrSet, MmrProof, sibling, get_node, max_row, climb, classify, peaks, proof_for,
  get_proof, combine_at, local_peak,
}

get_node-max_row :
    {D : Type 0} (row entry : ℕ) (d : D) (m : NodeMap D)
    → get_node row entry m ≡ some d
    → row ≤ max_row m
unfolding get_node max_row
get_node-max_row row entry d [] e = cc
get_node-max_row row entry d ((p, x) ∷ m) e = ground (arith, get_node-max_row row entry d m)

module _ {D : Type 0} (combine : D → D → D) (m : NodeMap D) where
  -- A parent is the combination of its children, the one with the even entry first.
  abbrev pub IsConsistent : Type 0
  IsConsistent =
      (row entry : ℕ) (d sib : D)
      → get_node row entry m ≡ some d
      → get_node row (sibling entry) m ≡ some sib
      → get_node (suc row) (entry / 2) m ≡ some (combine_at combine entry d sib)

  -- The way up from d at `entry` ended at a node without a sibling, which the chain computes.
  abbrev pub IsPath : ℕ → D → Option (List D × (ℕ × ℕ)) → Type 0
  IsPath entry d none = ⊥
  IsPath entry d (some (ds, peak)) =
      (get_node peak.0 peak.1 m ≡ some (local_peak combine entry d ds))
      × (get_node peak.0 (sibling peak.1) m ≡ none)

  IsPath-step :
      (entry : ℕ) (d sib : D) (above : Option (List D × (ℕ × ℕ)))
      → IsPath (entry / 2) (combine_at combine entry d sib) above
      → IsPath entry d (elim above [ none ↦ none | some (ds, peak) ↦ some (sib ∷ ds, peak) ])
  unfolding local_peak
  IsPath-step entry d sib none h = h
  IsPath-step entry d sib (some (ds, peak)) h = h

  -- The step of the loop, by what stands at the sibling's place.
  climb_step-IsPath :
      (row entry : ℕ) (d : D) (above : Option (List D × (ℕ × ℕ))) (found : Option D)
      → get_node row entry m ≡ some d
      → get_node row (sibling entry) m ≡ found
      → ((sib : D)
          → get_node row (sibling entry) m ≡ some sib
          → IsPath (entry / 2) (combine_at combine entry d sib) above)
      → IsPath entry d (elim found [
        | none ↦ some ([], (row, entry))
        | some s ↦ elim above [ none ↦ none | some (ds, peak) ↦ some (s ∷ ds, peak) ]
      ])
  unfolding local_peak
  climb_step-IsPath row entry d above none e q h = (e, q)
  climb_step-IsPath row entry d above (some sib) e q h = IsPath-step entry d sib above (h sib q)

  -- The fuel is enough: a row with a node is not above the highest one.
  pub climb-IsPath :
      (f row entry : ℕ) (d : D)
      → IsConsistent
      → get_node row entry m ≡ some d
      → max_row m < row + f
      → IsPath entry d (climb f m row entry)
  unfolding climb
  climb-IsPath zero row entry d ok e lt = absurd (omega (arith, get_node-max_row row entry d m e))
  climb-IsPath (suc f) row entry d ok e lt =
      climb_step-IsPath row entry d (climb f m (suc row) (entry / 2)) _ e refl
        λ sib q. climb-IsPath f (suc row) (entry / 2) _ ok (ok row entry d sib e q) (omega arith)

module _ {D : Type 0} (combine : D → D → D) (s : MmrSet D) where
  -- The local peak of a proof is the node at a place without a sibling.
  abbrev pub IsProof : ℕ → D → Option (MmrProof D) → Type 0
  IsProof entry leaf none = ⊥
  IsProof entry leaf (some p) =
      (p.entry ≡ entry)
      × (p.leaf ≡ leaf)
      × ((row : ℕ) × (at : ℕ) × (get_node row at s.nodes
            ≡ some (local_peak combine p.entry p.leaf p.chain))
          × (get_node row (sibling at) s.nodes ≡ none))

  way-IsProof :
      (entry : ℕ) (leaf : D) (way : Option (List D × (ℕ × ℕ)))
      → IsPath combine s.nodes entry leaf way
      → IsProof entry leaf (elim way [
        | none ↦ none
        | some (chain, peak) ↦
            let sides = classify peak false (peaks s.nodes) in
            some (record {
              blocktime = 0;
              entry = entry;
              leaf = leaf;
              chain = chain;
              left_peaks = sides.0;
              right_peaks = sides.1;
            })
      ])
  way-IsProof entry leaf none h = h
  way-IsProof entry leaf (some (chain, peak)) h = (refl, refl, (peak.0, peak.1, h.0, h.1))

  -- Where every parent is the combination of its children, getProof() ends for every leaf that
  -- exists, with a proof of that leaf whose local peak, as calculateLocalPeak() computes it from the
  -- chain, is the node of the range at a place that has no sibling.
  pub get_proof-IsProof :
      (entry : ℕ) (leaf : D)
      → IsConsistent combine s.nodes
      → get_node 0 entry s.nodes ≡ some leaf
      → IsProof entry leaf (get_proof entry s)
  unfolding get_proof
  get_proof-IsProof entry leaf ok e =
      subst (λ o. IsProof entry leaf (elim o [ none ↦ none | some l ↦ proof_for entry l s ]))
        (sym e)
        (unfold proof_for in
          way-IsProof entry leaf (climb (max_row s.nodes + 2) s.nodes 0 entry)
            (climb-IsPath combine s.nodes (max_row s.nodes + 2) 0 entry leaf ok e (omega arith)))
