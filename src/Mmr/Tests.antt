-- ===== src/Mmr/Tests.antt =====
-- A range of three leaves, over numbers.
use kiss_vm_interpreter.Prelude.{ℕ, ◌+◌, ◌*◌, ◌≡◌, refl, [], ◌∷◌, Option, none, some, arith}
use kiss_vm_interpreter.Mmr.{
  MmrSet, get_node, set_node, max_row, climb, peaks_in, insert_peak, sort_peaks, peaks, classify,
  proof_for, get_proof, bag, propagate, add_leaf, update_leaf, get_root,
}
use kiss_vm_interpreter.Mmr.Bagging.{count}
use kiss_vm_interpreter.Mmr.Root.{IsRange, IsRooted, get_proof-IsRooted}
use kiss_vm_interpreter.Mmr.Climb.{IsConsistent, IsProof, get_proof-IsProof}

abbrev joined : ℕ → ℕ → ℕ
joined a b = 10 * a + b

abbrev three : MmrSet ℕ
three = record {
  nodes = ((0, 0), 3) ∷ ((0, 1), 4) ∷ ((1, 0), 34) ∷ ((0, 2), 5) ∷ [];
  leaf_count = 3;
}

abbrev then_leaf : ℕ → Option (MmrSet ℕ) → Option (MmrSet ℕ)
then_leaf d none = none
then_leaf d (some s) = add_leaf joined d s

three_added :
    then_leaf 5 (then_leaf 4 (then_leaf 3 (some (record { nodes = []; leaf_count = 0 }))))
    ≡ some three
unfolding add_leaf set_node propagate get_node max_row
three_added = refl

three_root : get_root joined 0 three ≡ 345
unfolding get_root get_node peaks peaks_in sort_peaks insert_peak bag
three_root = refl

-- The second leaf's proof has one sibling and a peak to its right.
three_proof :
    get_proof 1 three
    ≡ some (record {
      blocktime = 0;
      entry = 1;
      leaf = 4;
      chain = 3 ∷ [];
      left_peaks = [];
      right_peaks = 5 ∷ [];
    })
unfolding get_proof proof_for climb classify get_node max_row peaks peaks_in sort_peaks insert_peak
three_proof = refl

three_updated :
    update_leaf joined 1 7 three
    ≡ some (record {
      nodes = ((0, 0), 3) ∷ ((0, 1), 7) ∷ ((1, 0), 37) ∷ ((0, 2), 5) ∷ [];
      leaf_count = 3;
    })
unfolding update_leaf set_node propagate get_node max_row
three_updated = refl

three-IsConsistent : IsConsistent joined three.nodes
unfolding get_node
three-IsConsistent row entry d sib e f = grind arith

three-IsRange : IsRange joined 0 three
unfolding get_node count
three-IsRange = record {
  consistent = three-IsConsistent;
  top = λ row entry e. grind arith;
  once = λ row entry d e. grind arith;
  has_leaf = λ e. omega arith;
}

get_proof-IsProof_example : IsProof joined three 1 4 (get_proof 1 three)
get_proof-IsProof_example =
    get_proof-IsProof joined three 1 4 three-IsConsistent (unfold get_node in refl)

get_proof-IsRooted_example : IsRooted joined 0 three 4 (get_proof 1 three)
get_proof-IsRooted_example =
    get_proof-IsRooted joined 0 three 1 4 three-IsRange (unfold get_node in refl)
