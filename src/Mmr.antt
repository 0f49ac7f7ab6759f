-- ===== src/Mmr.antt =====
-- src/mmr/MMRSet.cpp and src/mmr/MMRProof.cpp: the Merkle mountain range and its proofs, over the
-- combination of two nodes (MMRData::combine, which hashes).
pub mod Climb
pub mod Bagging
pub mod Root
pub mod Wire
mod Tests
mod WireTests
use kiss_vm_interpreter.Prelude.{
  ℕ, zero, suc, ◌+◌, ◌-◌, ◌*◌, ◌/◌, ◌%◌, Bool, true, false, not, ◌&&◌, ◌||◌, List, [], ◌∷◌, ◌++◌,
  Option, none, some, length, map, ltb, leb, ◌==◌, if◌then◌else◌,
}

-- m_nodes by row and entry. An iteration over it is always sorted before it is used.
abbrev pub NodeMap : Type 0 → Type 0
NodeMap D = List ((ℕ × ℕ) × D)

pub record MmrSet (D : Type 0) : Type 0 where
  pub nodes : NodeMap D
  pub leaf_count : ℕ

pub record MmrProof (D : Type 0) : Type 0 where
  pub blocktime : ℕ
  pub entry : ℕ
  pub leaf : D
  pub chain : List D
  pub left_peaks : List D
  pub right_peaks : List D

abbrev pub same_place : ℕ × ℕ → ℕ × ℕ → Bool
same_place p q = (p.0 == q.0) && (p.1 == q.1)

-- sibling = (entry % 2 == 0) ? entry + 1 : entry - 1
abbrev pub sibling : ℕ → ℕ
sibling entry = if entry % 2 == 0 then entry + 1 else entry - 1

-- The order of std::sort in getProof() and getRoot(): the highest row first, then the highest entry.
abbrev pub before : ℕ × ℕ → ℕ × ℕ → Bool
before a b = if a.0 == b.0 then ltb b.1 a.1 else ltb b.0 a.0

module _ {D : Type 0} where
  unfoldable pub get_node : ℕ → ℕ → NodeMap D → Option D
  get_node row entry [] = none
  get_node row entry ((p, d) ∷ m) =
      if same_place p (row, entry) then some d else get_node row entry m

  unfoldable pub set_node : ℕ → ℕ → D → NodeMap D → NodeMap D
  set_node row entry d [] = ((row, entry), d) ∷ []
  set_node row entry d ((p, old) ∷ m) =
      let rest = set_node row entry d m in
      if same_place p (row, entry) then (p, d) ∷ m else (p, old) ∷ rest

  -- getEntry(): the place with its node
  unfoldable pub get_entry : ℕ → ℕ → NodeMap D → Option ((ℕ × ℕ) × D)
  unfolding get_node
  get_entry row entry m = elim (get_node row entry m) [
    | none ↦ none
    | some d ↦ some ((row, entry), d)
  ]

  -- getMaxRow()
  unfoldable pub max_row : NodeMap D → ℕ
  max_row [] = 0
  max_row ((p, d) ∷ m) = if ltb (max_row m) p.0 then p.0 else max_row m

  -- The loop of getProof() from (row, entry) up: the siblings, and the place of the local peak.
  unfoldable pub climb : ℕ → NodeMap D → ℕ → ℕ → Option (List D × (ℕ × ℕ))
  unfolding get_node
  climb zero m row entry = none
  climb (suc f) m row entry =
      let above = climb f m (suc row) (entry / 2) in
      elim (get_node row (sibling entry) m) [
        | none ↦ some ([], (row, entry))
        | some d ↦ elim above [ none ↦ none | some (ds, peak) ↦ some (d ∷ ds, peak) ]
      ]

  -- the places without a parent
  unfoldable pub peaks_in : NodeMap D → NodeMap D → NodeMap D
  unfolding get_node
  peaks_in all [] = []
  peaks_in all (((r, e), d) ∷ m) =
      let rest = peaks_in all m in
      elim (get_node (suc r) (e / 2) all) [ none ↦ ((r, e), d) ∷ rest | some x ↦ rest ]

  unfoldable pub insert_peak : (ℕ × ℕ) × D → NodeMap D → NodeMap D
  insert_peak x [] = x ∷ []
  insert_peak x (y ∷ ys) =
      let rest = insert_peak x ys in if before y.0 x.0 then y ∷ rest else x ∷ y ∷ ys

  unfoldable pub sort_peaks : NodeMap D → NodeMap D
  unfolding insert_peak
  sort_peaks [] = []
  sort_peaks (x ∷ xs) = insert_peak x (sort_peaks xs)

  unfoldable pub peaks : NodeMap D → NodeMap D
  unfolding peaks_in sort_peaks
  peaks m = sort_peaks (peaks_in m m)

  -- The peaks in front of our own, and those behind it.
  unfoldable pub classify : ℕ × ℕ → Bool → NodeMap D → List D × List D
  classify ours found [] = ([], [])
  classify ours found ((p, d) ∷ ps) =
      let behind = classify ours true ps in
      let rest = classify ours found ps in
      if same_place p ours
      then behind
      else if found
      then (rest.0, d ∷ rest.1)
      else (d ∷ rest.0, rest.1)

  -- getProof() once the leaf is found
  unfoldable pub proof_for : ℕ → D → MmrSet D → Option (MmrProof D)
  unfolding climb max_row classify peaks
  proof_for entry leaf s = elim (climb (max_row s.nodes + 2) s.nodes 0 entry) [
    | none ↦ none
    | some (chain, peak) ↦
        let sides = classify peak false (peaks s.nodes) in
        some (record {
          blocktime = 0;
          entry = entry;
          leaf = leaf;
          chain = chain;
          left_peaks = sides.0;
          right_peaks = sides.1;
        })
  ]

  -- getProof(); `none` is the exception "leaf does not exist".
  unfoldable pub get_proof : ℕ → MmrSet D → Option (MmrProof D)
  unfolding get_node proof_for
  get_proof entry s = elim (get_node 0 entry s.nodes) [
    | none ↦ none
    | some leaf ↦ proof_for entry leaf s
  ]

module _ {D : Type 0} (combine : D → D → D) where
  -- One step up from `current` at `entry`, by the side it is on.
  abbrev pub combine_at : ℕ → D → D → D
  combine_at entry current sib = if entry % 2 == 0 then combine current sib else combine sib current

  -- calculateLocalPeak() from `current` at `entry` up
  unfoldable pub local_peak : ℕ → D → List D → D
  local_peak entry current [] = current
  local_peak entry current (sib ∷ ds) = local_peak (entry / 2) (combine_at entry current sib) ds

  unfoldable pub bag : D → List D → D
  bag result [] = result
  bag result (p ∷ ps) = bag (combine result p) ps

  -- The bagging of calculateProof(): hasResult is that there is a left peak.
  unfoldable pub bag_sides : List D → D → List D → D
  unfolding bag
  bag_sides [] ours right = bag ours right
  bag_sides (p ∷ left) ours right = bag (combine (bag p left) ours) right

  unfoldable pub calculate_proof_from : D → MmrProof D → D
  unfolding local_peak bag_sides
  calculate_proof_from start p =
      bag_sides p.left_peaks (local_peak p.entry start p.chain) p.right_peaks

  unfoldable pub calculate_proof : MmrProof D → D
  unfolding calculate_proof_from
  calculate_proof p = calculate_proof_from p.leaf p

  -- verifyProof(), with a test that two nodes have the same data
  unfoldable pub verify_proof : (D → D → Bool) → D → MmrProof D → Bool
  unfolding calculate_proof
  verify_proof same_data root p = same_data (calculate_proof p) root

  -- propagate(); `none` where the model's fuel ends or *getNode(row, entry) has no value.
  unfoldable pub propagate : ℕ → ℕ → ℕ → NodeMap D → Option (NodeMap D)
  unfolding get_node set_node
  propagate zero row entry m = none
  propagate (suc f) row entry m = elim (get_node row (sibling entry) m) [
    | none ↦ some m
    | some sib ↦ elim (get_node row entry m) [
      | none ↦ none
      | some d ↦
          propagate f (suc row) (entry / 2)
            (set_node (suc row) (entry / 2) (combine_at entry d sib) m)
    ]
  ]

  -- addLeaf()
  unfoldable pub add_leaf : D → MmrSet D → Option (MmrSet D)
  unfolding set_node propagate max_row
  add_leaf d s =
      let m = set_node 0 s.leaf_count d s.nodes in
      elim (propagate (max_row m + 2) 0 s.leaf_count m) [
        | none ↦ none
        | some nodes ↦ some (record { nodes = nodes; leaf_count = s.leaf_count + 1 })
      ]

  -- updateLeaf(); `none` is also the exception "entry does not exist".
  unfoldable pub update_leaf : ℕ → D → MmrSet D → Option (MmrSet D)
  unfolding get_node set_node propagate max_row
  update_leaf entry d s = elim (get_node 0 entry s.nodes) [
    | none ↦ none
    | some old ↦
        let m = set_node 0 entry d s.nodes in
        elim (propagate (max_row m + 2) 0 entry m) [
          | none ↦ none
          | some nodes ↦ some (record { nodes = nodes; leaf_count = s.leaf_count })
        ]
  ]

  -- getRoot(), with `empty` for MMRData(MiniData())
  unfoldable pub get_root : D → MmrSet D → D
  unfolding peaks bag
  get_root empty s =
      if s.leaf_count == 0
      then empty
      else elim (peaks s.nodes) [ [] ↦ empty | (p, d) ∷ ps ↦ bag d (map (λ x. x.1) ps) ]
