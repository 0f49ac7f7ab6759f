-- ===== src/Mmr/Bagging.antt =====
-- MMRProof::calculateProof() (src/mmr/MMRProof.cpp) bags the peaks as MMRSet::getRoot()
-- (src/mmr/MMRSet.cpp) does.
use kiss_vm_interpreter.Prelude.{
  ℕ, suc, ◌+◌, ◌/◌, ◌≡◌, refl, sym, ap, ◌∙◌, true, false, List, [], ◌∷◌, ◌++◌, map, Option, none,
  some, ◌≢◌, if_ind, ==_iff, Bool-cases, inl, inr, ◌==◌, if◌then◌else◌, arith,
}
use mathlib.Core.Option.{some-injective}
use kiss_vm_interpreter.Mmr.{
  NodeMap, MmrSet, same_place, before, get_node, peaks_in, insert_peak, sort_peaks, peaks, classify,
  bag, bag_sides, get_root,
}

module _ {D : Type 0} (ours : ℕ × ℕ) where
  -- How often a list has the place `ours`.
  unfoldable pub count : NodeMap D → ℕ
  count [] = 0
  count ((p, d) ∷ m) = (if same_place p ours then 1 else 0) + count m

  -- Whatever stands at `ours` is d.
  unfoldable pub All : D → NodeMap D → Type 0
  All d [] = Unit
  All d ((p, x) ∷ m) = (same_place p ours ≡ true → x ≡ d) × All d m

  abbrev values : NodeMap D → List D
  values m = map (λ x. x.1) m

  classify-behind :
      (ps : NodeMap D)
      → count ps ≡ 0
      → ((classify ours true ps).0 ≡ []) × ((classify ours true ps).1 ≡ values ps)
  unfolding classify count
  classify-behind [] e = (refl, refl)
  classify-behind ((p, d) ∷ ps) e = elim (Bool-cases (same_place p ours)) [
    | inl h ↦ absurd (ground arith)
    | inr h ↦ let (a, b) = classify-behind ps (ground arith) in (rw h a, rw h (ap (λ ds. d ∷ ds) b))
  ]

  classify-values :
      (d : D) (ps : NodeMap D)
      → count ps ≡ 1
      → All d ps
      → values ps ≡ (classify ours false ps).0 ++ d ∷ (classify ours false ps).1
  unfolding classify count All
  classify-values d [] e h = absurd (omega arith)
  classify-values d ((p, x) ∷ ps) e h = elim (Bool-cases (same_place p ours)) [
    | inl q ↦
        let (a, b) = classify-behind ps (ground arith) in
        rw q (rw (a, b) (ap (λ z. z ∷ values ps) (h.0 q)))
    | inr q ↦ rw q (ap (λ ds. x ∷ ds) (classify-values d ps (ground arith) h.1))
  ]

  count-insert_peak : (x : (ℕ × ℕ) × D) (m : NodeMap D) → count (insert_peak x m) ≡ count (x ∷ m)
  unfolding insert_peak count
  count-insert_peak x [] = refl
  count-insert_peak x (y ∷ m) = elim (Bool-cases (before y.0 x.0)) [
    | inl h ↦ rw h (omega (arith, count-insert_peak x m))
    | inr h ↦ rw h refl
  ]

  All-insert_peak :
      (d : D) (x : (ℕ × ℕ) × D) (m : NodeMap D) → All d (x ∷ m) → All d (insert_peak x m)
  unfolding insert_peak All
  All-insert_peak d x [] h = h
  All-insert_peak d x (y ∷ m) h = elim (Bool-cases (before y.0 x.0)) [
    | inl e ↦ rw e (h.1.0, All-insert_peak d x m (h.0, h.1.1))
    | inr e ↦ rw e h
  ]

  count-sort_peaks : (m : NodeMap D) → count (sort_peaks m) ≡ count m
  unfolding sort_peaks count
  count-sort_peaks [] = refl
  count-sort_peaks (x ∷ m) = count-insert_peak x (sort_peaks m) ∙ omega (arith, count-sort_peaks m)

  All-sort_peaks : (d : D) (m : NodeMap D) → All d m → All d (sort_peaks m)
  unfolding sort_peaks All
  All-sort_peaks d [] h = h
  All-sort_peaks d (x ∷ m) h = All-insert_peak d x (sort_peaks m) (h.0, All-sort_peaks d m h.1)

  count-kept :
      (p : ℕ × ℕ) (d : D) (found : Option D) (rest m : NodeMap D)
      → (same_place p ours ≡ true → found ≡ none)
      → count rest ≡ count m
      → count (elim found [ none ↦ (p, d) ∷ rest | some x ↦ rest ]) ≡ count ((p, d) ∷ m)
  unfolding count
  count-kept p d none rest m h e = omega (arith, e)
  count-kept p d (some x) rest m h e = elim (Bool-cases (same_place p ours)) [
    | inl q ↦ let z = h q in cc
    | inr q ↦ rw q (omega (arith, e))
  ]

  same_place-parent :
      (all : NodeMap D) (r x : ℕ)
      → same_place (r, x) ours ≡ true
      → get_node (suc r) (x / 2) all ≡ get_node (suc ours.0) (ours.1 / 2) all
  same_place-parent all r x q =
      let a : r ≡ ours.0 = ground arith in let b : x ≡ ours.1 = ground arith in cc

  -- A place without a parent is a peak.
  count-peaks_in :
      (all m : NodeMap D)
      → get_node (suc ours.0) (ours.1 / 2) all ≡ none
      → count (peaks_in all m) ≡ count m
  unfolding peaks_in count
  count-peaks_in all [] e = refl
  count-peaks_in all (((r, x), d) ∷ m) e =
      count-kept (r, x) d (get_node (suc r) (x / 2) all) (peaks_in all m) m
        (λ q. same_place-parent all r x q ∙ e) (count-peaks_in all m e)

  All-kept :
      (d y : D) (p : ℕ × ℕ) (found : Option D) (rest : NodeMap D)
      → (same_place p ours ≡ true → y ≡ d)
      → All d rest
      → All d (elim found [ none ↦ (p, y) ∷ rest | some x ↦ rest ])
  unfolding All
  All-kept d y p none rest h k = (h, k)
  All-kept d y p (some x) rest h k = k

  All-peaks_in : (d : D) (all m : NodeMap D) → All d m → All d (peaks_in all m)
  unfolding peaks_in All
  All-peaks_in d all [] h = h
  All-peaks_in d all (((r, x), y) ∷ m) h =
      All-kept d y (r, x) (get_node (suc r) (x / 2) all) (peaks_in all m) h.0
        (All-peaks_in d all m h.1)

  All-absent : (d : D) (m : NodeMap D) → count m ≡ 0 → All d m
  unfolding count All
  All-absent d [] e = tt
  All-absent d ((p, x) ∷ m) e = elim (Bool-cases (same_place p ours)) [
    | inl q ↦ absurd (ground arith)
    | inr q ↦ (λ h. cc, All-absent d m (ground arith))
  ]

  All-get_node : (d : D) (m : NodeMap D) → get_node ours.0 ours.1 m ≡ some d → count m ≡ 1 → All d m
  unfolding get_node count All
  All-get_node d [] e k = tt
  All-get_node d ((p, x) ∷ m) e k = elim (Bool-cases (same_place p ours)) [
    | inl q ↦
        let z : some x ≡ some d =
          sym (ap (λ b. if b then some x else get_node ours.0 ours.1 m) q) ∙ e in
        (λ h. some-injective x d z, All-absent d m (ground arith))
    | inr q ↦
        let z : get_node ours.0 ours.1 m ≡ some d =
          sym (ap (λ b. if b then some x else get_node ours.0 ours.1 m) q) ∙ e in
        (λ h. cc, All-get_node d m z (ground arith))
  ]

  -- The left peaks, our own and the right ones are all peaks, in the order of the bagging.
  pub classify-peaks :
      (d : D) (m : NodeMap D)
      → count m ≡ 1
      → get_node ours.0 ours.1 m ≡ some d
      → get_node (suc ours.0) (ours.1 / 2) m ≡ none
      → values (peaks m)
        ≡ (classify ours false (peaks m)).0 ++ d ∷ (classify ours false (peaks m)).1
  unfolding peaks
  classify-peaks d m one e top =
      classify-values d (sort_peaks (peaks_in m m))
        (count-sort_peaks (peaks_in m m) ∙ (count-peaks_in m m top ∙ one))
        (All-sort_peaks d (peaks_in m m) (All-peaks_in d m m (All-get_node d m e one)))

-- What getRoot() bags, as a function of the values of the peaks.
unfoldable pub bag_all : {D : Type 0} → (D → D → D) → D → List D → D
unfolding bag
bag_all combine empty [] = empty
bag_all combine empty (d ∷ ds) = bag combine d ds

module _ {D : Type 0} (combine : D → D → D) (empty : D) where
  bag-append :
      (x d : D) (left right : List D)
      → bag combine x (left ++ d ∷ right) ≡ bag combine (combine (bag combine x left) d) right
  unfolding bag
  bag-append x d [] right = refl
  bag-append x d (y ∷ left) right = bag-append (combine x y) d left right

  pub bag_sides-bag_all :
      (left : List D) (ours : D) (right : List D)
      → bag_sides combine left ours right ≡ bag_all combine empty (left ++ ours ∷ right)
  unfolding bag_sides bag_all
  bag_sides-bag_all [] ours right = refl
  bag_sides-bag_all (x ∷ left) ours right = sym (bag-append x ours left right)

  bag_all-values :
      (ps : NodeMap D)
      → elim ps [ [] ↦ empty | (p, d) ∷ qs ↦ bag combine d (map (λ x. x.1) qs) ]
        ≡ bag_all combine empty (map (λ x. x.1) ps)
  unfolding bag_all
  bag_all-values [] = refl
  bag_all-values ((p, d) ∷ qs) = refl

  pub get_root-bag_all :
      (s : MmrSet D)
      → s.leaf_count ≢ 0
      → get_root combine empty s ≡ bag_all combine empty (map (λ x. x.1) (peaks s.nodes))
  unfolding get_root
  get_root-bag_all s h =
      if_ind (λ (r : D). r ≡ bag_all combine empty (map (λ x. x.1) (peaks s.nodes)))
        (s.leaf_count == 0) (λ e. absurd (h ((==_iff s.leaf_count 0).0 e)))
        (λ e. bag_all-values (peaks s.nodes))
