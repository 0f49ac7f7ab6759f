-- ===== src/Mempool/Admission.antt =====
-- Mempool::add() and remove() of src/mempool/Mempool.hpp keep the pool valid.
use kiss_vm_interpreter.Prelude.{
  suc, ◌≤◌, ◌≡◌, refl, sym, ap, ◌∙◌, Bool, true, false, not, ◌||◌, List, [], ◌∷◌, ◌++◌, Option,
  none, some, if_ind, subst, Bytes, length, leb, same, same_refl, if◌then◌else◌, arith,
}
use kiss_vm_interpreter.Mempool.{
  TxView, Pool, erase_all, find, erase_first, contains, double_spends, evict_found, evict,
  evict_oldest, make_room, insert_tx, add,
}
use kiss_vm_interpreter.Mempool.Sets.{mem-erase_all}
use kiss_vm_interpreter.Mempool.Spent.{keys, IsValid, evict_found-IsValid, insert_tx-IsValid}

find-first :
    (id : Bytes) (ids : List Bytes) (m : List (Bytes × TxView))
    → keys m ≡ id ∷ ids
    → (tx : TxView) × (find id m ≡ some tx)
unfolding find
find-first id ids [] e = cc
find-first id ids ((k, tx) ∷ m) e =
    let q : id ≡ k = cc in (tx, rw (ap (λ x. same k x) q ∙ same_refl k) refl)

double_spends-erase_all :
    (cs gone spent : List Bytes)
    → double_spends cs spent ≡ false
    → double_spends cs (erase_all gone spent) ≡ false
unfolding double_spends
double_spends-erase_all [] gone spent e = refl
double_spends-erase_all (c ∷ cs) gone spent e =
    ground (arith, double_spends-erase_all cs gone spent, mem-erase_all c gone spent)

-- A valid pool with room for one more, that holds nothing that p does not hold.
abbrev Roomy : Pool → Option Pool → Type 0
Roomy p none = ⊥
Roomy p (some q) =
    IsValid q
    × (suc (length q.order) ≤ q.capacity)
    × ((cs : List Bytes) → double_spends cs p.spent ≡ false → double_spends cs q.spent ≡ false)

erase_first-head : (id : Bytes) (ids : List Bytes) → erase_first id (id ∷ ids) ≡ ids
unfolding erase_first
erase_first-head id ids = rw (same_refl id) refl

evict_first-Roomy :
    (p : Pool) (id : Bytes) (ids : List Bytes) (tx : TxView)
    → p.order ≡ id ∷ ids
    → find id p.by_id ≡ some tx
    → IsValid p
    → Roomy p (some (evict_found id tx p))
unfolding evict_found
evict_first-Roomy p id ids tx e f h =
    let left : erase_first id p.order ≡ ids =
      ap (λ xs. erase_first id xs) e ∙ erase_first-head id ids in
    (
      unfold evict_found in evict_found-IsValid id tx p f h,
      omega (
        arith,
        h.2,
        ap (λ (xs : List Bytes). length xs) e,
        ap (λ (xs : List Bytes). length xs) left,
      ),
      λ cs q. double_spends-erase_all cs tx.inputs p.spent q,
    )

evict_oldest-Roomy :
    (p : Pool) (ids : List Bytes)
    → p.order ≡ ids
    → IsValid p
    → 1 ≤ p.capacity
    → p.capacity ≤ length p.order
    → Roomy p (evict_oldest p ids)
unfolding evict
evict_oldest-Roomy p [] e h one full = absurd (omega (arith, ap (λ (xs : List Bytes). length xs) e))
evict_oldest-Roomy p (id ∷ ids) e h one full =
    let (tx, f) = find-first id ids p.by_id (h.1 ∙ e) in
    subst (λ o. Roomy p (some (elim o [ none ↦ p | some t ↦ evict_found id t p ]))) (sym f)
      (evict_first-Roomy p id ids tx e f h)

make_room-Roomy : (p : Pool) → IsValid p → 1 ≤ p.capacity → Roomy p (make_room p)
unfolding make_room
make_room-Roomy p h one =
    if_ind (Roomy p) (leb p.capacity (length p.order))
      (λ e. evict_oldest-Roomy p p.order refl h one (ground arith))
      (λ e. (h, ground arith, λ cs q. q))

-- What add() does with tx: it says false and changes nothing where the id is pending or an input
-- is spent in the pool, and otherwise says true with tx last in the queue.
abbrev pub IsAdmission : TxView → Pool → Option (Bool × Pool) → Type 0
IsAdmission tx p none = ⊥
IsAdmission tx p (some (b, q)) =
    IsValid q
    × (b ≡ not (contains tx.id p || double_spends tx.inputs p.spent))
    × (if b then ((ids : List Bytes) × (q.order ≡ ids ++ tx.id ∷ [])) else (q ≡ p))

insert-IsAdmission :
    (tx : TxView) (p : Pool) (room : Option Pool)
    → Roomy p room
    → contains tx.id p ≡ false
    → double_spends tx.inputs p.spent ≡ false
    → IsAdmission tx p (elim room [ none ↦ none | some q ↦ some (true, insert_tx tx q) ])
unfolding insert_tx
insert-IsAdmission tx p none h e d = absurd h
insert-IsAdmission tx p (some q) (valid, room, unspent) e d = (
  unfold insert_tx in insert_tx-IsValid tx q (unspent tx.inputs d) room valid,
  ground arith,
  (q.order, refl),
)

-- From a valid pool with a capacity of one at least, add() ends in a valid pool, with or without
-- the eviction of the oldest transaction. It says false, and changes nothing, exactly where the id
-- is pending or an input is spent in the pool, and otherwise the transaction is last in the queue.
pub add-IsAdmission :
    (tx : TxView) (p : Pool) → IsValid p → 1 ≤ p.capacity → IsAdmission tx p (add tx p)
unfolding add
add-IsAdmission tx p h one =
    if_ind (IsAdmission tx p) (contains tx.id p) (λ e. (h, ground arith, refl))
      λ e.
        if_ind (IsAdmission tx p) (double_spends tx.inputs p.spent) (λ d. (h, ground arith, refl))
          λ d. insert-IsAdmission tx p (make_room p) (make_room-Roomy p h one) e d
