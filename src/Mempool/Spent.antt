-- ===== src/Mempool/Spent.antt =====
-- src/mempool/Mempool.hpp: no coin is spent by two pending transactions, m_spentInPool has just
-- their inputs, and the three containers agree.
use kiss_vm_interpreter.Prelude.{
  suc, ◌≤◌, ◌≡◌, refl, ap, ◌∙◌, false, List, [], ◌∷◌, ◌++◌, Option, none, some, Bool-cases, inl,
  inr, Bytes, length, length-append, same, arith,
}
use kiss_vm_interpreter.Mempool.{
  TxView, Pool, mem, find, erase_key, erase_first, double_spends, evict_found, evict, insert_tx,
  evict_all,
}
use kiss_vm_interpreter.Mempool.Sets.{
  one_if, spenders, mem-insert_all, mem-erase_all, spenders-append, spenders-erase_key,
  double_spends-mem,
}

abbrev pub keys : List (Bytes × TxView) → List Bytes
keys [] = []
keys ((k, tx) ∷ m) = k ∷ keys m

-- A coin of m_spentInPool is an input of one pending transaction, and any other coin of none; the
-- queue has the ids of the map, and at most `capacity` of them.
abbrev pub IsValid : Pool → Type 0
IsValid p =
    ((c : Bytes) → spenders c p.by_id ≡ one_if (mem c p.spent))
    × (keys p.by_id ≡ p.order)
    × (length p.order ≤ p.capacity)

keys-erase_key :
    (id : Bytes) (m : List (Bytes × TxView)) → keys (erase_key id m) ≡ erase_first id (keys m)
unfolding erase_key erase_first
keys-erase_key id [] = refl
keys-erase_key id ((k, tx) ∷ m) = ground (arith, keys-erase_key id m)

pub keys-append :
    (m : List (Bytes × TxView)) (k : Bytes) (tx : TxView)
    → keys (m ++ (k, tx) ∷ []) ≡ keys m ++ k ∷ []
keys-append [] k tx = refl
keys-append ((j, t) ∷ m) k tx = ap (λ ks. j ∷ ks) (keys-append m k tx)

length-erase_first : (id : Bytes) (xs : List Bytes) → length (erase_first id xs) ≤ length xs
unfolding erase_first
length-erase_first id [] = omega arith
length-erase_first id (x ∷ xs) = elim (Bool-cases (same x id)) [
  | inl h ↦ rw h (omega arith)
  | inr h ↦ rw h (omega (arith, length-erase_first id xs))
]

pub evict_found-IsValid :
    (id : Bytes) (tx : TxView) (p : Pool)
    → find id p.by_id ≡ some tx
    → IsValid p
    → IsValid (evict_found id tx p)
unfolding evict_found
evict_found-IsValid id tx p e (counts, ids, room) = (
  λ c.
      grind
        (arith, counts c, spenders-erase_key c id tx p.by_id e, mem-erase_all c tx.inputs p.spent),
  keys-erase_key id p.by_id ∙ ap (λ xs. erase_first id xs) ids,
  omega (arith, length-erase_first id p.order),
)

evict_found-IsValid_if :
    (id : Bytes) (p : Pool) (found : Option TxView)
    → find id p.by_id ≡ found
    → IsValid p
    → IsValid (elim found [ none ↦ p | some tx ↦ evict_found id tx p ])
evict_found-IsValid_if id p none e h = h
evict_found-IsValid_if id p (some tx) e h = evict_found-IsValid id tx p e h

pub evict-IsValid : (id : Bytes) (p : Pool) → IsValid p → IsValid (evict id p)
unfolding evict
evict-IsValid id p h = evict_found-IsValid_if id p (find id p.by_id) refl h

pub evict_all-IsValid : (ids : List Bytes) (p : Pool) → IsValid p → IsValid (evict_all ids p)
unfolding evict_all
evict_all-IsValid [] p h = h
evict_all-IsValid (id ∷ ids) p h = evict_all-IsValid ids (evict id p) (evict-IsValid id p h)

pub insert_tx-IsValid :
    (tx : TxView) (p : Pool)
    → double_spends tx.inputs p.spent ≡ false
    → suc (length p.order) ≤ p.capacity
    → IsValid p
    → IsValid (insert_tx tx p)
unfolding insert_tx
insert_tx-IsValid tx p e room (counts, ids, cap) = (
  λ c. grind (
    arith,
    counts c,
    spenders-append c tx.id tx p.by_id,
    mem-insert_all c tx.inputs p.spent,
    double_spends-mem c tx.inputs p.spent e,
  ),
  keys-append p.by_id tx.id tx ∙ ap (λ xs. xs ++ tx.id ∷ []) ids,
  omega (arith, length-append p.order (tx.id ∷ [])),
)
