-- ===== src/Mempool.antt =====
-- src/mempool/Mempool.hpp: the transactions that wait for a block.
mod Sets
pub mod Spent
pub mod Admission
pub mod Removal
mod Tests
use kiss_vm_interpreter.Prelude.{
  ℕ, zero, suc, ◌+◌, ◌-◌, ◌≤◌, ◌≡◌, Bool, true, false, List, [], ◌∷◌, ◌++◌, Option, none, some,
  Bytes, length, ltb, leb, same, if◌then◌else◌,
}

-- What the pool asks of a TxPoW: computeID() and the coin ids of the inputs of its transaction.
pub record TxView : Type 0 where
  pub id : Bytes
  pub inputs : List Bytes

-- m_byID and m_spentInPool are lists without a key or an element twice.
pub record Pool : Type 0 where
  pub capacity : ℕ
  pub by_id : List (Bytes × TxView)
  pub spent : List Bytes
  pub order : List Bytes

abbrev pub empty_pool : ℕ → Pool
empty_pool capacity = record { capacity = capacity; by_id = []; spent = []; order = [] }

-- unordered_set: count, emplace and erase, and the last two over the inputs of a transaction
unfoldable pub mem : Bytes → List Bytes → Bool
mem c [] = false
mem c (x ∷ xs) = if same x c then true else mem c xs

unfoldable pub insert : Bytes → List Bytes → List Bytes
unfolding mem
insert c xs = if mem c xs then xs else c ∷ xs

unfoldable pub insert_all : List Bytes → List Bytes → List Bytes
unfolding insert
insert_all [] xs = xs
insert_all (c ∷ cs) xs = insert_all cs (insert c xs)

unfoldable pub erase : Bytes → List Bytes → List Bytes
erase c [] = []
erase c (x ∷ xs) = let rest = erase c xs in if same x c then rest else x ∷ rest

unfoldable pub erase_all : List Bytes → List Bytes → List Bytes
unfolding erase
erase_all [] xs = xs
erase_all (c ∷ cs) xs = erase_all cs (erase c xs)

-- unordered_map: find and erase
unfoldable pub find : Bytes → List (Bytes × TxView) → Option TxView
find id [] = none
find id ((k, tx) ∷ m) = if same k id then some tx else find id m

unfoldable pub erase_key : Bytes → List (Bytes × TxView) → List (Bytes × TxView)
erase_key id [] = []
erase_key id ((k, tx) ∷ m) = let rest = erase_key id m in if same k id then m else (k, tx) ∷ rest

-- the loop over m_order that erases the first equal id and breaks
unfoldable pub erase_first : Bytes → List Bytes → List Bytes
erase_first id [] = []
erase_first id (x ∷ xs) = let rest = erase_first id xs in if same x id then xs else x ∷ rest

-- contains(), size()
unfoldable pub contains : Bytes → Pool → Bool
unfolding find
contains id p = elim (find id p.by_id) [ none ↦ false | some tx ↦ true ]

abbrev pub size : Pool → ℕ
size p = length p.by_id

-- _evict() once the transaction is found
unfoldable pub evict_found : Bytes → TxView → Pool → Pool
unfolding erase_all erase_key erase_first
evict_found id tx p = record {
  capacity = p.capacity;
  by_id = erase_key id p.by_id;
  spent = erase_all tx.inputs p.spent;
  order = erase_first id p.order;
}

unfoldable pub evict : Bytes → Pool → Pool
unfolding find evict_found
evict id p = elim (find id p.by_id) [ none ↦ p | some tx ↦ evict_found id tx p ]

-- the loop of the double-spend check
unfoldable pub double_spends : List Bytes → List Bytes → Bool
unfolding mem
double_spends [] spent = false
double_spends (c ∷ cs) spent = if mem c spent then true else double_spends cs spent

-- m_order.front(); `none` where m_order is empty, which C++ leaves undefined
abbrev pub evict_oldest : Pool → List Bytes → Option Pool
evict_oldest p [] = none
evict_oldest p (oldest ∷ ids) = some (evict oldest p)

unfoldable pub make_room : Pool → Option Pool
unfolding evict
make_room p = if leb p.capacity (length p.order) then evict_oldest p p.order else some p

-- The inserts of add().
unfoldable pub insert_tx : TxView → Pool → Pool
unfolding insert_all
insert_tx tx p = record {
  capacity = p.capacity;
  by_id = p.by_id ++ (tx.id, tx) ∷ [];
  spent = insert_all tx.inputs p.spent;
  order = p.order ++ tx.id ∷ [];
}

-- add(); `none` is undefined behaviour.
unfoldable pub add : TxView → Pool → Option (Bool × Pool)
unfolding contains double_spends make_room insert_tx
add tx p =
    if contains tx.id p
    then some (false, p)
    else if double_spends tx.inputs p.spent
    then some (false, p)
    else elim (make_room p) [ none ↦ none | some q ↦ some (true, insert_tx tx q) ]

unfoldable pub remove : Bytes → Pool → Bool × Pool
unfolding contains evict
remove id p = if contains id p then (true, evict id p) else (false, p)

-- The loop of getPending() behind `taken` results.
unfoldable pub pending_from : ℕ → ℕ → List (Bytes × TxView) → List Bytes → List TxView
unfolding find
pending_from limit taken m [] = []
pending_from limit taken m (id ∷ ids) =
    let found = pending_from limit (suc taken) m ids in
    let missing = pending_from limit taken m ids in
    if leb limit taken then [] else elim (find id m) [ none ↦ missing | some tx ↦ tx ∷ found ]

unfoldable pub get_pending : ℕ → Pool → List TxView
unfolding pending_from
get_pending limit p = pending_from limit 0 p.by_id p.order

-- onBlockAccepted(): the ids to remove, and their eviction
unfoldable pub conflicting : List Bytes → List (Bytes × TxView) → List Bytes
unfolding double_spends
conflicting spent_now [] = []
conflicting spent_now ((id, tx) ∷ m) =
    let rest = conflicting spent_now m in
    if double_spends tx.inputs spent_now then id ∷ rest else rest

unfoldable pub evict_all : List Bytes → Pool → Pool
unfolding evict
evict_all [] p = p
evict_all (id ∷ ids) p = evict_all ids (evict id p)

unfoldable pub on_block_accepted : TxView → Pool → Pool
unfolding conflicting evict_all
on_block_accepted block p = evict_all (conflicting block.inputs p.by_id) p
