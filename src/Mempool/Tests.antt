-- ===== src/Mempool/Tests.antt =====
-- A pool for one transaction: the second evicts the first, a double spend is turned away.
use kiss_vm_interpreter.Prelude.{
  ◌≡◌, refl, true, false, List, [], ◌∷◌, some, Bytes, codes, same, subst, arith,
}
use kiss_vm_interpreter.Mempool.{
  TxView, Pool, empty_pool, mem, insert, insert_all, erase, erase_all, find, erase_key, erase_first,
  contains, evict_found, evict, double_spends, make_room, insert_tx, add, remove, conflicting,
  evict_all, on_block_accepted, pending_from, get_pending,
}
use kiss_vm_interpreter.Mempool.Sets.{spenders}
use kiss_vm_interpreter.Mempool.Spent.{IsValid}
use kiss_vm_interpreter.Mempool.Removal.{
  unaffected, on_block_accepted-unaffected, IsRemoval, remove-IsRemoval,
}
use kiss_vm_interpreter.Mempool.Admission.{IsAdmission, add-IsAdmission}

abbrev first : TxView
first = record { id = codes "A"; inputs = codes "x" ∷ codes "y" ∷ [] }

abbrev second : TxView
second = record { id = codes "B"; inputs = codes "z" ∷ [] }

abbrev conflict : TxView
conflict = record { id = codes "C"; inputs = codes "y" ∷ [] }

abbrev holding : TxView → List Bytes → Pool
holding tx spent = record {
  capacity = 1;
  by_id = (tx.id, tx) ∷ [];
  spent = spent;
  order = tx.id ∷ [];
}

abbrev pool : Pool
pool = holding first (codes "y" ∷ codes "x" ∷ [])

empty_pool-IsValid : IsValid (empty_pool 1)
unfolding spenders mem
empty_pool-IsValid = ((λ c. refl), refl, omega arith)

added_first : add first (empty_pool 1) ≡ some (true, pool)
unfolding add contains find double_spends make_room insert_tx insert_all insert mem same
added_first = refl

pool-IsValid : IsValid pool
pool-IsValid =
    (subst (IsAdmission first (empty_pool 1)) added_first
      (add-IsAdmission first (empty_pool 1) empty_pool-IsValid (omega arith))).0

-- The first transaction makes room for the second.
added_second : add second pool ≡ some (true, holding second (codes "z" ∷ []))
unfolding add contains find double_spends make_room evict evict_found erase_all erase erase_key
    erase_first insert_tx insert_all insert mem same
added_second = refl

turned_away : add conflict pool ≡ some (false, pool)
unfolding add contains find double_spends mem same
turned_away = refl

block_runs : on_block_accepted conflict pool ≡ empty_pool 1
unfolding on_block_accepted conflicting evict_all evict evict_found find erase_all erase erase_key
    erase_first double_spends mem same
block_runs = refl

pending_runs : get_pending 5 pool ≡ first ∷ []
unfolding get_pending pending_from find same
pending_runs = refl

add-IsAdmission_example : IsAdmission second pool (add second pool)
add-IsAdmission_example = add-IsAdmission second pool pool-IsValid (omega arith)

remove-IsRemoval_example : IsRemoval (codes "A") (codes "B") pool (remove (codes "A") pool)
unfolding mem same
remove-IsRemoval_example =
    remove-IsRemoval (codes "A") (codes "B") pool pool-IsValid (refl, tt) refl

-- Of two pending transactions the block leaves the one that it does not conflict with.
abbrev both : Pool
both = record {
  capacity = 2;
  by_id = (codes "A", first) ∷ (codes "B", second) ∷ [];
  spent = codes "z" ∷ codes "y" ∷ codes "x" ∷ [];
  order = codes "A" ∷ codes "B" ∷ [];
}

added_both : add second (record pool { capacity = 2 }) ≡ some (true, both)
unfolding add contains find double_spends make_room insert_tx insert_all insert mem same
added_both = refl

both-IsValid : IsValid both
both-IsValid =
    (subst (IsAdmission second (record pool { capacity = 2 })) added_both (
      add-IsAdmission second (record pool { capacity = 2 })
        (pool-IsValid.0, pool-IsValid.1, omega arith) (omega arith))).0

on_block_accepted-unaffected_example :
    IsValid (on_block_accepted conflict both)
    × ((on_block_accepted conflict both).by_id ≡ unaffected (codes "y" ∷ []) both.by_id)
on_block_accepted-unaffected_example =
    on_block_accepted-unaffected conflict both both-IsValid (unfold mem same in (refl, (refl, tt)))
