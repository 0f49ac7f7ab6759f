-- ===== src/Mempool/Removal.antt =====
-- What remove() and onBlockAccepted() of src/mempool/Mempool.hpp leave in the pool.
use kiss_vm_interpreter.Prelude.{
  ◌≡◌, refl, sym, ap, ◌∙◌, Bool, true, false, List, [], ◌∷◌, Option, none, some, Bool-cases, inl,
  inr, Bytes, if_ind, same, same→eq, same_refl, if◌then◌else◌, arith,
}
use kiss_vm_interpreter.Mempool.{
  TxView, Pool, mem, find, erase_key, contains, double_spends, evict_found, evict, remove,
  conflicting, evict_all, on_block_accepted,
}
use kiss_vm_interpreter.Mempool.Spent.{keys, IsValid, evict-IsValid, evict_all-IsValid}

-- Keys that are there once each, as in a map.
abbrev pub AreDistinct : List Bytes → Type 0
AreDistinct [] = Unit
AreDistinct (k ∷ ks) = (mem k ks ≡ false) × AreDistinct ks

-- A map without a few of its keys.
abbrev erase_keys : List Bytes → List (Bytes × TxView) → List (Bytes × TxView)
erase_keys [] m = m
erase_keys (id ∷ ids) m = erase_keys ids (erase_key id m)

erase_key-missing : (id : Bytes) (m : List (Bytes × TxView)) → find id m ≡ none → erase_key id m ≡ m
unfolding find erase_key
erase_key-missing id [] e = refl
erase_key-missing id ((k, tx) ∷ m) e = elim (Bool-cases (same k id)) [
  | inl h ↦ absurd (cc (e, ap (λ b. if b then some tx else find id m) h))
  | inr h ↦
      let q : find id m ≡ none = sym (ap (λ b. if b then some tx else find id m) h) ∙ e in
      rw h (ap (λ l. (k, tx) ∷ l) (erase_key-missing id m q))
]

by_id-evict_if :
    (id : Bytes) (p : Pool) (found : Option TxView)
    → find id p.by_id ≡ found
    → let q : Pool = elim found [ none ↦ p | some tx ↦ evict_found id tx p ] in
      q.by_id ≡ erase_key id p.by_id
by_id-evict_if id p none e = sym (erase_key-missing id p.by_id e)
by_id-evict_if id p (some tx) e = unfold evict_found in refl

by_id-evict : (id : Bytes) (p : Pool) → (evict id p).by_id ≡ erase_key id p.by_id
unfolding evict
by_id-evict id p = by_id-evict_if id p (find id p.by_id) refl

by_id-evict_all : (ids : List Bytes) (p : Pool) → (evict_all ids p).by_id ≡ erase_keys ids p.by_id
unfolding evict_all
by_id-evict_all [] p = refl
by_id-evict_all (id ∷ ids) p =
    by_id-evict_all ids (evict id p) ∙ ap (λ m. erase_keys ids m) (by_id-evict id p)

same_sym : (a b : Bytes) → same a b ≡ same b a
unfolding same
same_sym [] [] = refl
same_sym [] (b ∷ bs) = refl
same_sym (a ∷ xs) [] = refl
same_sym (a ∷ xs) (b ∷ bs) = ground (arith, same_sym xs bs)

not_same :
    (k j : Bytes) (ks : List Bytes)
    → mem k (j ∷ ks) ≡ false
    → (same j k ≡ false) × (mem k ks ≡ false)
unfolding mem
not_same k j ks e = (ground arith, ground arith)

-- A key that is not erased stays in front.
erase_keys-cons :
    (ids : List Bytes) (k : Bytes) (tx : TxView) (m : List (Bytes × TxView))
    → mem k ids ≡ false
    → erase_keys ids ((k, tx) ∷ m) ≡ (k, tx) ∷ erase_keys ids m
erase_keys-cons [] k tx m e = refl
erase_keys-cons (id ∷ ids) k tx m e =
    let (a, b) = not_same k id ids e in
    let step : erase_key id ((k, tx) ∷ m) ≡ (k, tx) ∷ erase_key id m =
      unfold erase_key in rw (same_sym k id ∙ a) refl in
    ap (λ l. erase_keys ids l) step ∙ erase_keys-cons ids k tx (erase_key id m) b

mem-conflicting :
    (k : Bytes) (cs : List Bytes) (m : List (Bytes × TxView))
    → mem k (keys m) ≡ false
    → mem k (conflicting cs m) ≡ false
unfolding conflicting
mem-conflicting k cs [] e = refl
mem-conflicting k cs ((j, tx) ∷ m) e =
    let (a, b) = not_same k j (keys m) e in
    let rest = mem-conflicting k cs m b in
    if_ind (λ l. mem k l ≡ false) (double_spends tx.inputs cs) (λ _. unfold mem in rw a rest)
      (λ _. rest)

-- The pending transactions that spend none of the coins cs, in their order.
abbrev pub unaffected : List Bytes → List (Bytes × TxView) → List (Bytes × TxView)
unaffected cs [] = []
unaffected cs ((k, tx) ∷ m) =
    let rest = unaffected cs m in if double_spends tx.inputs cs then rest else (k, tx) ∷ rest

erase_keys-conflicting :
    (cs : List Bytes) (m : List (Bytes × TxView))
    → AreDistinct (keys m)
    → erase_keys (conflicting cs m) m ≡ unaffected cs m
unfolding conflicting
erase_keys-conflicting cs [] h = refl
erase_keys-conflicting cs ((k, tx) ∷ m) h = elim (Bool-cases (double_spends tx.inputs cs)) [
  | inl e ↦
      let first : erase_key k ((k, tx) ∷ m) ≡ m = unfold erase_key in rw (same_refl k) refl in
      rw e (ap (λ l. erase_keys (conflicting cs m) l) first ∙ erase_keys-conflicting cs m h.1)
  | inr e ↦ rw e (
      erase_keys-cons (conflicting cs m) k tx m (mem-conflicting k cs m h.0)
      ∙ ap (λ l. (k, tx) ∷ l) (erase_keys-conflicting cs m h.1))
]

-- From a valid pool whose ids are distinct, an accepted block leaves a valid pool with just the
-- pending transactions that spend none of the block's coins, in their order.
pub on_block_accepted-unaffected :
    (block : TxView) (p : Pool)
    → IsValid p
    → AreDistinct (keys p.by_id)
    → IsValid (on_block_accepted block p)
      × ((on_block_accepted block p).by_id ≡ unaffected block.inputs p.by_id)
unfolding on_block_accepted
on_block_accepted-unaffected block p h d =
    let ids = conflicting block.inputs p.by_id in
    (
      evict_all-IsValid ids p h,
      by_id-evict_all ids p ∙ erase_keys-conflicting block.inputs p.by_id d,
    )

find-absent : (id : Bytes) (m : List (Bytes × TxView)) → mem id (keys m) ≡ false → find id m ≡ none
unfolding find
find-absent id [] e = refl
find-absent id ((k, tx) ∷ m) e = let (a, b) = not_same id k (keys m) e in rw a (find-absent id m b)

find-erase_key :
    (id : Bytes) (m : List (Bytes × TxView))
    → AreDistinct (keys m)
    → find id (erase_key id m) ≡ none
unfolding find erase_key
find-erase_key id [] h = refl
find-erase_key id ((k, tx) ∷ m) h = elim (Bool-cases (same k id)) [
  | inl e ↦
      rw e (find-absent id m (ap (λ (x : Bytes). mem x (keys m)) (sym (same→eq k id e)) ∙ h.0))
  | inr e ↦ rw e (rw e (find-erase_key id m h.1))
]

find-other :
    (id j : Bytes) (m : List (Bytes × TxView))
    → same id j ≡ false
    → find j (erase_key id m) ≡ find j m
unfolding find erase_key
find-other id j [] n = refl
find-other id j ((k, tx) ∷ m) n = elim (Bool-cases (same k id)) [
  | inl e ↦ rw e (rw (ap (λ (x : Bytes). same x j) (same→eq k id e) ∙ n) refl)
  | inr e ↦ rw e (ap (λ o. if same k j then some tx else o) (find-other id j m n))
]

-- What remove() leaves: a valid pool without the id, and every other transaction as it was.
abbrev pub IsRemoval : Bytes → Bytes → Pool → Bool × Pool → Type 0
IsRemoval id j p (b, q) =
    IsValid q × (b ≡ contains id p) × (contains id q ≡ false) × (find j q.by_id ≡ find j p.by_id)

not_found :
    (o : Option TxView) → o ≡ none → elim o as (λ _. Bool) [ none ↦ false | some tx ↦ true ] ≡ false
not_found none e = refl
not_found (some tx) e = absurd (cc e)

contains-find : (id : Bytes) (p : Pool) → find id p.by_id ≡ none → contains id p ≡ false
unfolding contains
contains-find id p e = not_found (find id p.by_id) e

-- From a valid pool whose ids are distinct, remove() says whether the id was pending and leaves a valid
-- pool that does not contain it, in which any other id j has the transaction that it had.
pub remove-IsRemoval :
    (id j : Bytes) (p : Pool)
    → IsValid p
    → AreDistinct (keys p.by_id)
    → same id j ≡ false
    → IsRemoval id j p (remove id p)
unfolding remove
remove-IsRemoval id j p h d n =
    let gone : (evict id p).by_id ≡ erase_key id p.by_id = by_id-evict id p in
    if_ind (IsRemoval id j p) (contains id p)
      (λ e. (
        evict-IsValid id p h,
        sym e,
        contains-find id (evict id p) (ap (λ m. find id m) gone ∙ find-erase_key id p.by_id d),
        ap (λ m. find j m) gone ∙ find-other id j p.by_id n,
      ))
      (λ e. (h, sym e, e, refl))
