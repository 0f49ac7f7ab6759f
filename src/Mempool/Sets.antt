-- ===== src/Mempool/Sets.antt =====
-- The sets and maps of src/mempool/Mempool.hpp after an insertion and an erasure.
use kiss_vm_interpreter.Prelude.{
  ℕ, ◌+◌, ◌≡◌, refl, sym, ap, ◌∙◌, Bool, true, false, not, ◌&&◌, ◌||◌, List, [], ◌∷◌, ◌++◌, some,
  Bytes, Bool-cases, inl, inr, same, same→eq, same_refl, if◌then◌else◌, arith,
}
use mathlib.Core.Option.{some-injective}
use kiss_vm_interpreter.Mempool.{
  TxView, mem, insert, insert_all, erase, erase_all, find, erase_key, double_spends,
}

abbrev pub one_if : Bool → ℕ
one_if b = if b then 1 else 0

mem-same : (c x : Bytes) (xs : List Bytes) → same x c ≡ true → mem c xs ≡ mem x xs
mem-same c x xs e = ap (λ (y : Bytes). mem y xs) (sym (same→eq x c e))

same_left : (y x c : Bytes) → same y x ≡ true → same y c ≡ same x c
same_left y x c e = ap (λ (z : Bytes). same z c) (same→eq y x e)

same_right : (y x c : Bytes) → same y c ≡ true → same x c ≡ true → same y x ≡ true
same_right y x c e d =
    ap (λ (z : Bytes). same z x) (same→eq y c e ∙ sym (same→eq x c d)) ∙ same_refl x

pub mem-insert : (c x : Bytes) (xs : List Bytes) → mem c (insert x xs) ≡ mem c xs || same x c
unfolding mem insert
mem-insert c x xs = ground (arith, mem-same c x xs)

pub mem-insert_all :
    (c : Bytes) (cs xs : List Bytes) → mem c (insert_all cs xs) ≡ mem c xs || mem c cs
unfolding mem insert_all
mem-insert_all c [] xs = ground arith
mem-insert_all c (x ∷ cs) xs = ground (arith, mem-insert_all c cs (insert x xs), mem-insert c x xs)

pub mem-erase : (c x : Bytes) (xs : List Bytes) → mem c (erase x xs) ≡ mem c xs && not (same x c)
unfolding mem erase
mem-erase c x [] = refl
mem-erase c x (y ∷ xs) = ground (arith, mem-erase c x xs, same_left y x c, same_right y x c)

pub mem-erase_all :
    (c : Bytes) (cs xs : List Bytes) → mem c (erase_all cs xs) ≡ mem c xs && not (mem c cs)
unfolding mem erase_all
mem-erase_all c [] xs = ground arith
mem-erase_all c (x ∷ cs) xs = ground (arith, mem-erase_all c cs (erase x xs), mem-erase c x xs)

-- How many transactions of a map spend the coin c.
unfoldable pub spenders : Bytes → List (Bytes × TxView) → ℕ
unfolding mem
spenders c [] = 0
spenders c ((k, tx) ∷ m) = one_if (mem c tx.inputs) + spenders c m

pub spenders-append :
    (c id : Bytes) (tx : TxView) (m : List (Bytes × TxView))
    → spenders c (m ++ (id, tx) ∷ []) ≡ spenders c m + one_if (mem c tx.inputs)
unfolding spenders
spenders-append c id tx [] = omega arith
spenders-append c id tx ((k, t) ∷ m) = omega (arith, spenders-append c id tx m)

pub spenders-erase_key :
    (c id : Bytes) (tx : TxView) (m : List (Bytes × TxView))
    → find id m ≡ some tx
    → spenders c m ≡ spenders c (erase_key id m) + one_if (mem c tx.inputs)
unfolding spenders find erase_key
spenders-erase_key c id tx [] e = cc
spenders-erase_key c id tx ((k, t) ∷ m) e = elim (Bool-cases (same k id)) [
  | inl h ↦
      let q : t ≡ tx =
        some-injective t tx (sym (ap (λ b. if b then some t else find id m) h) ∙ e) in
      rw h (rw q (omega arith))
  | inr h ↦
      let q : find id m ≡ some tx = sym (ap (λ b. if b then some t else find id m) h) ∙ e in
      rw h (omega (arith, spenders-erase_key c id tx m q))
]

pub double_spends-mem :
    (c : Bytes) (cs spent : List Bytes)
    → double_spends cs spent ≡ false
    → mem c cs ≡ true
    → mem c spent ≡ false
unfolding double_spends mem
double_spends-mem c [] spent e h = cc
double_spends-mem c (x ∷ cs) spent e h =
    ground (arith, double_spends-mem c cs spent, mem-same c x spent)
