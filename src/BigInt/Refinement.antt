-- ===== src/BigInt/Refinement.antt =====
-- The operators of class BigInt (src/types/MiniNumber.cpp) are those of the integers.
use kiss_vm_interpreter.Prelude.{
  ℕ, ◌+◌, ◌-◌, ◌<◌, ◌≡◌, refl, sym, ap, ◌∙◌, subst, Bool, true, false, not, Bytes, if_ind, arith,
}
use kiss_vm_interpreter.Prelude.Int.{ℤ, pos, negsuc, ◌+ℤ◌, signed, is_neg, nat_abs}
use kiss_vm_interpreter.BigInt.Mag.{Order, below, equal, above, compare_abs_mag, add_mag, sub_mag}
use kiss_vm_interpreter.BigInt.Value.{little, value}
use kiss_vm_interpreter.BigInt.Sum.{
  value-add_mag, add_mag-AreBytes, value-sub_mag, sub_mag-AreBytes,
}
use kiss_vm_interpreter.BigInt.Compare.{
  IsMag, IsMag-AreBytes, Tells, compare_abs_mag-Tells, longer-ge,
}
use kiss_vm_interpreter.BigInt.Signed.{
  is_negative, magnitude, from_sign_mag, same_sign, difference, add,
}
use kiss_vm_interpreter.BigInt.Integer.{integer, IsBigInt}
use kiss_vm_interpreter.BigInt.SignMag.{from_sign_mag-integer, magnitude-integer}

-- The bytes stand for the integer i.
abbrev pub StandsFor : Bytes → ℤ → Type 0
StandsFor bs i = (integer bs ≡ i) × IsBigInt bs

from_sum :
    (negative : Bool) (a b : Bytes)
    → IsMag a
    → IsMag b
    → (negative ≡ true → 0 < value a)
    → StandsFor (from_sign_mag negative (add_mag a b)) (signed negative (value a + value b))
from_sum negative a b h k p =
    let e = value-add_mag a b (IsMag-AreBytes a h) (IsMag-AreBytes b k) in
    let (i, out) =
      from_sign_mag-integer negative (add_mag a b) (add_mag-AreBytes a b)
        (λ n. omega (arith, e, p n)) in
    (i ∙ ap (λ (v : ℕ). signed negative v) e, out)

from_difference :
    (negative : Bool) (a b : Bytes)
    → IsMag a
    → IsMag b
    → value b < value a
    → StandsFor (from_sign_mag negative (sub_mag a b)) (signed negative (value a - value b))
from_difference negative a b h k lt =
    let e =
      value-sub_mag a b (IsMag-AreBytes a h) (IsMag-AreBytes b k) (longer-ge b a k h (omega arith))
        (omega arith) in
    let v : value (sub_mag a b) ≡ value a - value b = omega (arith, e) in
    let (i, out) =
      from_sign_mag-integer negative (sub_mag a b)
        (sub_mag-AreBytes a b (IsMag-AreBytes a h) (IsMag-AreBytes b k)) (λ n. omega (arith, v)) in
    (i ∙ ap (λ (w : ℕ). signed negative w) v, out)

-- The sums of an integer with one of the other sign, by the greater absolute value.
signed_above : (na : Bool) (m n : ℕ) → n < m → signed na (m - n) ≡ signed na m +ℤ signed (not na) n
unfolding ◌+ℤ◌
signed_above true m n h = ground arith
signed_above false m n h = ground arith

signed_below :
    (na : Bool) (m n : ℕ) → m < n → signed (not na) (n - m) ≡ signed na m +ℤ signed (not na) n
unfolding ◌+ℤ◌
signed_below true m n h = ground arith
signed_below false m n h = ground arith

signed_equal : (na : Bool) (m n : ℕ) → m ≡ n → pos 0 ≡ signed na m +ℤ signed (not na) n
unfolding ◌+ℤ◌
signed_equal true m n h = ground arith
signed_equal false m n h = ground arith

signed_same : (na : Bool) (m n : ℕ) → signed na (m + n) ≡ signed na m +ℤ signed na n
unfolding ◌+ℤ◌
signed_same true m n = ground arith
signed_same false m n = ground arith

difference_lem :
    (o : Order) (na : Bool) (a b : Bytes)
    → Tells o (value a) (value b)
    → IsMag a
    → IsMag b
    → StandsFor (difference o na (not na) a b) (signed na (value a) +ℤ signed (not na) (value b))
difference_lem below na a b t h k =
    let (i, out) = from_difference (not na) b a k h t in
    (i ∙ signed_below na (value a) (value b) t, out)
difference_lem equal na a b t h k =
    (unfold integer value little in signed_equal na _ _ t, (omega arith, tt))
difference_lem above na a b t h k =
    let (i, out) = from_difference na a b h k t in (i ∙ signed_above na (value a) (value b) t, out)

pub signed_parts : (i : ℤ) → i ≡ signed (is_neg i) (nat_abs i)
signed_parts (pos n) = ap pos (omega arith)
signed_parts (negsuc n) = ground arith

neg_pos : (i : ℤ) → is_neg i ≡ true → 0 < nat_abs i
neg_pos (pos n) e = cc
neg_pos (negsuc n) e = omega arith

-- A BigInt by its sign and its magnitude.
pub record Parts (a : Bytes) : Type 0 where
  pub mag : IsMag (magnitude a)
  pub is_signed : integer a ≡ signed (is_negative a) (value (magnitude a))
  pub not_zero : is_negative a ≡ true → 0 < value (magnitude a)

pub IsBigInt-Parts : (a : Bytes) → IsBigInt a → Parts a
IsBigInt-Parts a h =
    let (v, n, m) = magnitude-integer a h in
    record {
      mag = m;
      is_signed = signed_parts (integer a) ∙ cc;
      not_zero = λ e. omega (arith, v, neg_pos (integer a) (sym n ∙ e));
    }

same_sign_iff : (x y : Bool) → (same_sign x y ≡ true → y ≡ x) × (same_sign x y ≡ false → y ≡ not x)
same_sign_iff true true = (λ e. refl, λ e. cc)
same_sign_iff true false = (λ e. cc, λ e. refl)
same_sign_iff false true = (λ e. cc, λ e. refl)
same_sign_iff false false = (λ e. refl, λ e. cc)

-- operator+ of the bytes of two BigInts gives the bytes of a BigInt that stands for the sum of their
-- integers.
pub add-StandsFor :
    (a b : Bytes) → IsBigInt a → IsBigInt b → StandsFor (add a b) (integer a +ℤ integer b)
unfolding add
add-StandsFor a b h k =
    let p = IsBigInt-Parts a h in
    let q = IsBigInt-Parts b k in
    let ma = magnitude a in
    let mb = magnitude b in
    let same = same_sign_iff (is_negative a) (is_negative b) in
    let goal : integer a +ℤ integer b
        ≡ signed (is_negative a) (value ma) +ℤ signed (is_negative b) (value mb) =
      ap (λ i. i +ℤ integer b) p.is_signed
      ∙ ap (λ i. signed (is_negative a) (value ma) +ℤ i) q.is_signed in
    subst (StandsFor (add a b)) (sym goal) (
      if_ind
        (λ r. StandsFor r (signed (is_negative a) (value ma) +ℤ signed (is_negative b) (value mb)))
        (same_sign (is_negative a) (is_negative b))
        (λ e.
          let (i, out) = from_sum (is_negative a) ma mb p.mag q.mag p.not_zero in
          (
            i
                ∙ (signed_same (is_negative a) (value ma) (value mb)
                    ∙ ap (λ n. signed (is_negative a) (value ma) +ℤ signed n (value mb))
                        (sym (same.0 e))),
            out,
          ))
        (λ e.
          subst
            (λ n.
              StandsFor (difference (compare_abs_mag ma mb) (is_negative a) n ma mb)
                (signed (is_negative a) (value ma) +ℤ signed n (value mb)))
            (sym (same.1 e))
            (difference_lem (compare_abs_mag ma mb) (is_negative a) ma mb
              (compare_abs_mag-Tells ma mb p.mag q.mag) p.mag q.mag)))
