-- ===== src/BigInt/Signs.antt =====
-- The signs of integers and of the bytes of class BigInt (src/types/MiniNumber.cpp).
use kiss_vm_interpreter.Prelude.{
  ℕ, ◌<◌, ◌≡◌, refl, ap, Bool, true, false, not, [], ◌∷◌, Bytes, length, ◌==◌, ==_iff,
  if◌then◌else◌, Bool-cases, inl, inr, arith,
}
use kiss_vm_interpreter.Prelude.Int.{ℤ, pos, negsuc, ◌+ℤ◌, ◌-ℤ◌, signed, nat_abs}
use kiss_vm_interpreter.BigInt.Value.{little, value, value-cons}
use kiss_vm_interpreter.BigInt.Compare.{value-ge-base, base-pos}
use kiss_vm_interpreter.BigInt.Signed.{is_negative, is_zero, magnitude, same_sign}
use kiss_vm_interpreter.BigInt.Integer.{integer, IsBigInt}
use kiss_vm_interpreter.BigInt.SignMag.{magnitude-integer}
use kiss_vm_interpreter.BigInt.Refinement.{IsBigInt-Parts}

pub abs_zero : (i : ℤ) → nat_abs i ≡ 0 → i ≡ pos 0
abs_zero (pos n) e = ap pos (omega arith)
abs_zero (negsuc n) e = absurd (omega arith)

pub add_neg : (i j : ℤ) → i +ℤ (pos 0 -ℤ j) ≡ i -ℤ j
unfolding ◌+ℤ◌ ◌-ℤ◌
add_neg i j = ground arith

pub not_same : (m n : Bool) → not (same_sign m n) ≡ (if m then (if n then false else true) else n)
not_same true true = refl
not_same true false = refl
not_same false true = refl
not_same false false = refl

pub is_zero-value :
    (a : Bytes) → (is_zero a ≡ true → value a ≡ 0) × (is_zero a ≡ false → 0 < value a)
unfolding is_zero
is_zero-value [] = (λ e. unfold value little in refl, λ e. cc)
is_zero-value (b ∷ bs) =
    let rest = is_zero-value bs in
    let c = value-cons b bs in
    (
      λ e. let z : b ≡ 0 = ground arith in grind (arith, z, c, rest.0 (ground arith)),
      λ e. elim (Bool-cases (b == 0)) [
        | inl z ↦ omega (arith, c, rest.1 (ground arith))
        | inr z ↦
            omega (arith, value-ge-base b bs (λ q. cc (z, (==_iff b 0).1 q)), base-pos (length bs))
      ],
    )

pub is_zero-is_negative : (a : Bytes) → is_zero a ≡ true → is_negative a ≡ false
unfolding is_zero is_negative
is_zero-is_negative [] e = refl
is_zero-is_negative (b ∷ bs) e = ground arith

pub integer-nonneg : (a : Bytes) → is_negative a ≡ false → integer a ≡ pos (value a)
unfolding integer
integer-nonneg a e = rw e refl

pub neg_signed : (n : Bool) (v : ℕ) → signed (not n) v ≡ pos 0 -ℤ signed n v
unfolding ◌-ℤ◌
neg_signed true v = ground arith
neg_signed false v = ground arith

pub magnitude-pos : (a : Bytes) → IsBigInt a → is_zero a ≡ false → 0 < value (magnitude a)
magnitude-pos a h e = elim (Bool-cases (is_negative a)) [
  | inl n ↦ (IsBigInt-Parts a h).not_zero n
  | inr n ↦ omega (
    arith,
    (magnitude-integer a h).0,
    ap (λ (i : ℤ). nat_abs i) (integer-nonneg a n),
    (is_zero-value a).1 e,
  )
]
