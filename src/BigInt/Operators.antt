-- ===== src/BigInt/Operators.antt =====
-- Negation, difference, product, quotient, remainder and order of class BigInt
-- (src/types/MiniNumber.cpp) are those of the integers.
use kiss_vm_interpreter.Prelude.{
  ℕ, suc, ◌+◌, ◌*◌, ◌/◌, ◌%◌, ◌≤◌, ◌<◌, ◌≡◌, ◌≢◌, refl, sym, ap, ◌∙◌, subst, Bool, true, false, not,
  ◌&&◌, [], ◌∷◌, Bytes, length, ==_iff, if_ind, Bool-cases, inl, inr, arith,
}
use native.Mathlib.Nat.{add-mul-div_right, div-eq_of_lt, add-mul-mod_self_right, mod-eq_of_lt}
use kiss_vm_interpreter.Prelude.Int.{
  ℤ, pos, pos_part, neg_part, ◌+ℤ◌, ◌-ℤ◌, ◌*ℤ◌, tdiv, tmod, signs_differ, signed, is_neg, nat_abs,
}
use kiss_vm_interpreter.BigInt.Mag.{
  Order, below, equal, above, compare_abs_mag, mul_mag, divmod_mag,
}
use kiss_vm_interpreter.BigInt.Value.{value}
use kiss_vm_interpreter.BigInt.Product.{value-mul_mag}
use kiss_vm_interpreter.BigInt.Compare.{
  IsMag, IsMag-AreBytes, Tells, compare_abs_mag-Tells, value-ge-base, base-pos,
}
use kiss_vm_interpreter.BigInt.Quotient.{divmod_mag-IsDivision}
use kiss_vm_interpreter.BigInt.SearchDigit.{IsMag-ne, mul_mag-IsMag}
use kiss_vm_interpreter.BigInt.Signed.{
  is_negative, is_zero, magnitude, is_zero_mag, from_sign_mag, neg, same_sign, sub, with_sign, mul,
  div, modulo, compare_signed, compare_to,
}
use kiss_vm_interpreter.BigInt.Integer.{integer, IsBigInt}
use kiss_vm_interpreter.BigInt.SignMag.{from_sign_mag-integer, magnitude-integer, value-zero_mag}
use kiss_vm_interpreter.BigInt.Refinement.{StandsFor, IsBigInt-Parts, add-StandsFor}
use kiss_vm_interpreter.BigInt.Signs.{
  abs_zero, add_neg, not_same, is_zero-value, is_zero-is_negative, integer-nonneg, neg_signed,
  magnitude-pos,
}

-- operator-() negates.
pub neg-StandsFor : (a : Bytes) → IsBigInt a → StandsFor (neg a) (pos 0 -ℤ integer a)
unfolding neg
neg-StandsFor a h =
    if_ind (λ r. StandsFor r (pos 0 -ℤ integer a)) (is_zero a)
      (λ e.
        let i : integer a ≡ pos 0 =
          integer-nonneg a (is_zero-is_negative a e) ∙ ap pos ((is_zero-value a).0 e) in
        let z : pos 0 ≡ pos 0 -ℤ pos 0 = unfold ◌-ℤ◌ in refl in
        (i ∙ (z ∙ ap (λ (j : ℤ). pos 0 -ℤ j) (sym i)), h))
      (λ e.
        let p = IsBigInt-Parts a h in
        let (i, out) =
          from_sign_mag-integer (not (is_negative a)) (magnitude a)
            (IsMag-AreBytes (magnitude a) p.mag) (λ n. magnitude-pos a h e) in
        (
          i
              ∙ (neg_signed (is_negative a) (value (magnitude a))
                  ∙ ap (λ j. pos 0 -ℤ j) (sym p.is_signed)),
          out,
        ))

-- operator- of the bytes of two BigInts gives the bytes of a BigInt that stands for the difference of
-- their integers.
pub sub-StandsFor :
    (a b : Bytes) → IsBigInt a → IsBigInt b → StandsFor (sub a b) (integer a -ℤ integer b)
unfolding sub
sub-StandsFor a b h k =
    let (n, m) = neg-StandsFor b k in
    let (i, out) = add-StandsFor a (neg b) h m in
    (i ∙ (ap (λ j. integer a +ℤ j) n ∙ add_neg (integer a) (integer b)), out)

mag_pos : (m : Bytes) → IsMag m → is_zero_mag m ≡ false → 0 < value m
mag_pos [] h e = absurd h
mag_pos (b ∷ []) h e = omega (arith, value-ge-base b [] (λ z. cc (e, (==_iff b 0).1 z)), base-pos 0)
mag_pos (b ∷ c ∷ bs) h e = omega (arith, value-ge-base b (c ∷ bs) h.0, base-pos (length (c ∷ bs)))

signed_zero : (n : Bool) (v : ℕ) → v ≡ 0 → pos v ≡ signed n v
signed_zero n v e = ground arith

-- A sign on a magnitude that may be zero.
pub with_sign-StandsFor :
    (negative : Bool) (m : Bytes)
    → IsMag m
    → StandsFor (with_sign negative m) (signed negative (value m))
with_sign-StandsFor negative m h = elim (Bool-cases (is_zero_mag m)) [
  | inl z ↦
      let f : false ≡ negative && not (is_zero_mag m) = ground arith in
      let (i, out) = from_sign_mag-integer false m (IsMag-AreBytes m h) (λ e. cc) in
      subst (λ n. StandsFor (from_sign_mag n m) (signed negative (value m))) f
        (i ∙ signed_zero negative (value m) (value-zero_mag m z), out)
  | inr z ↦
      let f : negative ≡ negative && not (is_zero_mag m) = ground arith in
      subst (λ n. StandsFor (from_sign_mag n m) (signed negative (value m))) f
        (from_sign_mag-integer negative m (IsMag-AreBytes m h) (λ e. mag_pos m h z))
]

-- The signs of two BigInts.
signs :
    (a b : Bytes)
    → IsBigInt a
    → IsBigInt b
    → not (same_sign (is_negative a) (is_negative b)) ≡ signs_differ (integer a) (integer b)
signs a b h k =
    let p = (magnitude-integer a h).1 in
    let q = (magnitude-integer b k).1 in
    rw (p, q) (not_same (is_neg (integer a)) (is_neg (integer b)))

-- operator* of the bytes of two BigInts gives the bytes of a BigInt that stands for the product of
-- their integers.
pub mul-StandsFor :
    (a b : Bytes) → IsBigInt a → IsBigInt b → StandsFor (mul a b) (integer a *ℤ integer b)
unfolding mul ◌*ℤ◌
mul-StandsFor a b h k =
    let p = magnitude-integer a h in
    let q = magnitude-integer b k in
    let ma = magnitude a in
    let mb = magnitude b in
    let (v, bytes) =
      value-mul_mag ma mb (IsMag-ne ma p.2) (IsMag-ne mb q.2) (IsMag-AreBytes ma p.2)
        (IsMag-AreBytes mb q.2) in
    let (i, out) =
      with_sign-StandsFor (not (same_sign (is_negative a) (is_negative b))) (mul_mag ma mb)
        (mul_mag-IsMag ma mb (IsMag-AreBytes ma p.2) (IsMag-AreBytes mb q.2)) in
    (i ∙ cc (signs a b h k, v, p.0, q.0), out)

pub quotient : (a b q r : ℕ) → a ≡ q * b + r → r < b → (q ≡ a / b) × (r ≡ a % b)
quotient a b q r e lt =
    let n : a ≡ r + q * b = omega (arith, e) in
    (
      sym (
          ap (λ (x : ℕ). x / b) n
          ∙ (add-mul-div_right r q (omega arith) ∙ omega (arith, div-eq_of_lt lt))),
      sym (ap (λ (x : ℕ). x % b) n ∙ (add-mul-mod_self_right r q b ∙ mod-eq_of_lt lt)),
    )

-- The magnitudes' quotient and remainder.
parts_quotient :
    (a b : Bytes)
    → IsBigInt a
    → IsBigInt b
    → integer b ≢ pos 0
    → let d = divmod_mag (magnitude a) (magnitude b) in
      (value d.0 ≡ nat_abs (integer a) / nat_abs (integer b))
      × (value d.1 ≡ nat_abs (integer a) % nat_abs (integer b))
      × IsMag d.0
      × IsMag d.1
parts_quotient a b h k n =
    let p = magnitude-integer a h in
    let q = magnitude-integer b k in
    let nz = λ (e : value (magnitude b) ≡ 0). n (abs_zero (integer b) (sym q.0 ∙ e)) in
    let (e, lt, f, g) = divmod_mag-IsDivision (magnitude a) (magnitude b) p.2 q.2 nz in
    let (x, y) = quotient _ _ _ _ e lt in (x ∙ cc (p.0, q.0), y ∙ cc (p.0, q.0), f, g)

-- operator/ of the bytes of two BigInts, the second not zero, gives the bytes of a BigInt that stands
-- for the quotient of their integers, rounded towards zero.
pub div-StandsFor :
    (a b : Bytes)
    → IsBigInt a
    → IsBigInt b
    → integer b ≢ pos 0
    → StandsFor (div a b) (tdiv (integer a) (integer b))
unfolding div tdiv
div-StandsFor a b h k n =
    let (v, w, f, g) = parts_quotient a b h k n in
    let (i, out) =
      with_sign-StandsFor (not (same_sign (is_negative a) (is_negative b)))
        (divmod_mag (magnitude a) (magnitude b)).0 f in
    (i ∙ cc (signs a b h k, v), out)

-- operator% of the bytes of two BigInts, the second not zero, gives the bytes of a BigInt that stands
-- for the remainder, which has the sign of the dividend.
pub modulo-StandsFor :
    (a b : Bytes)
    → IsBigInt a
    → IsBigInt b
    → integer b ≢ pos 0
    → StandsFor (modulo a b) (tmod (integer a) (integer b))
unfolding modulo tmod
modulo-StandsFor a b h k n =
    let (v, w, f, g) = parts_quotient a b h k n in
    let (i, out) =
      with_sign-StandsFor (is_negative a) (divmod_mag (magnitude a) (magnitude b)).1 g in
    (i ∙ cc (w, (magnitude-integer a h).1), out)

-- How the order of two integers is told.
abbrev pub TellsInt : Order → ℤ → ℤ → Type 0
TellsInt below i j = suc (pos_part i + neg_part j) ≤ pos_part j + neg_part i
TellsInt equal i j = i ≡ j
TellsInt above i j = suc (pos_part j + neg_part i) ≤ pos_part i + neg_part j

compare_signed-TellsInt :
    (m n : Bool) (o : Order) (x y : ℕ)
    → Tells o x y
    → (m ≡ true → 0 < x)
    → (n ≡ true → 0 < y)
    → TellsInt (compare_signed m n o) (signed m x) (signed n y)
compare_signed-TellsInt true true below x y t h k = ground arith
compare_signed-TellsInt true true equal x y t h k = ap (λ (v : ℕ). signed true v) t
compare_signed-TellsInt true true above x y t h k = ground arith
compare_signed-TellsInt true false o x y t h k = let p = h refl in ground arith
compare_signed-TellsInt false true o x y t h k = let p = k refl in ground arith
compare_signed-TellsInt false false below x y t h k = omega arith
compare_signed-TellsInt false false equal x y t h k = ap pos t
compare_signed-TellsInt false false above x y t h k = omega arith

-- compareTo() of the bytes of two BigInts tells the order of their integers.
pub compare_to-TellsInt :
    (a b : Bytes) → IsBigInt a → IsBigInt b → TellsInt (compare_to a b) (integer a) (integer b)
unfolding compare_to
compare_to-TellsInt a b h k =
    let p = IsBigInt-Parts a h in
    let q = IsBigInt-Parts b k in
    rw (p.is_signed, q.is_signed)
      (compare_signed-TellsInt (is_negative a) (is_negative b)
        (compare_abs_mag (magnitude a) (magnitude b)) _ _
        (compare_abs_mag-Tells (magnitude a) (magnitude b) p.mag q.mag) p.not_zero q.not_zero)
