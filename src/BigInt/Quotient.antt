-- ===== src/BigInt/Quotient.antt =====
-- divmodMag() of class BigInt (src/types/MiniNumber.cpp) divides with remainder.
use kiss_vm_interpreter.Prelude.{
  ℕ, suc, ◌+◌, ◌*◌, ◌≤◌, ◌<◌, ◌≡◌, ◌≢◌, refl, sym, ap, ◌∙◌, [], ◌∷◌, ◌++◌, Bytes, length, ltb,
  if_ind, arith,
}
use kiss_vm_interpreter.BigInt.Mag.{
  Order, below, equal, above, compare_abs_mag, mul_mag, div_digit, next_rem, divmod_loop,
  divmod_long, divmod_mag, stripped,
}
use kiss_vm_interpreter.BigInt.Value.{
  little, value, base, AreBytes, AreBytes-append, value-cons, value-snoc,
}
use kiss_vm_interpreter.BigInt.Sum.{value-sub_mag, sub_mag-AreBytes}
use kiss_vm_interpreter.BigInt.Compare.{
  IsMag, IsMag-AreBytes, Tells, compare_abs_mag-Tells, longer-ge,
}
use kiss_vm_interpreter.BigInt.SearchDigit.{
  value-stripped, stripped-IsMag, mul_mag-IsMag, value-digit, digit_product, div_digit-IsDigit,
}

-- What is left of a remainder after the digit.
next_rem-value :
    (b rem : Bytes) (lo : ℕ)
    → IsMag b
    → IsMag rem
    → lo ≤ 255
    → lo * value b ≤ value rem
    → (value (next_rem b rem lo) + lo * value b ≡ value rem) × AreBytes (next_rem b rem lo)
unfolding next_rem
next_rem-value b rem lo hb hr top le =
    let p = digit_product b lo hb top in
    let t = mul_mag-IsMag b (lo ∷ []) (IsMag-AreBytes b hb) (omega arith, tt) in
    if_ind (λ r. (value r + lo * value b ≡ value rem) × AreBytes r) (ltb 0 lo)
      (λ e. (
        omega (
          arith,
          p,
          value-sub_mag rem (mul_mag b (lo ∷ [])) (IsMag-AreBytes rem hr) (IsMag-AreBytes _ t)
              (longer-ge (mul_mag b (lo ∷ [])) rem t hr (omega (arith, p))) (omega (arith, p)),
        ),
        sub_mag-AreBytes rem (mul_mag b (lo ∷ [])) (IsMag-AreBytes rem hr) (IsMag-AreBytes _ t),
      ))
      (λ e. let z : lo ≡ 0 = ground arith in (grind arith, IsMag-AreBytes rem hr))

-- The quotient's digits and the remainder of the bytes a behind a remainder.
record Division (b a rem q out : Bytes) : Type 0 where
  size : length q ≡ length a
  digits : AreBytes q
  bytes : AreBytes out
  less : value out < value b
  number : value rem * base (length a) + value a ≡ value q * value b + value out

division_number :
    (rem d r left lo p b va vq out : ℕ)
    → r ≡ d + 256 * rem
    → left + lo * b ≡ r
    → left * p + va ≡ vq * b + out
    → rem * (256 * p) + (d * p + va) ≡ (lo * p + vq) * b + out
division_number rem d r left lo p b va vq out e f g =
    let h : (left + lo * b) * p ≡ (d + 256 * rem) * p = ap (λ (n : ℕ). n * p) (f ∙ e) in
    grind (arith, h, g)

-- One more digit in front.
division_step :
    (rem d r left lo b out : ℕ) (a q : Bytes)
    → length q ≡ length a
    → r ≡ d + 256 * rem
    → left + lo * b ≡ r
    → left * base (length a) + value a ≡ value q * b + out
    → rem * base (length (d ∷ a)) + value (d ∷ a) ≡ value (lo ∷ q) * b + out
division_step rem d r left lo b out a q l e f g =
    let first = value-cons d a in
    let second : value (lo ∷ q) ≡ lo * base (length a) + value q =
      value-cons lo q ∙ ap (λ (n : ℕ). lo * base n + value q) l in
    unfold base in
    ap (λ (n : ℕ). rem * (256 * base (length a)) + n) first
    ∙ (division_number rem d r left lo (base (length a)) b (value a) (value q) out e f g
        ∙ ap (λ (n : ℕ). n * b + out) (sym second))

divmod_loop-Division :
    (b a rem : Bytes)
    → IsMag b
    → AreBytes a
    → AreBytes rem
    → value rem < value b
    → Division b a rem (divmod_loop b a rem).0 (divmod_loop b a rem).1
unfolding divmod_loop
divmod_loop-Division b [] rem hb ha hr lt = record {
  size = refl;
  digits = tt;
  bytes = hr;
  less = lt;
  number = unfold value little base in omega arith;
}
divmod_loop-Division b (d ∷ a) rem hb ha hr lt =
    let r = stripped (rem ++ d ∷ []) in
    let r_is : value r ≡ d + 256 * value rem = value-stripped (rem ++ d ∷ []) ∙ value-snoc rem d in
    let mag = stripped-IsMag (rem ++ d ∷ []) (AreBytes-append rem (d ∷ []) hr (ha.0, tt)) in
    let (top, low, high) = div_digit-IsDigit b r hb mag (omega (arith, r_is, ha.0)) in
    let lo = div_digit b r in
    let (left, bytes) = next_rem-value b r lo hb mag top low in
    let rest =
      divmod_loop-Division b a (next_rem b r lo) hb ha.1 bytes (grind (arith, left, high)) in
    record {
      size = ap (λ (n : ℕ). suc n) rest.size;
      digits = (omega arith, rest.digits);
      bytes = rest.bytes;
      less = rest.less;
      number =
          division_step (value rem) d (value r) (value (next_rem b r lo)) lo (value b) _ a _
            rest.size r_is left rest.number;
    }

-- Quotient and remainder, as magnitudes.
abbrev pub IsDivision : Bytes → Bytes → Bytes × Bytes → Type 0
IsDivision a b (q, rem) =
    (value a ≡ value q * value b + value rem) × (value rem < value b) × IsMag q × IsMag rem

divmod_long-IsDivision :
    (a b : Bytes) → IsMag a → IsMag b → value b ≢ 0 → IsDivision a b (divmod_long a b)
unfolding divmod_long
divmod_long-IsDivision a b ha hb h =
    let start : value [] ≡ 0 = unfold value little in refl in
    let d = divmod_loop-Division b a [] hb (IsMag-AreBytes a ha) tt (omega arith) in
    let q = (divmod_loop b a []).0 in
    let out = (divmod_loop b a []).1 in
    let n = d.number in
    (
      grind (arith, start, value-stripped q, value-stripped out, n),
      omega (arith, value-stripped out, d.less),
      stripped-IsMag q d.digits,
      stripped-IsMag out d.bytes,
    )

divmod-IsDivision :
    (a b : Bytes) (o : Order)
    → Tells o (value a) (value b)
    → IsMag a
    → IsMag b
    → value b ≢ 0
    → IsDivision a b
        (elim o [ below ↦ (0 ∷ [], a) | equal ↦ divmod_long a b | above ↦ divmod_long a b ])
divmod-IsDivision a b below t ha hb h =
    let z = value-digit 0 in (grind (arith, z), t, omega arith, ha)
divmod-IsDivision a b equal t ha hb h = divmod_long-IsDivision a b ha hb h
divmod-IsDivision a b above t ha hb h = divmod_long-IsDivision a b ha hb h

-- divmodMag() of two magnitudes, the second not zero, gives the quotient and the remainder of their
-- numbers, the remainder below the divisor, and both as magnitudes.
pub divmod_mag-IsDivision :
    (a b : Bytes) → IsMag a → IsMag b → value b ≢ 0 → IsDivision a b (divmod_mag a b)
unfolding divmod_mag
divmod_mag-IsDivision a b ha hb h =
    divmod-IsDivision a b (compare_abs_mag a b) (compare_abs_mag-Tells a b ha hb) ha hb h
