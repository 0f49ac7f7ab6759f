-- ===== src/MiniNumber/Given.antt =====
-- The constructor of class MiniNumber (src/types/MiniNumber.cpp) from bytes and a scale, and the
-- quotients that it is given.
use kiss_vm_interpreter.Prelude.{
  ℕ, ◌+◌, ◌*◌, ◌<◌, ◌≡◌, ◌≢◌, refl, sym, ap, ◌∙◌, subst, Bool, false, [], ◌∷◌, Bytes, Option, none,
  some, length, if_ind, arith, if◌then◌else◌, ltb,
}
use kiss_vm_interpreter.Prelude.Int.{ℤ, pos, negsuc, ◌-ℤ◌, ◌≤ℤ◌, ltb_ℤ, nat_abs}
use kiss_vm_interpreter.BigInt.Value.{value}
use kiss_vm_interpreter.BigInt.Compare.{IsMag, IsMag-AreBytes}
use kiss_vm_interpreter.BigInt.Quotient.{divmod_mag-IsDivision}
use kiss_vm_interpreter.BigInt.Mag.{divmod_mag}
use kiss_vm_interpreter.BigInt.Signed.{is_negative, magnitude, neg, from_java_bytes}
use kiss_vm_interpreter.BigInt.Integer.{integer, IsBigInt}
use kiss_vm_interpreter.BigInt.SignMag.{magnitude-integer}
use kiss_vm_interpreter.BigInt.Operators.{neg-StandsFor}
use kiss_vm_interpreter.BigInt.Decimal.{to_decimal_string, of_decimal}
use kiss_vm_interpreter.BigInt.Digits.{Reads, of_decimal-Reads}
use kiss_vm_interpreter.MiniNumber.{
  MiniNumber, max_digits, max_decimal_places, make, cut_digits, cut_places, abs_divmod, pow10,
  drop_zeros, take, split_minus, with_minus,
}
use kiss_vm_interpreter.MiniNumber.Leading.{AreLeading, drop_zeros-AreLeading, AreDigits-take}
use kiss_vm_interpreter.MiniNumber.Scaled.{pow10-StandsFor, ten_power-pos}
use kiss_vm_interpreter.MiniNumber.Shows.{to_decimal_string-Shows}
use kiss_vm_interpreter.MiniNumber.Arithmetic.{IsNumber}

neg_abs : (i : ℤ) → nat_abs (pos 0 -ℤ i) ≡ nat_abs i
unfolding ◌-ℤ◌
neg_abs i = ground arith

-- The absolute value.
pub absolute :
    (u : Bytes)
    → IsBigInt u
    → let w = if is_negative u then neg u else u in
      IsBigInt w × (nat_abs (integer w) ≡ nat_abs (integer u))
absolute u h =
    if_ind (λ w. IsBigInt w × (nat_abs (integer w) ≡ nat_abs (integer u))) (is_negative u)
      (λ e. let (i, k) = neg-StandsFor u h in (k, ap (λ j. nat_abs j) i ∙ neg_abs (integer u)))
      (λ e. (h, refl))

pub abs_none : (i : ℤ) → nat_abs i ≡ 0 → i ≡ pos 0
abs_none (pos n) e = ap pos (omega arith)
abs_none (negsuc n) e = absurd (omega arith)

-- divmodMag_pub() of an absolute value.
pub abs_divmod-IsDivision :
    (u d : Bytes)
    → IsBigInt u
    → IsBigInt d
    → integer d ≢ pos 0
    → let (q, r) = abs_divmod u d in
      (nat_abs (integer u) ≡ value q * nat_abs (integer d) + value r)
      × (value r < nat_abs (integer d))
      × IsMag q
      × IsMag r
unfolding abs_divmod
abs_divmod-IsDivision u d h k nz =
    let w = if is_negative u then neg u else u in
    let (w_is, w_abs) = absolute u h in
    let p = magnitude-integer w w_is in
    let q = magnitude-integer d k in
    let (e, lt, f, g) =
      divmod_mag-IsDivision (magnitude w) (magnitude d) p.2 q.2
        (λ z. nz (abs_none (integer d) (sym q.0 ∙ z))) in
    (
      sym w_abs
          ∙ (sym p.0
              ∙ (e
                  ∙ ap
                      (λ (n : ℕ).
                        value (divmod_mag (magnitude w) (magnitude d)).0 * n
                        + value (divmod_mag (magnitude w) (magnitude d)).1)
                      q.0)),
      subst (λ (n : ℕ). value (divmod_mag (magnitude w) (magnitude d)).1 < n) q.0 lt,
      f,
      g,
    )

-- No exception, and a number as the operations leave it.
abbrev pub Gives : Option MiniNumber → Type 0
Gives none = ⊥
Gives (some r) = IsNumber r

pub from_java_bytes-IsBigInt : (m : Bytes) → IsMag m → IsBigInt (from_java_bytes m)
unfolding from_java_bytes
from_java_bytes-IsBigInt [] h = absurd h
from_java_bytes-IsBigInt (b ∷ bs) h = IsMag-AreBytes (b ∷ bs) h

pub if-IsBigInt : (c : Bool) (u : Bytes) → IsBigInt u → IsBigInt (if c then neg u else u)
if-IsBigInt c u h = if_ind (λ w. IsBigInt w) c (λ e. (neg-StandsFor u h).1) (λ e. h)

pub pow10-ne : (n : ℕ) → integer (pow10 n) ≢ pos 0
pow10-ne n e =
    absurd (omega (arith, ten_power-pos n, ap (λ i. nat_abs i) (sym (pow10-StandsFor n).0 ∙ e)))

pub abs_quotient-IsBigInt :
    (u d : Bytes)
    → IsBigInt u
    → IsBigInt d
    → integer d ≢ pos 0
    → IsBigInt (from_java_bytes (abs_divmod u d).0)
abs_quotient-IsBigInt u d h k nz =
    let (e, lt, f, g) = abs_divmod-IsDivision u d h k nz in from_java_bytes-IsBigInt _ f

pub ten_quotient-IsBigInt :
    (u : Bytes) (n : ℕ) → IsBigInt u → IsBigInt (from_java_bytes (abs_divmod u (pow10 n)).0)
ten_quotient-IsBigInt u n h = abs_quotient-IsBigInt u (pow10 n) h (pow10-StandsFor n).1 (pow10-ne n)

not_above : (s : ℤ) → ltb_ℤ (pos 44) s ≡ false → s ≤ℤ pos 44
not_above s e = ground arith

cut_places-IsNumber : (u : Bytes) (s : ℤ) → IsBigInt u → IsNumber (cut_places u s)
unfolding cut_places
cut_places-IsNumber u s h =
    if_ind (λ r. IsNumber r) (ltb_ℤ (pos max_decimal_places) s)
      (λ e. record {
        bytes =
            if-IsBigInt (is_negative u) _
              (ten_quotient-IsBigInt u (nat_abs (s -ℤ pos max_decimal_places)) h);
        places = omega arith;
      })
      (λ e. record { bytes = h; places = not_above s e })

Reads-IsBigInt : (b : Bytes) (i : ℤ) → Reads (some b) i → IsBigInt b
Reads-IsBigInt b i h = h.1

read-Gives :
    (o : Option Bytes) (i s : ℤ)
    → Reads o i
    → Gives (elim o [ none ↦ none | some v ↦ some (cut_places v s) ])
read-Gives none i s h = absurd h
read-Gives (some v) i s h = cut_places-IsNumber v s (Reads-IsBigInt v i h)

cut_digits-Gives :
    (n : Bool) (d u : Bytes) (s : ℤ) → AreLeading d → IsBigInt u → Gives (cut_digits n d u s)
unfolding cut_digits
cut_digits-Gives n [] u s lead h = record { bytes = (omega arith, tt); places = omega arith }
cut_digits-Gives n (c ∷ t) u s lead h =
    if_ind (λ r. Gives r) (ltb max_digits (length (c ∷ t)))
      (λ e.
        read-Gives (of_decimal (with_minus n (take max_digits (c ∷ t)))) _ _
          (of_decimal-Reads n (take max_digits (c ∷ t)) (AreDigits-take max_digits (c ∷ t) lead.1)))
      (λ e. cut_places-IsNumber u s h)

-- MiniNumber(BigInt, int) throws nothing.
pub make-Gives : (u : Bytes) (s : ℤ) → IsBigInt u → Gives (make u s)
unfolding make
make-Gives u s h =
    let (negative, t) = split_minus (to_decimal_string u) in
    let (digits, e) = to_decimal_string-Shows u h in
    cut_digits-Gives negative (drop_zeros t) u s (drop_zeros-AreLeading t digits).1 h
