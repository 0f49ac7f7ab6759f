-- ===== src/MiniNumber/Context.antt =====
-- applyMathContext() of class MiniNumber (src/types/MiniNumber.cpp) cuts a number to its first 64
-- digits.
use kiss_vm_interpreter.Prelude.{
  ℕ, ◌+◌, ◌-◌, ◌*◌, ◌≤◌, ◌<◌, ◌≡◌, ◌≢◌, ◌⊎◌, inl, inr, refl, sym, ap, ◌∙◌, subst, Bool, Bool-cases,
  leb, true, false, [], ◌∷◌, Bytes, Option, none, some, length, if_ind, arith, ltb,
}
use kiss_vm_interpreter.Prelude.Int.{
  ℤ, pos, negsuc, ◌-ℤ◌, ◌≤ℤ◌, ltb_ℤ, is_neg, nat_abs, signed, int_of,
}
use kiss_vm_interpreter.BigInt.Integer.{integer, IsBigInt}
use kiss_vm_interpreter.BigInt.Decimal.{to_decimal_string, of_decimal}
use kiss_vm_interpreter.BigInt.Digits.{Reads, of_decimal-Reads}
use kiss_vm_interpreter.BigInt.Printed.{dec, ten_power}
use kiss_vm_interpreter.MiniNumber.{
  MiniNumber, max_digits, max_decimal_places, drop_zeros, take, drop, split_minus, with_minus,
  cut_places, cut_digits, make,
}
use kiss_vm_interpreter.MiniNumber.Scaled.{ten_power-pos}
use kiss_vm_interpreter.MiniNumber.Room.{ten_power_le, HasRoom, lowered_scale}
use kiss_vm_interpreter.MiniNumber.Leading.{
  AreLeading, drop_zeros-AreLeading, dec-lt, leading-ge, dec-take, AreDigits-take, AreDigits-drop,
  length-take, length-drop,
}
use kiss_vm_interpreter.MiniNumber.Shows.{to_decimal_string-Shows}

-- The number with the exact value v at the scale s is r, after its digits behind the first 64 were
-- cut off.
pub record IsRounded (v s : ℤ) (r : MiniNumber) : Type 0 where
  pub dropped : ℕ
  pub rest : ℕ
  pub number : nat_abs v ≡ nat_abs (integer r.unscaled) * ten_power dropped + rest
  pub less : rest < ten_power dropped
  pub sign : is_neg (integer r.unscaled) ≡ is_neg v
  pub scale : r.scale ≡ s -ℤ pos dropped
  pub fits : nat_abs (integer r.unscaled) < ten_power max_digits
  pub full : (dropped ≡ 0) ⊎ (ten_power 63 ≤ nat_abs (integer r.unscaled))
  pub bytes : IsBigInt r.unscaled

-- A result that is rounded so, and no exception.
abbrev pub RoundsTo : ℤ → ℤ → Option MiniNumber → Type 0
RoundsTo v s none = ⊥
RoundsTo v s (some r) = IsRounded v s r

pub nat_abs-signed : (n : Bool) (v : ℕ) → nat_abs (signed n v) ≡ v
nat_abs-signed true v = ground arith
nat_abs-signed false v = omega arith

is_neg-signed : (n : Bool) (v : ℕ) → 0 < v → is_neg (signed n v) ≡ n
is_neg-signed true v h = ground arith
is_neg-signed false v h = refl

-- Without places too many cut_places() changes nothing.
cut_places_lem :
    (u : Bytes) (s : ℤ) → s ≤ℤ pos 44 → cut_places u s ≡ record { unscaled = u; scale = s }
unfolding cut_places
cut_places_lem u s h =
    if_ind (λ r. r ≡ record { unscaled = u; scale = s }) (ltb_ℤ (pos max_decimal_places) s)
      (λ e. absurd (ground arith)) (λ e. refl)

lower_scale : (s : ℤ) (k : ℕ) → s ≤ℤ pos 44 → (s -ℤ pos k) ≤ℤ pos 44
unfolding ◌-ℤ◌
lower_scale s k h = ground arith

same_scale : (s : ℤ) → s ≡ s -ℤ pos 0
unfolding ◌-ℤ◌
same_scale (pos n) = ground arith
same_scale (negsuc n) = ground arith

one_power : (n : ℕ) → n ≡ n * ten_power 0 + 0
unfolding ten_power
one_power n = omega arith

zero_less : 0 < ten_power 0
unfolding ten_power
zero_less = omega arith

-- No digit is cut off.
whole-IsRounded :
    (u : Bytes) (s : ℤ)
    → IsBigInt u
    → nat_abs (integer u) < ten_power max_digits
    → IsRounded (integer u) s (record { unscaled = u; scale = s })
whole-IsRounded u s h lt = record {
  dropped = 0;
  rest = 0;
  number = one_power (nat_abs (integer u));
  less = zero_less;
  sign = refl;
  scale = same_scale s;
  fits = lt;
  full = inl refl;
  bytes = h;
}

-- The digits c ∷ t are cut to 64.
cut-RoundsTo :
    (n : Bool) (c : ℕ) (t : Bytes) (s : ℤ) (k : ℕ) (o : Option Bytes)
    → AreLeading (c ∷ t)
    → s ≤ℤ pos 44
    → length (c ∷ t) ≡ max_digits + k
    → int_of (s -ℤ pos k) ≡ s -ℤ pos k
    → Reads o (signed n (dec 0 (take max_digits (c ∷ t))))
    → RoundsTo
        (signed n (dec 0 (c ∷ t)))
        s
        (elim o [ none ↦ none | some v ↦ some (cut_places v (int_of (s -ℤ pos k))) ])
cut-RoundsTo n c t s k none lead h l w r = absurd r
cut-RoundsTo n c t s k (some b) lead h l w (e, bytes) =
    let x = dec 0 (take max_digits (c ∷ t)) in
    let all = dec-take 0 max_digits k (c ∷ t) l in
    let abs_b : nat_abs (integer b) ≡ x = ap (λ i. nat_abs i) e ∙ nat_abs-signed n x in
    let size = length-take max_digits (c ∷ t) (omega (arith, l)) in
    let size' : length (take 63 t) ≡ 63 = omega (arith, size) in
    let lt : x < ten_power max_digits =
      subst (λ (m : ℕ). x < ten_power m) size
        (dec-lt (take max_digits (c ∷ t)) (AreDigits-take max_digits (c ∷ t) lead.1)) in
    let ge : ten_power 63 ≤ x =
      subst (λ (m : ℕ). ten_power m ≤ x) size'
        (leading-ge c (take 63 t) (lead.0, AreDigits-take max_digits (c ∷ t) lead.1)) in
    let x_pos : 0 < x = omega (arith, ge, ten_power-pos 63) in
    let v_pos : 0 < dec 0 (c ∷ t) = omega (arith, leading-ge c t lead, ten_power-pos (length t)) in
    subst (IsRounded (signed n (dec 0 (c ∷ t))) s)
      (sym (ap (λ i. cut_places b i) w ∙ cut_places_lem b (s -ℤ pos k) (lower_scale s k h)))
      (record {
        dropped = k;
        rest = dec 0 (drop max_digits (c ∷ t));
        number =
            nat_abs-signed n (dec 0 (c ∷ t))
            ∙ (all ∙ ap (λ (m : ℕ). m * ten_power k + dec 0 (drop max_digits (c ∷ t))) (sym abs_b));
        less =
            subst (λ (m : ℕ). dec 0 (drop max_digits (c ∷ t)) < ten_power m)
              (length-drop max_digits k (c ∷ t) l)
              (dec-lt (drop max_digits (c ∷ t)) (AreDigits-drop max_digits (c ∷ t) lead.1));
        sign =
            ap (λ i. is_neg i) e
            ∙ (is_neg-signed n x x_pos ∙ sym (is_neg-signed n (dec 0 (c ∷ t)) v_pos));
        scale = refl;
        fits = subst (λ (m : ℕ). m < ten_power max_digits) (sym abs_b) lt;
        full = inr (subst (λ (m : ℕ). ten_power 63 ≤ m) (sym abs_b) ge);
        bytes = bytes;
      })

zero_signed : (n : Bool) {v : ℕ} → v ≡ 0 → signed n v ≡ pos 0
zero_signed true h = ground arith
zero_signed false h = ap pos h

-- As many digits are cut as there are, at most.
digits_room :
    (c : ℕ) (t : Bytes) (m : ℕ) → AreLeading (c ∷ t) → dec 0 (c ∷ t) < ten_power m → length t < m
digits_room c t m lead lt = elim (Bool-cases (leb m (length t))) [
  | inl e ↦
      absurd (omega (arith, lt, leading-ge c t lead, ten_power_le m (length t) (ground arith)))
  | inr e ↦ ground arith
]

cut_digits-RoundsTo :
    (n : Bool) (d u : Bytes) (s : ℤ)
    → AreLeading d
    → IsBigInt u
    → integer u ≢ pos 0
    → integer u ≡ signed n (dec 0 d)
    → s ≤ℤ pos 44
    → HasRoom (integer u) s
    → RoundsTo (integer u) s (cut_digits n d u s)
unfolding cut_digits
cut_digits-RoundsTo n [] u s lead h nz e le room =
    absurd (nz (e ∙ zero_signed n (unfold dec in refl)))
cut_digits-RoundsTo n (c ∷ t) u s lead h nz e le (m, lt, room) =
    if_ind (λ r. RoundsTo (integer u) s r) (ltb max_digits (length (c ∷ t)))
      (λ b.
        subst
          (λ i. RoundsTo i s (elim (of_decimal (with_minus n (take max_digits (c ∷ t)))) [
            | none ↦ none
            | some v ↦ some (cut_places v (int_of (s -ℤ pos (length (c ∷ t) - max_digits))))
          ]))
          (sym e)
          (cut-RoundsTo n c t s (length (c ∷ t) - max_digits)
            (of_decimal (with_minus n (take max_digits (c ∷ t)))) lead le (ground arith)
            (lowered_scale s (length (c ∷ t) - max_digits) m le
              (omega (
                arith,
                digits_room c t m lead
                    (omega (arith, lt, ap (λ i. nat_abs i) e, nat_abs-signed n (dec 0 (c ∷ t)))),
              ))
              room)
            (of_decimal-Reads n (take max_digits (c ∷ t))
              (AreDigits-take max_digits (c ∷ t) lead.1))))
      (λ b.
        let small : length (c ∷ t) ≤ max_digits = ground arith in
        subst (IsRounded (integer u) s) (sym (cut_places_lem u s le)) (
          whole-IsRounded u s h (
            omega (
              arith,
              dec-lt (c ∷ t) lead.1,
              ten_power_le _ _ small,
              ap (λ i. nat_abs i) e,
              nat_abs-signed n (dec 0 (c ∷ t)),
            ))))

-- MiniNumber(BigInt, int) of the bytes of a BigInt that is not zero, with a scale of at most 44, throws
-- nothing and keeps the first 64 digits; as many as it drops, the scale goes down. The value has less
-- digits than the scale can go down before it leaves an int.
pub make-RoundsTo :
    (u : Bytes) (s : ℤ)
    → IsBigInt u
    → integer u ≢ pos 0
    → s ≤ℤ pos 44
    → HasRoom (integer u) s
    → RoundsTo (integer u) s (make u s)
unfolding make
make-RoundsTo u s h nz le room =
    let (negative, t) = split_minus (to_decimal_string u) in
    let (digits, e) = to_decimal_string-Shows u h in
    let (same, lead) = drop_zeros-AreLeading t digits in
    cut_digits-RoundsTo negative (drop_zeros t) u s lead h nz
      (e ∙ ap (λ (v : ℕ). signed negative v) (sym same)) le room
