-- ===== src/MiniNumber/Shows.antt =====
-- The sign and the digits that applyMathContext() of src/types/MiniNumber.cpp takes from the text of
-- a number.
use kiss_vm_interpreter.Prelude.{
  ℕ, ◌+◌, ◌*◌, ◌≡◌, refl, sym, ap, ◌∙◌, subst, Bool, true, false, [], ◌∷◌, Bytes, length, if_ind,
  arith, if◌then◌else◌, ◌==◌,
}
use kiss_vm_interpreter.Prelude.Int.{ℤ, pos, signed}
use kiss_vm_interpreter.BigInt.Signed.{is_zero, is_negative, magnitude}
use kiss_vm_interpreter.BigInt.Compare.{IsMag-AreBytes}
use kiss_vm_interpreter.BigInt.Integer.{integer, IsBigInt}
use kiss_vm_interpreter.BigInt.Refinement.{IsBigInt-Parts}
use kiss_vm_interpreter.BigInt.Signs.{is_zero-value, is_zero-is_negative, integer-nonneg}
use kiss_vm_interpreter.BigInt.Decimal.{decimal_loop, to_decimal_string}
use kiss_vm_interpreter.BigInt.Printed.{dec, AreDigits, decimal_digits}
use kiss_vm_interpreter.MiniNumber.{split_minus}

-- The sign and the digits of an integer.
abbrev pub Shows : ℤ → Bool × Bytes → Type 0
Shows i (negative, s) = AreDigits s × (i ≡ signed negative (dec 0 s))

split_minus-digits : (s : Bytes) → AreDigits s → split_minus s ≡ (false, s)
split_minus-digits [] h = refl
split_minus-digits (c ∷ s) h =
    if_ind (λ r. r ≡ (false, c ∷ s)) (c == b'-') (λ e. absurd (ground arith)) (λ e. refl)

split_minus-Shows :
    (negative : Bool) (s : Bytes)
    → AreDigits s
    → Shows (signed negative (dec 0 s)) (split_minus (if negative then b'-' ∷ s else s))
split_minus-Shows true s h = (h, refl)
split_minus-Shows false s h =
    subst (Shows (signed false (dec 0 s))) (sym (split_minus-digits s h)) (h, refl)

-- The text of an integer.
pub to_decimal_string-Shows :
    (a : Bytes) → IsBigInt a → Shows (integer a) (split_minus (to_decimal_string a))
unfolding to_decimal_string
to_decimal_string-Shows a h =
    let p = IsBigInt-Parts a h in
    let s = decimal_loop (3 * length (magnitude a) + 1) (magnitude a) [] in
    let (d, digits) = decimal_digits (magnitude a) (IsMag-AreBytes (magnitude a) p.mag) in
    if_ind (λ t. Shows (integer a) (split_minus t)) (is_zero a)
      (λ e. (
        (omega arith, omega arith, tt),
        integer-nonneg a (is_zero-is_negative a e)
            ∙ (ap pos ((is_zero-value a).0 e) ∙ unfold dec in refl),
      ))
      (λ e.
        subst (λ i. Shows i (split_minus (if is_negative a then b'-' ∷ s else s)))
          (ap (λ (v : ℕ). signed (is_negative a) v) d ∙ sym p.is_signed)
          (split_minus-Shows (is_negative a) s digits))
