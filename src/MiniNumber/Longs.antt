-- ===== src/MiniNumber/Longs.antt =====
-- The numbers of class MiniNumber (src/types/MiniNumber.cpp) that are made of an int64_t.
use kiss_vm_interpreter.Prelude.{
  ℕ, zero, suc, ◌+◌, ◌-◌, ◌*◌, ◌/◌, ◌%◌, ◌<◌, ◌≡◌, refl, sym, ap, ◌∙◌, Bool, true, false, ◌&&◌, [],
  ◌∷◌, Bytes, none, some, length, if_ind, arith, if◌then◌else◌, ◌==◌, is_digit, is_space,
}
use kiss_vm_interpreter.Prelude.Int.{ℤ, pos, negsuc, ◌≤ℤ◌, leb_ℤ, is_neg, nat_abs, signed}
use kiss_vm_interpreter.BigInt.Value.{value, little, base, AreBytes, value-cons}
use kiss_vm_interpreter.BigInt.Compare.{IsMag-AreBytes}
use kiss_vm_interpreter.BigInt.Signed.{is_zero, is_negative, magnitude, long_bytes}
use kiss_vm_interpreter.BigInt.Integer.{integer, IsBigInt}
use kiss_vm_interpreter.BigInt.SignMag.{from_sign_mag-integer}
use kiss_vm_interpreter.BigInt.Refinement.{StandsFor, IsBigInt-Parts, signed_parts}
use kiss_vm_interpreter.BigInt.Signs.{
  is_zero-value, is_zero-is_negative, integer-nonneg, magnitude-pos,
}
use kiss_vm_interpreter.BigInt.Decimal.{decimal_loop, to_decimal_string, skip_space, take_sign}
use kiss_vm_interpreter.BigInt.Digits.{is_digit_lem, digit_first}
use kiss_vm_interpreter.BigInt.Printed.{dec, AreDigits, decimal_digits}
use kiss_vm_interpreter.MiniNumber.{of_ℤ, of_long}
use kiss_vm_interpreter.MiniNumber.Text.{digits_number, strtol, in_range, stoll}
use kiss_vm_interpreter.MiniNumber.Derived.{or_zero_long, get_as_long}

long_step : (u p v q w : ℕ) → q ≡ 256 * p → w ≡ u % 256 * p + v → u / 256 * q + w ≡ u * p + v
long_step u p v q w e f =
    let d : u ≡ 256 * (u / 256) + u % 256 = omega arith in
    let m : u * p ≡ (256 * (u / 256) + u % 256) * p = ap (λ (n : ℕ). n * p) d in
    let n : u / 256 * q ≡ u / 256 * (256 * p) = ap (λ (x : ℕ). u / 256 * x) e in
    grind (arith, f, m, n)

-- The bytes of a number below 256 ^ f, in front of others.
long_bytes-value :
    (f u : ℕ) (m : Bytes)
    → AreBytes m
    → u < base f
    → (value (long_bytes f u m) ≡ u * base (length m) + value m) × AreBytes (long_bytes f u m)
unfolding long_bytes
long_bytes-value zero u m h lt = let z : u ≡ 0 = unfold base in omega arith in (grind (arith, z), h)
long_bytes-value (suc f) u m h lt =
    let big : base (suc f) ≡ 256 * base f = unfold base in refl in
    let more : base (length ((u % 256) ∷ m)) ≡ 256 * base (length m) = unfold base in refl in
    let (e, k) =
      long_bytes-value f (u / 256) ((u % 256) ∷ m) (omega arith, h) (omega (arith, big)) in
    let c = value-cons (u % 256) m in
    if_ind (λ r. (value r ≡ u * base (length m) + value m) × AreBytes r) (u == 0)
      (λ z. let n : u ≡ 0 = ground arith in (grind (arith, n), h))
      (λ z. (e ∙ long_step u (base (length m)) (value m) _ _ more c, k))

eight_bytes : base 8 ≡ 18446744073709551616
unfolding base
eight_bytes = refl

some_value : (i : ℤ) → nat_abs i == 0 ≡ false → 0 < nat_abs i
some_value i e = ground arith

no_value : (i : ℤ) → nat_abs i == 0 ≡ true → pos 0 ≡ i
no_value (pos n) e = ap pos (ground arith)
no_value (negsuc n) e = absurd (ground arith)

-- BigInt(int64_t) stands for its argument.
pub of_ℤ-StandsFor : (i : ℤ) → nat_abs i < 18446744073709551616 → StandsFor (of_ℤ i) i
of_ℤ-StandsFor i lt =
    let v = nat_abs i in
    let one_more : v * base (length {A = ℕ} []) + value [] ≡ v =
      unfold base value little in omega arith in
    if_ind (λ r. StandsFor r i) (v == 0)
      (λ e. (unfold integer value little in no_value i e, (omega arith, tt)))
      (λ e.
        let (w, bytes) = long_bytes-value 8 v [] tt (omega (arith, eight_bytes)) in
        let n : value (long_bytes 8 v []) ≡ v = w ∙ one_more in
        let (j, out) =
          from_sign_mag-integer (is_neg i) (long_bytes 8 v []) bytes
            (λ _. omega (arith, n, some_value i e)) in
        (j ∙ (ap (λ (x : ℕ). signed (is_neg i) x) n ∙ sym (signed_parts i)), out))

digits_number-dec : (n : ℕ) (s : Bytes) → AreDigits s → digits_number n s ≡ dec n s
unfolding digits_number dec
digits_number-dec n [] h = refl
digits_number-dec n (c ∷ s) h =
    rw (is_digit_lem c h.0 h.1) (digits_number-dec (10 * n + (c - 48)) s h.2)

read_digits :
    (n : Bool) (c : ℕ) (s : Bytes)
    → AreDigits (c ∷ s)
    → (if is_digit c then some (signed n (digits_number 0 (c ∷ s))) else none)
      ≡ some (signed n (dec 0 (c ∷ s)))
read_digits n c s h =
    if_ind (λ r. r ≡ some (signed n (dec 0 (c ∷ s)))) (is_digit c)
      (λ e. ap (λ (v : ℕ). some (signed n v)) (digits_number-dec 0 (c ∷ s) h))
      (λ e. absurd (cc (e, is_digit_lem c h.0 h.1)))

-- The digits of a number that is not zero.
strtol-digits : (s : Bytes) → AreDigits s → 0 < dec 0 s → strtol s ≡ some (pos (dec 0 s))
unfolding strtol skip_space take_sign
strtol-digits [] h p = absurd (unfold dec in omega arith)
strtol-digits (c ∷ s) h p =
    let (x, y, z) = digit_first c h.0 h.1 in rw (x, y, z) (read_digits false c s h)

strtol-minus :
    (s : Bytes) → AreDigits s → 0 < dec 0 s → strtol (b'-' ∷ s) ≡ some (signed true (dec 0 s))
unfolding strtol skip_space take_sign is_space
strtol-minus [] h p = absurd (unfold dec in omega arith)
strtol-minus (c ∷ s) h p = read_digits true c s h

strtol_zero : strtol (48 ∷ []) ≡ some (pos 0)
unfolding strtol skip_space take_sign is_space is_digit digits_number
strtol_zero = refl

signs : (n : Bool) {m : Bool} {v w : ℕ} {i : ℤ} → m ≡ n → v ≡ w → i ≡ signed m w → signed n v ≡ i
signs n e f g = cc (e, f, g)

-- std::strtol of the text of a BigInt.
strtol-to_decimal_string :
    (a : Bytes) → IsBigInt a → strtol (to_decimal_string a) ≡ some (integer a)
unfolding to_decimal_string
strtol-to_decimal_string a h =
    let p = IsBigInt-Parts a h in
    let s = decimal_loop (3 * length (magnitude a) + 1) (magnitude a) [] in
    let (d, digits) = decimal_digits (magnitude a) (IsMag-AreBytes (magnitude a) p.mag) in
    if_ind (λ t. strtol t ≡ some (integer a)) (is_zero a)
      (λ e.
        strtol_zero
        ∙ ap (λ (i : ℤ). some i)
            (sym (integer-nonneg a (is_zero-is_negative a e) ∙ ap pos ((is_zero-value a).0 e))))
      (λ e.
        let v = magnitude-pos a h e in
        if_ind (λ t. strtol t ≡ some (integer a)) (is_negative a)
          (λ n.
            strtol-minus s digits (omega (arith, d, v))
            ∙ ap (λ (i : ℤ). some i) (signs true n d p.is_signed))
          (λ n.
            strtol-digits s digits (omega (arith, d, v))
            ∙ ap (λ (i : ℤ). some i) (signs false n d p.is_signed)))

-- An int64_t.
abbrev pub IsLong : ℤ → Type 0
IsLong i = (i ≤ℤ pos 9223372036854775807) × (negsuc 9223372036854775807 ≤ℤ i)

long_abs : (i : ℤ) → IsLong i → nat_abs i < 18446744073709551616
long_abs (pos n) h = omega arith
long_abs (negsuc n) h = omega arith

in_range_lem : (i : ℤ) → IsLong i → in_range 9223372036854775807 (some i) ≡ some i
unfolding in_range
in_range_lem i h =
    if_ind (λ r. r ≡ some i)
      (leb_ℤ i (pos 9223372036854775807) && leb_ℤ (negsuc 9223372036854775807) i) (λ e. refl)
      (λ e. absurd (ground arith))

-- getAsLong() of a number that was made of an int64_t gives that int64_t.
pub get_as_long-of_long : (i : ℤ) → IsLong i → get_as_long (of_long i) ≡ i
unfolding get_as_long stoll
get_as_long-of_long i h =
    let (e, k) = of_ℤ-StandsFor i (long_abs i h) in
    ap or_zero_long (
      ap (in_range 9223372036854775807)
        (strtol-to_decimal_string (of_ℤ i) k ∙ ap (λ (j : ℤ). some j) e)
      ∙ in_range_lem i h)
