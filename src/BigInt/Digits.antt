-- ===== src/BigInt/Digits.antt =====
-- The decimal text that class BigInt (src/types/MiniNumber.cpp) prints is read back as the integer.
use kiss_vm_interpreter.Prelude.{
  ℕ, zero, suc, ◌+◌, ◌-◌, ◌*◌, ◌/◌, ◌%◌, ◌≤◌, ◌<◌, ◌≡◌, refl, sym, ap, ◌∙◌, subst, Bool, true,
  false, [], ◌∷◌, Option, none, some, Bytes, length, ◌==◌, if◌then◌else◌, if_ind, arith, reverse,
  is_digit, is_space,
}
use kiss_vm_interpreter.Prelude.Int.{ℤ, pos, signed}
use kiss_vm_interpreter.BigInt.Mag.{stripped}
use kiss_vm_interpreter.BigInt.Value.{little, value, AreBytes, AreBytes-reverse}
use kiss_vm_interpreter.BigInt.Sum.{value-reverse}
use kiss_vm_interpreter.BigInt.Compare.{IsMag-AreBytes}
use kiss_vm_interpreter.BigInt.SearchDigit.{stripped-IsMag, value-stripped}
use kiss_vm_interpreter.BigInt.Signed.{is_zero, is_negative, magnitude, with_sign}
use kiss_vm_interpreter.BigInt.Integer.{integer, IsBigInt}
use kiss_vm_interpreter.BigInt.Refinement.{StandsFor, IsBigInt-Parts}
use kiss_vm_interpreter.BigInt.Operators.{with_sign-StandsFor}
use kiss_vm_interpreter.BigInt.Signs.{is_zero-value, is_zero-is_negative, integer-nonneg}
use kiss_vm_interpreter.BigInt.Decimal.{
  decimal_loop, to_decimal_string, carry_bytes, ten_times, parse_digits, skip_space, take_sign,
  of_digits, of_decimal,
}
use kiss_vm_interpreter.BigInt.Printed.{dec, AreDigits, decimal_digits}

carry_bytes-little :
    (f c : ℕ) → c < 256 → (little (carry_bytes (suc f) c) ≡ c) × AreBytes (carry_bytes (suc f) c)
unfolding carry_bytes little
carry_bytes-little zero c h =
    if_ind (λ x. (little x ≡ c) × AreBytes x) (c == 0) (λ e. (ground arith, tt))
      (λ e. (omega arith, (omega arith, tt)))
carry_bytes-little (suc f) c h =
    let z : c / 256 ≡ 0 = omega arith in
    let none_left : (if c / 256 == 0 then [] else (c / 256 % 256) ∷ carry_bytes f (c / 256 / 256))
        ≡ [] =
      rw z refl in
    if_ind (λ x. (little x ≡ c) × AreBytes x) (c == 0) (λ e. (ground arith, tt))
      (λ e.
        subst (λ (x : Bytes). (little ((c % 256) ∷ x) ≡ c) × AreBytes ((c % 256) ∷ x))
          (sym none_left) (omega arith, (omega arith, tt)))

ten_times-little :
    (c : ℕ) (bs : Bytes)
    → AreBytes bs
    → c < 10
    → (little (ten_times c bs) ≡ 10 * little bs + c) × AreBytes (ten_times c bs)
unfolding ten_times little
ten_times-little c [] h lt =
    let (e, k) = carry_bytes-little 3 c (omega arith) in (omega (arith, e), k)
ten_times-little c (b ∷ bs) h lt =
    let (e, k) = ten_times-little ((b * 10 + c) / 256) bs h.1 (omega arith) in
    (omega (arith, e), (omega arith, k))

-- A text of digits that is read behind a magnitude.
abbrev ReadsMag : Option Bytes → ℕ → Type 0
ReadsMag none n = ⊥
ReadsMag (some m) n = (value m ≡ n) × AreBytes m

pub is_digit_lem : (c : ℕ) → 48 ≤ c → c ≤ 57 → is_digit c ≡ true
unfolding is_digit
is_digit_lem c h k = ground arith

parse_digits-ReadsMag :
    (m s : Bytes) → AreBytes m → AreDigits s → ReadsMag (parse_digits m s) (dec (value m) s)
unfolding parse_digits dec
parse_digits-ReadsMag m [] h k = (refl, h)
parse_digits-ReadsMag m (c ∷ s) h (low, high, k) =
    let (e, bytes) = ten_times-little (c - 48) (reverse m) (AreBytes-reverse m h) (omega arith) in
    let m' = reverse (ten_times (c - 48) (reverse m)) in
    let v : value m' ≡ 10 * value m + (c - 48) =
      value-reverse (ten_times (c - 48) (reverse m)) ∙ unfold value in e in
    rw (is_digit_lem c low high) (
      subst (λ (n : ℕ). ReadsMag (parse_digits m' s) (dec n s)) v
        (parse_digits-ReadsMag m' s (AreBytes-reverse _ bytes) k))

-- What the constructor reads: a BigInt that stands for i.
abbrev pub Reads : Option Bytes → ℤ → Type 0
Reads none i = ⊥
Reads (some b) i = StandsFor b i

read_mag :
    (negative : Bool) (o : Option Bytes) (n : ℕ)
    → ReadsMag o n
    → Reads
        (elim o [ none ↦ none | some mag ↦ some (with_sign negative (stripped mag)) ])
        (signed negative n)
read_mag negative none n h = absurd h
read_mag negative (some m) n (e, bytes) =
    subst (λ (v : ℕ). StandsFor (with_sign negative (stripped m)) (signed negative v))
      (value-stripped m ∙ e) (with_sign-StandsFor negative (stripped m) (stripped-IsMag m bytes))

no_digits : (negative : Bool) → pos 0 ≡ signed negative 0
no_digits true = ground arith
no_digits false = refl

of_digits-Reads :
    (negative : Bool) (s : Bytes)
    → AreDigits s
    → Reads (of_digits negative s) (signed negative (dec 0 s))
of_digits-Reads negative [] h =
    unfold dec in (unfold integer value little in no_digits negative, (omega arith, tt))
of_digits-Reads negative (c ∷ s) h =
    let zero_value : value (0 ∷ []) ≡ 0 = unfold value little in refl in
    read_mag negative (parse_digits (0 ∷ []) (c ∷ s)) _ (
      subst (λ (n : ℕ). ReadsMag (parse_digits (0 ∷ []) (c ∷ s)) (dec n (c ∷ s))) zero_value
        (parse_digits-ReadsMag (0 ∷ []) (c ∷ s) (omega arith, tt) h))

pub digit_first :
    (c : ℕ) → 48 ≤ c → c ≤ 57 → (is_space c ≡ false) × (c == 45 ≡ false) × (c == 43 ≡ false)
unfolding is_space
digit_first c h k = (ground arith, ground arith, ground arith)

of_decimal-digits : (s : Bytes) → AreDigits s → of_decimal s ≡ of_digits false s
unfolding of_decimal skip_space take_sign
of_decimal-digits [] h = refl
of_decimal-digits (c ∷ s) h = let (x, y, z) = digit_first c h.0 h.1 in rw (x, y, z) refl

of_decimal-minus : (s : Bytes) → AreDigits s → of_decimal (b'-' ∷ s) ≡ of_digits true s
unfolding of_decimal skip_space take_sign is_space
of_decimal-minus s h = refl

-- A text of digits, with or without a minus in front, is read as that integer.
pub of_decimal-Reads :
    (negative : Bool) (s : Bytes)
    → AreDigits s
    → Reads (of_decimal (if negative then b'-' ∷ s else s)) (signed negative (dec 0 s))
of_decimal-Reads true s h =
    subst (λ (o : Option Bytes). Reads o (signed true (dec 0 s))) (sym (of_decimal-minus s h))
      (of_digits-Reads true s h)
of_decimal-Reads false s h =
    subst (λ (o : Option Bytes). Reads o (signed false (dec 0 s))) (sym (of_decimal-digits s h))
      (of_digits-Reads false s h)

-- The text that toDecimalString() prints of the bytes of a BigInt is read back, without an exception, as
-- a BigInt with the same integer.
pub of_decimal-to_decimal_string :
    (a : Bytes) → IsBigInt a → Reads (of_decimal (to_decimal_string a)) (integer a)
unfolding to_decimal_string
of_decimal-to_decimal_string a h =
    let zero_text : pos (dec 0 (48 ∷ [])) ≡ pos 0 = unfold dec in refl in
    let p = IsBigInt-Parts a h in
    let (d, digits) = decimal_digits (magnitude a) (IsMag-AreBytes (magnitude a) p.mag) in
    if_ind (λ t. Reads (of_decimal t) (integer a)) (is_zero a)
      (λ e.
        subst (λ i. Reads (of_decimal (48 ∷ [])) i)
          (zero_text
            ∙ sym (integer-nonneg a (is_zero-is_negative a e) ∙ ap pos ((is_zero-value a).0 e)))
          (of_decimal-Reads false (48 ∷ []) (omega arith, omega arith, tt)))
      (λ e.
        subst
          (λ i.
            Reads
              (of_decimal (
                if is_negative a
                then b'-' ∷ decimal_loop (3 * length (magnitude a) + 1) (magnitude a) []
                else decimal_loop (3 * length (magnitude a) + 1) (magnitude a) []))
              i)
          (ap (λ (v : ℕ). signed (is_negative a) v) d ∙ sym p.is_signed)
          (of_decimal-Reads (is_negative a) _ digits))
