-- ===== src/MiniNumber/Derived.antt =====
-- The operations of class MiniNumber (src/types/MiniNumber.cpp) that use the arithmetic: increment(),
-- decrement(), pow(), sqrt(), setSignificantDigits(), getAsLong() and toBytes().
use kiss_vm_interpreter.Prelude.{
  ℕ, zero, suc, ◌-◌, ◌/◌, ◌%◌, Bool, true, false, ◌||◌, [], ◌∷◌, Option, none, some, Bytes, length,
  leb, ◌==◌, if◌then◌else◌,
}
use kiss_vm_interpreter.Prelude.Int.{ℤ, pos, pos_part, int_of, ◌-ℤ◌, ltb_ℤ, is_neg}
use kiss_vm_interpreter.BigInt.Mag.{Order, equal, strip_leading_zeros}
use kiss_vm_interpreter.BigInt.Signed
use kiss_vm_interpreter.BigInt.Signed.{is_zero, is_negative, neg, from_java_bytes}
use kiss_vm_interpreter.BigInt.Decimal.{to_decimal_string, of_decimal}
use kiss_vm_interpreter.MiniNumber.{
  MiniNumber, max_digits, make, pow10, drop_zeros, take, split_minus, with_minus, abs_divmod,
  of_long, add, sub, mult, div, compare_to,
}
use kiss_vm_interpreter.MiniNumber.Text.{stoll, and_make}

-- MiniNumber::ONE and TWO
abbrev pub one : MiniNumber
one = record { unscaled = 1 ∷ []; scale = pos 0 }

abbrev pub two : MiniNumber
two = record { unscaled = 2 ∷ []; scale = pos 0 }

unfoldable pub increment : MiniNumber → Option MiniNumber
unfolding add
increment a = add a one

unfoldable pub decrement : MiniNumber → Option MiniNumber
unfolding sub
decrement a = sub a one

-- A result that the next operation takes.
abbrev pub and_then : {A B : Type 0} → Option A → (A → Option B) → Option B
and_then none f = none
and_then (some a) f = f a

-- The loop of pow(). An int has 31 bits, so 31 rounds use up the exponent.
unfoldable pub pow_loop : ℕ → ℕ → MiniNumber → MiniNumber → Option MiniNumber
unfolding mult
pow_loop zero n r base = some r
pow_loop (suc f) n r base =
    if n == 0
    then some r
    else and_then (if n % 2 == 1 then mult r base else some r) (λ (r' : MiniNumber).
      and_then (mult base base) (λ (b : MiniNumber). pow_loop f (n / 2) r' b))

unfoldable pub pow : MiniNumber → ℤ → Option MiniNumber
unfolding pow_loop
pow a n = pow_loop 31 (pos_part n) one a

-- The loop of sqrt(), 200 rounds of Newton's method; it ends when a round changes nothing.
abbrev pub is_equal : Order → Bool
is_equal equal = true
is_equal _ = false

unfoldable pub sqrt_loop : ℕ → MiniNumber → MiniNumber → Option MiniNumber
unfolding add div compare_to
sqrt_loop zero a x = some x
sqrt_loop (suc f) a x = and_then (div a x) (λ (d : MiniNumber).
    and_then (add x d) (λ (s : MiniNumber). and_then (div s two) (λ (next : MiniNumber).
      let more = sqrt_loop f a next in if is_equal (compare_to next x) then some x else more)))

unfoldable pub sqrt : MiniNumber → Option MiniNumber
unfolding sqrt_loop is_negative is_zero
sqrt a =
    if is_negative a.unscaled
    then none
    else if is_zero a.unscaled
    then some (of_long (pos 0))
    else sqrt_loop 200 a a

-- setSignificantDigits()
abbrev pub first_digits : MiniNumber → ℕ → Bool → Bytes → Option MiniNumber
first_digits a n negative [] = some (of_long (pos 0))
first_digits a n negative (c ∷ s) =
    if leb (length (c ∷ s)) n
    then some a
    else and_make (of_decimal (with_minus negative (take n (c ∷ s))))
        (int_of (a.scale -ℤ pos (length (c ∷ s) - n)))

unfoldable pub set_significant_digits : MiniNumber → ℤ → Option MiniNumber
unfolding to_decimal_string of_decimal drop_zeros make int_of
set_significant_digits a n =
    let (negative, digits) = split_minus (to_decimal_string a.unscaled) in
    if ltb_ℤ (pos max_digits) n || is_neg n
    then none
    else first_digits a (pos_part n) negative (drop_zeros digits)

-- getAsLong(): 0 where std::stoll throws.
abbrev pub or_zero_long : Option ℤ → ℤ
or_zero_long none = pos 0
or_zero_long (some i) = i

unfoldable pub get_as_long : MiniNumber → ℤ
unfolding stoll to_decimal_string pow10 abs_divmod from_java_bytes neg is_negative Signed.mul int_of
    ◌-ℤ◌
get_as_long a =
    let q = from_java_bytes (abs_divmod a.unscaled (pow10 (pos_part a.scale))).0 in
    or_zero_long (
      stoll (
        to_decimal_string (
          if is_neg a.scale
          then Signed.mul a.unscaled (pow10 (pos_part (int_of (pos 0 -ℤ a.scale))))
          else if pos_part a.scale == 0
          then a.unscaled
          else if is_negative a.unscaled
          then neg q
          else q)))

-- toBytes()
unfoldable pub to_bytes : MiniNumber → Bytes
unfolding strip_leading_zeros
to_bytes a = strip_leading_zeros a.unscaled
