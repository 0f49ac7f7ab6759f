-- ===== src/MiniNumber/Text.antt =====
-- The text of class MiniNumber (src/types/MiniNumber.cpp): the constructor from a string and
-- toString().
use kiss_vm_interpreter.Prelude.{
  ℕ, zero, suc, ◌+◌, ◌-◌, ◌*◌, Bool, false, not, ◌&&◌, ◌||◌, [], ◌∷◌, ◌++◌, Option, none, some,
  Bytes, same, length, leb, ◌==◌, if◌then◌else◌, reverse, is_digit,
}
use kiss_vm_interpreter.Prelude.Int.{ℤ, pos, negsuc, pos_part, int_of, ◌-ℤ◌, leb_ℤ, ltb_ℤ, signed}
use kiss_vm_interpreter.BigInt.Decimal.{to_decimal_string, of_decimal, skip_space, take_sign}
use kiss_vm_interpreter.MiniNumber.{
  MiniNumber, make, drop_zeros, take, drop, split_minus, with_minus,
}

-- What std::strtol reads: spaces, a sign and digits up to another character. `none` where there is
-- no digit.
unfoldable pub digits_number : ℕ → Bytes → ℕ
unfolding is_digit
digits_number n [] = n
digits_number n (c ∷ s) =
    let rest = digits_number (10 * n + (c - 48)) s in if is_digit c then rest else n

abbrev starts_digit : Bytes → Bool
starts_digit [] = false
starts_digit (c ∷ s) = is_digit c

unfoldable pub strtol : Bytes → Option ℤ
unfolding skip_space take_sign digits_number is_digit
strtol text =
    let (negative, s) = take_sign (skip_space text) in
    if starts_digit s then some (signed negative (digits_number 0 s)) else none

-- std::stoi and std::stoll: an integer of the type's width, or an exception.
unfoldable pub in_range : ℕ → Option ℤ → Option ℤ
in_range top none = none
in_range top (some i) = if leb_ℤ i (pos top) && leb_ℤ (negsuc top) i then some i else none

unfoldable pub stoi : Bytes → Option ℤ
unfolding strtol in_range
stoi text = in_range 2147483647 (strtol text)

unfoldable pub stoll : Bytes → Option ℤ
unfolding strtol in_range
stoll text = in_range 9223372036854775807 (strtol text)

-- find_first_of() of a few characters: the text before the first of them and the text behind it.
unfoldable pub split_first : (ℕ → Bool) → Bytes → Option (Bytes × Bytes)
split_first p [] = none
split_first p (c ∷ s) =
    let rest : Option (Bytes × Bytes) = elim (split_first p s) [
      | none ↦ none
      | some (u, v) ↦ some (c ∷ u, v)
    ] in
    if p c then some ([], s) else rest

abbrev pub is_exponent : ℕ → Bool
is_exponent c = (c == b'E') || (c == b'e')

abbrev pub is_point : ℕ → Bool
is_point c = c == b'.'

-- digits.empty()
abbrev pub or_zero_text : Bytes → Bytes
or_zero_text [] = 48 ∷ []
or_zero_text (c ∷ s) = c ∷ s

abbrev pub and_make : Option Bytes → ℤ → Option MiniNumber
and_make none scale = none
and_make (some u) scale = make u scale

-- The number of the digits, with so many of them behind the point.
unfoldable pub of_parts : Bool → Bytes → ℕ → ℤ → Option MiniNumber
unfolding drop_zeros of_decimal make same int_of
of_parts negative digits places exponent =
    let d = or_zero_text (drop_zeros digits) in
    and_make (of_decimal (with_minus (negative && not (same d (48 ∷ []))) d))
      (int_of (pos places -ℤ exponent))

unfoldable pub of_mantissa : Bool → Bytes → ℤ → Option MiniNumber
unfolding of_parts split_first
of_mantissa negative m exponent = elim (split_first is_point m) [
  | none ↦ of_parts negative m 0 exponent
  | some (whole, places) ↦ of_parts negative (whole ++ places) (length places) exponent
]

abbrev pub with_exponent : Bool → Bytes → Option ℤ → Option MiniNumber
with_exponent negative m none = none
with_exponent negative m (some e) = of_mantissa negative m e

-- MiniNumber(const std::string&)
abbrev pub trim : Bytes → Bytes
trim text = reverse (skip_space (reverse (skip_space text)))

abbrev pub of_unsigned : Bool → Bytes → Option MiniNumber
of_unsigned negative s = elim (split_first is_exponent s) [
  | none ↦ of_mantissa negative s (pos 0)
  | some (m, e) ↦ with_exponent negative m (stoi e)
]

unfoldable pub of_text : Bytes → Option MiniNumber
unfolding skip_space take_sign split_first of_mantissa stoi
of_text text = let (negative, s) = take_sign (trim text) in of_unsigned negative s

-- The loop of toString(): zeros at the end go while there are places behind the point. The digits
-- are reversed.
unfoldable pub drop_tail : Bytes → ℤ → Bytes × ℤ
unfolding ◌-ℤ◌
drop_tail [] scale = ([], scale)
drop_tail (c ∷ []) scale = (c ∷ [], scale)
drop_tail (c ∷ d ∷ s) scale =
    let rest = drop_tail (d ∷ s) (scale -ℤ pos 1) in
    if (c == 48) && ltb_ℤ (pos 0) scale then rest else (c ∷ d ∷ s, scale)

unfoldable pub zero_digits : ℕ → Bytes
zero_digits zero = []
zero_digits (suc n) = 48 ∷ zero_digits n

-- The digits with a point, where so many stand behind it.
unfoldable pub with_point : Bytes → ℤ → Bytes
unfolding zero_digits int_of ◌-ℤ◌
with_point digits scale =
    if leb_ℤ scale (pos 0)
    then digits ++ zero_digits (pos_part (int_of (pos 0 -ℤ scale)))
    else if leb (length digits) (pos_part scale)
    then 48 ∷ 46 ∷ zero_digits (pos_part scale - length digits) ++ digits
    else take (length digits - pos_part scale) digits
      ++ 46 ∷ drop (length digits - pos_part scale) digits

unfoldable pub to_string : MiniNumber → Bytes
unfolding to_decimal_string drop_tail with_point
to_string a =
    let (negative, digits) = split_minus (to_decimal_string a.unscaled) in
    let (tail, scale) = drop_tail (reverse digits) a.scale in
    with_minus negative (with_point (reverse tail) scale)
