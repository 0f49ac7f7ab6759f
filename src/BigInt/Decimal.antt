-- ===== src/BigInt/Decimal.antt =====
-- Decimal text of class BigInt (src/types/MiniNumber.cpp): toDecimalString() and the constructor
-- from a string.
use kiss_vm_interpreter.Prelude.{
  ℕ, zero, suc, ◌+◌, ◌-◌, ◌*◌, ◌/◌, ◌%◌, Bool, true, false, not, ◌&&◌, ◌||◌, [], ◌∷◌, Option, none,
  some, Bytes, length, ltb, ◌==◌, if◌then◌else◌, reverse, is_space, is_digit,
}
use kiss_vm_interpreter.BigInt.Mag.{stripped, strip_leading_zeros, or_zero}
use kiss_vm_interpreter.BigInt.Signed.{is_zero, is_negative, magnitude, is_zero_mag, from_sign_mag}

-- One pass of toDecimalString(): the bytes divided by ten from a remainder r, without the zeros in
-- front of the first byte that is pushed, and the last remainder.
unfoldable pub tenth : ℕ → Bool → Bytes → Bytes × ℕ
tenth r started [] = ([], r)
tenth r started (b ∷ bs) =
    let val = r * 256 + b in
    let pushing = started || ltb 0 (val / 10) in
    let (q, out) = tenth (val % 10) pushing bs in (if pushing then (val / 10 % 256) ∷ q else q, out)

-- The loop of toDecimalString(); the text is built from its end.
unfoldable pub decimal_loop : ℕ → Bytes → Bytes → Bytes
unfolding tenth
decimal_loop zero rem text = text
decimal_loop (suc f) rem text =
    let (q, r) = tenth 0 false rem in
    let text' = (48 + r) ∷ text in
    let more = decimal_loop f q text' in
    if is_zero_mag rem then text else elim q [ [] ↦ text' | d ∷ ds ↦ more ]

-- A byte has fewer than three decimal digits.
unfoldable pub to_decimal_string : Bytes → Bytes
unfolding decimal_loop is_zero is_negative magnitude
to_decimal_string a =
    let digits = decimal_loop (3 * length (magnitude a) + 1) (magnitude a) [] in
    if is_zero a then 48 ∷ [] else if is_negative a then b'-' ∷ digits else digits

-- while (carry > 0): the bytes of an int
unfoldable pub carry_bytes : ℕ → ℕ → Bytes
carry_bytes zero carry = []
carry_bytes (suc f) carry =
    let rest = carry_bytes f (carry / 256) in if carry == 0 then [] else (carry % 256) ∷ rest

-- Ten times the bytes and a digit, from the last byte.
unfoldable pub ten_times : ℕ → Bytes → Bytes
unfolding carry_bytes
ten_times carry [] = carry_bytes 4 carry
ten_times carry (b ∷ bs) = ((b * 10 + carry) % 256) ∷ ten_times ((b * 10 + carry) / 256) bs

-- The loop of the constructor over the digits; `none` is its exception.
unfoldable pub parse_digits : Bytes → Bytes → Option Bytes
unfolding ten_times is_digit
parse_digits mag [] = some mag
parse_digits mag (c ∷ s) =
    let rest = parse_digits (reverse (ten_times (c - 48) (reverse mag))) s in
    if is_digit c then rest else none

unfoldable pub skip_space : Bytes → Bytes
unfolding is_space
skip_space [] = []
skip_space (c ∷ s) = let rest = skip_space s in if is_space c then rest else c ∷ s

-- A sign in front, and whether it is a minus.
unfoldable pub take_sign : Bytes → Bool × Bytes
take_sign [] = (false, [])
take_sign (c ∷ s) =
    if c == b'-' then (true, s) else if c == b'+' then (false, s) else (false, c ∷ s)

abbrev pub signed_mag : Bool → Bytes → Bytes
signed_mag negative mag = from_sign_mag (negative && not (is_zero_mag mag)) mag

abbrev pub of_digits : Bool → Bytes → Option Bytes
of_digits negative [] = some (0 ∷ [])
of_digits negative (c ∷ s) = elim (parse_digits (0 ∷ []) (c ∷ s)) [
  | none ↦ none
  | some mag ↦ some (signed_mag negative (stripped mag))
]

-- BigInt(const std::string&)
unfoldable pub of_decimal : Bytes → Option Bytes
unfolding skip_space take_sign parse_digits from_sign_mag strip_leading_zeros or_zero
of_decimal text = let (negative, s) = take_sign (skip_space text) in of_digits negative s
