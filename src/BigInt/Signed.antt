-- ===== src/BigInt/Signed.antt =====
-- The signed operations of class BigInt (src/types/MiniNumber.cpp). The bytes of a BigInt are
-- big-endian two's complement, as Java writes them.
use kiss_vm_interpreter.Prelude.{
  ℕ, zero, suc, ◌+◌, ◌-◌, ◌/◌, ◌%◌, Bool, true, false, not, ◌&&◌, [], ◌∷◌, Bytes, leb, ◌==◌,
  if◌then◌else◌, reverse,
}
use kiss_vm_interpreter.BigInt.Mag.{
  Order, below, equal, above, strip_leading_zeros, compare_abs_mag, add_mag, sub_mag, mul_mag,
  divmod_mag,
}

-- (b & 0x80) != 0
abbrev pub top_bit : ℕ → Bool
top_bit b = leb 128 b

unfoldable pub is_negative : Bytes → Bool
is_negative [] = false
is_negative (b ∷ bs) = top_bit b

unfoldable pub is_zero : Bytes → Bool
is_zero [] = true
is_zero (b ∷ bs) = (b == 0) && is_zero bs

unfoldable pub normalise : Bytes → Bytes
normalise [] = []
normalise (b ∷ []) = b ∷ []
normalise (b ∷ c ∷ bs) =
    let rest = normalise (c ∷ bs) in
    if (b == 0) && not (top_bit c)
    then rest
    else if (b == 255) && top_bit c
    then rest
    else b ∷ c ∷ bs

-- ~b for each byte, then 1 added from the last byte on: over the reversed list.
unfoldable pub inverted : Bytes → Bytes
inverted [] = []
inverted (b ∷ bs) = (255 - b) ∷ inverted bs

unfoldable pub increment : ℕ → Bytes → Bytes
increment carry [] = []
increment carry (b ∷ bs) =
    let rest = increment ((b + carry) / 256) bs in
    if carry == 0 then b ∷ bs else ((b + carry) % 256) ∷ rest

unfoldable pub carry_out : ℕ → Bytes → ℕ
carry_out carry [] = carry
carry_out carry (b ∷ bs) = carry_out ((b + carry) / 256) bs

unfoldable pub twos : Bytes → Bytes
unfolding inverted increment
twos bs = reverse (increment 1 (inverted (reverse bs)))

unfoldable pub twos_carry : Bytes → ℕ
unfolding inverted carry_out
twos_carry bs = carry_out 1 (inverted (reverse bs))

unfoldable pub magnitude : Bytes → Bytes
unfolding is_negative twos strip_leading_zeros
magnitude bs = if is_negative bs then strip_leading_zeros (twos bs) else strip_leading_zeros bs

abbrev pub is_zero_mag : Bytes → Bool
is_zero_mag [] = true
is_zero_mag (b ∷ []) = b == 0
is_zero_mag (b ∷ c ∷ bs) = false

-- if (carry) r.insert(r.begin(), 0x01)
abbrev pub with_carry : ℕ → Bytes → Bytes
with_carry carry r = if carry == 0 then r else 1 ∷ r

-- A byte for the sign, where the first one has the other.
abbrev pub sign_positive : Bytes → Bytes
sign_positive [] = []
sign_positive (b ∷ bs) = if top_bit b then 0 ∷ b ∷ bs else b ∷ bs

abbrev pub sign_negative : Bytes → Bytes
sign_negative [] = []
sign_negative (b ∷ bs) = if top_bit b then b ∷ bs else 255 ∷ b ∷ bs

unfoldable pub from_sign_mag : Bool → Bytes → Bytes
unfolding normalise twos twos_carry
from_sign_mag negative mag =
    if is_zero_mag mag
    then 0 ∷ []
    else normalise (
        if negative
        then sign_negative (with_carry (twos_carry mag) (twos mag))
        else sign_positive mag)

-- operator-(), operator+, operator-, operator*, operator/ and operator%
unfoldable pub neg : Bytes → Bytes
unfolding is_zero is_negative magnitude from_sign_mag
neg a = if is_zero a then a else from_sign_mag (not (is_negative a)) (magnitude a)

abbrev pub same_sign : Bool → Bool → Bool
same_sign true b = b
same_sign false b = not b

-- The sum of magnitudes of different signs, by their order.
abbrev pub difference : Order → Bool → Bool → Bytes → Bytes → Bytes
difference below na nb ma mo = from_sign_mag nb (sub_mag mo ma)
difference equal na nb ma mo = 0 ∷ []
difference above na nb ma mo = from_sign_mag na (sub_mag ma mo)

unfoldable pub add : Bytes → Bytes → Bytes
unfolding is_negative magnitude from_sign_mag add_mag sub_mag compare_abs_mag
add a o =
    if same_sign (is_negative a) (is_negative o)
    then from_sign_mag (is_negative a) (add_mag (magnitude a) (magnitude o))
    else difference (compare_abs_mag (magnitude a) (magnitude o)) (is_negative a) (is_negative o)
        (magnitude a) (magnitude o)

unfoldable pub sub : Bytes → Bytes → Bytes
unfolding add neg
sub a o = add a (neg o)

-- The sign goes on a magnitude that is not zero.
abbrev pub with_sign : Bool → Bytes → Bytes
with_sign negative m = from_sign_mag (negative && not (is_zero_mag m)) m

unfoldable pub mul : Bytes → Bytes → Bytes
unfolding is_negative magnitude from_sign_mag mul_mag
mul a o =
    with_sign (not (same_sign (is_negative a) (is_negative o)))
      (mul_mag (magnitude a) (magnitude o))

unfoldable pub div : Bytes → Bytes → Bytes
unfolding is_negative magnitude from_sign_mag divmod_mag
div a o =
    with_sign (not (same_sign (is_negative a) (is_negative o)))
      (divmod_mag (magnitude a) (magnitude o)).0

unfoldable pub modulo : Bytes → Bytes → Bytes
unfolding is_negative magnitude from_sign_mag divmod_mag
modulo a o = with_sign (is_negative a) (divmod_mag (magnitude a) (magnitude o)).1

-- compareTo()
abbrev pub flip : Order → Order
flip below = above
flip equal = equal
flip above = below

abbrev pub compare_signed : Bool → Bool → Order → Order
compare_signed true true o = flip o
compare_signed true false o = below
compare_signed false true o = above
compare_signed false false o = o

unfoldable pub compare_to : Bytes → Bytes → Order
unfolding is_negative magnitude compare_abs_mag
compare_to a o =
    compare_signed (is_negative a) (is_negative o) (compare_abs_mag (magnitude a) (magnitude o))

-- BigInt(int64_t): the bytes of |v|, which has no more than eight.
unfoldable pub long_bytes : ℕ → ℕ → Bytes → Bytes
long_bytes zero u mag = mag
long_bytes (suc f) u mag =
    let more = long_bytes f (u / 256) ((u % 256) ∷ mag) in if u == 0 then mag else more

-- fromJavaBytes()
unfoldable pub from_java_bytes : Bytes → Bytes
from_java_bytes [] = 0 ∷ []
from_java_bytes (b ∷ bs) = b ∷ bs
