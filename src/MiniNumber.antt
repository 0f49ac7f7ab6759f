-- ===== src/MiniNumber.antt =====
-- class MiniNumber of src/types/MiniNumber.cpp: decimal numbers of 64 significant digits, as a whole
-- number and a scale. The scale is an int: int_of wraps what is computed of it.
pub mod Text
pub mod Derived
pub mod Wire
pub mod Scaled
pub mod Room
pub mod Leading
pub mod Shows
pub mod Context
pub mod Arithmetic
pub mod Given
pub mod Total
pub mod Quotients
pub mod Longs
pub mod Rounds
mod Tests
use kiss_vm_interpreter.Prelude.{
  ℕ, zero, suc, ◌-◌, Bool, true, false, not, ◌&&◌, [], ◌∷◌, Option, none, some, Bytes, length, ltb,
  leb, ◌==◌, if◌then◌else◌,
}
use kiss_vm_interpreter.Prelude.Int.{ℤ, pos, ◌+ℤ◌, ◌-ℤ◌, int_of, leb_ℤ, ltb_ℤ, is_neg, nat_abs}
use kiss_vm_interpreter.BigInt.Mag.{Order, divmod_mag}
use kiss_vm_interpreter.BigInt.Signed
use kiss_vm_interpreter.BigInt.Signed.{
  is_zero, is_negative, magnitude, is_zero_mag, neg, from_sign_mag, long_bytes, from_java_bytes,
}
use kiss_vm_interpreter.BigInt.Decimal.{to_decimal_string, of_decimal}

pub record MiniNumber : Type 0 where
  pub unscaled : Bytes
  pub scale : ℤ

abbrev pub max_digits : ℕ
max_digits = 64

abbrev pub max_decimal_places : ℕ
max_decimal_places = 44

-- BigInt(int64_t)
abbrev pub of_ℤ : ℤ → Bytes
of_ℤ v = if nat_abs v == 0 then 0 ∷ [] else from_sign_mag (is_neg v) (long_bytes 8 (nat_abs v) [])

-- pow10()
unfoldable pub pow10 : ℕ → Bytes
unfolding Signed.mul
pow10 zero = 1 ∷ []
pow10 (suc n) = Signed.mul (pow10 n) (10 ∷ [])

-- first, find_first_not_of('0'), and a text without its zeros in front
unfoldable pub drop_zeros : Bytes → Bytes
drop_zeros [] = []
drop_zeros (c ∷ s) = let rest = drop_zeros s in if c == 48 then rest else c ∷ s

abbrev pub take : ℕ → Bytes → Bytes
take zero s = []
take (suc n) [] = []
take (suc n) (c ∷ s) = c ∷ take n s

abbrev pub drop : ℕ → Bytes → Bytes
drop zero s = s
drop (suc n) [] = []
drop (suc n) (c ∷ s) = drop n s

-- The digits of a text with a sign, and whether there is a minus.
abbrev pub split_minus : Bytes → Bool × Bytes
split_minus [] = (false, [])
split_minus (c ∷ s) = if c == b'-' then (true, s) else (false, c ∷ s)

abbrev pub with_minus : Bool → Bytes → Bytes
with_minus negative s = if negative then b'-' ∷ s else s

-- The quotient of the absolute value of u, and the remainder's bytes: divmodMag_pub().
unfoldable pub abs_divmod : Bytes → Bytes → Bytes × Bytes
unfolding divmod_mag magnitude is_negative neg
abs_divmod u d = divmod_mag (magnitude (if is_negative u then neg u else u)) (magnitude d)

-- applyMathContext(), the places after the point: the quotient's magnitude is read as the bytes of
-- a signed number.
unfoldable pub cut_places : Bytes → ℤ → MiniNumber
unfolding abs_divmod pow10 from_java_bytes is_negative neg
cut_places u scale =
    if ltb_ℤ (pos max_decimal_places) scale
    then (let q =
          from_java_bytes (abs_divmod u (pow10 (nat_abs (scale -ℤ pos max_decimal_places)))).0 in
        record { unscaled = (if is_negative u then neg q else q); scale = pos max_decimal_places })
    else record { unscaled = u; scale = scale }

-- applyMathContext(), the significant digits, from the digits without zeros in front
unfoldable pub cut_digits : Bool → Bytes → Bytes → ℤ → Option MiniNumber
unfolding cut_places of_decimal int_of
cut_digits negative [] u scale = some (record { unscaled = 0 ∷ []; scale = pos 0 })
cut_digits negative (c ∷ s) u scale =
    if ltb max_digits (length (c ∷ s))
    then elim (of_decimal (with_minus negative (take max_digits (c ∷ s)))) [
      | none ↦ none
      | some v ↦ some (cut_places v (int_of (scale -ℤ pos (length (c ∷ s) - max_digits))))
    ]
    else some (cut_places u scale)

-- MiniNumber(BigInt, int); `none` is an exception.
unfoldable pub make : Bytes → ℤ → Option MiniNumber
unfolding to_decimal_string drop_zeros cut_digits
make u scale =
    let (negative, digits) = split_minus (to_decimal_string u) in
    cut_digits negative (drop_zeros digits) u scale

-- MiniNumber(int64_t)
abbrev pub of_long : ℤ → MiniNumber
of_long v = record { unscaled = of_ℤ v; scale = pos 0 }

-- MiniNumber::fromBytes()
unfoldable pub from_bytes : Bytes → Option MiniNumber
unfolding make
from_bytes [] = make [] (pos 0)
from_bytes (b ∷ bs) = make (if leb 128 b then 0 ∷ b ∷ bs else b ∷ bs) (pos 0)

-- alignScales(): the greater scale, and a number at it
abbrev pub max_ℤ : ℤ → ℤ → ℤ
max_ℤ a b = if ltb_ℤ a b then b else a

unfoldable pub scaled_up : Bytes → ℤ → Bytes
unfolding Signed.mul pow10
scaled_up u steps = if ltb_ℤ (pos 0) steps then Signed.mul u (pow10 (nat_abs steps)) else u

unfoldable pub scaled_to : ℤ → MiniNumber → Bytes
unfolding scaled_up int_of
scaled_to scale a = scaled_up a.unscaled (int_of (scale -ℤ a.scale))

unfoldable pub add : MiniNumber → MiniNumber → Option MiniNumber
unfolding make scaled_to Signed.add
add a o =
    let scale = max_ℤ a.scale o.scale in
    make (Signed.add (scaled_to scale a) (scaled_to scale o)) scale

unfoldable pub sub : MiniNumber → MiniNumber → Option MiniNumber
unfolding make scaled_to Signed.sub
sub a o =
    let scale = max_ℤ a.scale o.scale in
    make (Signed.sub (scaled_to scale a) (scaled_to scale o)) scale

unfoldable pub mult : MiniNumber → MiniNumber → Option MiniNumber
unfolding make Signed.mul int_of
mult a o = make (Signed.mul a.unscaled o.unscaled) (int_of (a.scale +ℤ o.scale))

-- The quotient of magnitudes, read as the bytes of a signed number, and then the sign.
abbrev pub quotient_signed : Bool → Bytes → Bytes
quotient_signed negative q = if negative && not (is_zero q) then neg q else q

unfoldable pub div : MiniNumber → MiniNumber → Option MiniNumber
unfolding make Signed.mul pow10 abs_divmod from_java_bytes is_negative is_zero neg int_of
div a o =
    if is_zero o.unscaled
    then none
    else (let u = Signed.mul a.unscaled (pow10 max_digits) in
        let abs_b = if is_negative o.unscaled then neg o.unscaled else o.unscaled in
        let q = from_java_bytes (abs_divmod u abs_b).0 in
        make (quotient_signed (not (Signed.same_sign (is_negative u) (is_negative o.unscaled))) q)
          (int_of (int_of (a.scale -ℤ o.scale) +ℤ pos max_digits)))

unfoldable pub modulo : MiniNumber → MiniNumber → Option MiniNumber
unfolding make scaled_to Signed.modulo
modulo a o =
    let scale = max_ℤ a.scale o.scale in
    make (Signed.modulo (scaled_to scale a) (scaled_to scale o)) scale

unfoldable pub compare_to : MiniNumber → MiniNumber → Order
unfolding scaled_to Signed.compare_to
compare_to a o =
    let scale = max_ℤ a.scale o.scale in Signed.compare_to (scaled_to scale a) (scaled_to scale o)

-- floor() and ceil(): a remainder counts against, or for, the sign.
abbrev pub has_rem : Bytes → Bool
has_rem r = not (is_zero_mag r)

unfoldable pub floor : MiniNumber → Option MiniNumber
unfolding make abs_divmod pow10 from_java_bytes is_negative neg Signed.add
floor a =
    let d = abs_divmod a.unscaled (pow10 (nat_abs a.scale)) in
    let q = from_java_bytes d.0 in
    if leb_ℤ a.scale (pos 0)
    then some a
    else if is_negative a.unscaled
    then make (neg (if has_rem d.1 then Signed.add q (1 ∷ []) else q)) (pos 0)
    else make q (pos 0)

unfoldable pub ceil : MiniNumber → Option MiniNumber
unfolding make abs_divmod pow10 from_java_bytes is_negative neg Signed.add
ceil a =
    let d = abs_divmod a.unscaled (pow10 (nat_abs a.scale)) in
    let q = from_java_bytes d.0 in
    if leb_ℤ a.scale (pos 0)
    then some a
    else if is_negative a.unscaled
    then make (neg q) (pos 0)
    else make (if has_rem d.1 then Signed.add q (1 ∷ []) else q) (pos 0)

unfoldable pub abs : MiniNumber → Option MiniNumber
unfolding make is_negative neg
abs a = if is_negative a.unscaled then make (neg a.unscaled) a.scale else some a
