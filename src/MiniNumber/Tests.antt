-- ===== src/MiniNumber/Tests.antt =====
-- Runs of class MiniNumber (src/types/MiniNumber.cpp).
use kiss_vm_interpreter.Prelude.{
  ◌<◌, ◌+◌, ◌/◌, ◌≡◌, ◌↔◌, ◌⊎◌, refl, ◌∷◌, [], ◌++◌, true, none, some, length, codes, arith,
}
use kiss_vm_interpreter.Prelude.Int.{pos, negsuc, ◌+ℤ◌, ◌-ℤ◌, ◌*ℤ◌, nat_abs}
use kiss_vm_interpreter.BigInt.Signed.{is_zero, is_negative}
use kiss_vm_interpreter.BigInt.Integer.{integer}
use kiss_vm_interpreter.BigInt.Value.{value, little, base}
use kiss_vm_interpreter.BigInt.Printed.{ten_power}
use kiss_vm_interpreter.Serialization.Primitives.{behind}
use kiss_vm_interpreter.MiniNumber.{
  MiniNumber, make, cut_places, max_ℤ, add, sub, mult, div, modulo, compare_to, floor, ceil, abs,
}
use kiss_vm_interpreter.MiniNumber.Text.{of_text, to_string}
use kiss_vm_interpreter.MiniNumber.Derived.{pow, get_as_long}
use kiss_vm_interpreter.MiniNumber.Wire.{
  written, serialise, deserialise, decoded, deserialise-written,
}
use kiss_vm_interpreter.MiniNumber.Scaled.{at_scale}
use kiss_vm_interpreter.MiniNumber.Room.{ten_power_le, IsBounded}
use kiss_vm_interpreter.MiniNumber.Context.{RoundsTo, make-RoundsTo}
use kiss_vm_interpreter.MiniNumber.Arithmetic.{
  IsNumber, Computes, Orders, add-Computes, mult-Computes, compare_to-Orders,
}
use kiss_vm_interpreter.MiniNumber.Total.{arithmetic-IsNumber, div-none}
use kiss_vm_interpreter.MiniNumber.Given.{Gives}
use kiss_vm_interpreter.MiniNumber.Quotients.{signed_byte, floor-Computes}

-- 200.5 and -20.0
abbrev price : MiniNumber
price = record { unscaled = 7 ∷ 213 ∷ []; scale = pos 1 }

abbrev debt : MiniNumber
debt = record { unscaled = 255 ∷ 56 ∷ []; scale = pos 1 }

price-IsNumber : IsNumber price
price-IsNumber = record { bytes = (omega arith, (omega arith, tt)); places = omega arith }

debt-IsNumber : IsNumber debt
debt-IsNumber = record { bytes = (omega arith, (omega arith, tt)); places = omega arith }

integer-debt : integer debt.unscaled ≡ negsuc 199
unfolding integer value little base
integer-debt = refl

four_digits : 9999 < ten_power 64
four_digits =
    let e : ten_power 4 ≡ 10000 = unfold ten_power in refl in
    omega (arith, e, ten_power_le 4 64 (omega arith))

price-IsBounded : IsBounded price
unfolding integer value little base
price-IsBounded = record {
  bytes = price-IsNumber.bytes;
  digits = omega (arith, four_digits);
  places = omega arith;
  low = omega arith;
}

debt-IsBounded : IsBounded debt
unfolding integer value little base
debt-IsBounded = record {
  bytes = debt-IsNumber.bytes;
  digits = omega (arith, four_digits);
  places = omega arith;
  low = omega arith;
}

-- 1E2147483647, whose square has a scale that wraps to 2, and whose sum with 0.5 is not aligned.
abbrev huge : MiniNumber
huge = record { unscaled = 1 ∷ []; scale = negsuc 2147483646 }

huge_squared : mult huge huge ≡ some (record { unscaled = 1 ∷ []; scale = pos 2 })
unfolding mult ◌+ℤ◌
huge_squared = refl

huge_sum :
    add huge (record { unscaled = 5 ∷ []; scale = pos 1 })
    ≡ some (record { unscaled = 6 ∷ []; scale = pos 1 })
unfolding add ◌-ℤ◌
huge_sum = refl

text_read :
    of_text (codes " -200.50e1 ") ≡ some (record { unscaled = 177 ∷ 174 ∷ []; scale = pos 1 })
unfolding of_text ◌-ℤ◌ cut_places
text_read = refl

text_printed : to_string price ≡ codes "200.5"
unfolding to_string
text_printed = refl

-- The byte 200 is read as -56.
floor_of_price : floor price ≡ some (record { unscaled = 200 ∷ []; scale = pos 0 })
unfolding floor
floor_of_price = refl

floor_printed : to_string (record { unscaled = 200 ∷ []; scale = pos 0 }) ≡ codes "-56"
unfolding to_string
floor_printed = refl

price_as_long : get_as_long price ≡ negsuc 55
unfolding get_as_long
price_as_long = refl

-- No exception for the divisor zero.
modulo_zero : modulo price (record { unscaled = 0 ∷ []; scale = pos 0 }) ≡ some price
unfolding modulo ◌-ℤ◌
modulo_zero = refl

power :
    pow (record { unscaled = 7 ∷ []; scale = pos 0 }) (pos 3)
    ≡ some (record { unscaled = 1 ∷ 87 ∷ []; scale = pos 0 })
unfolding pow ◌+ℤ◌
power = refl

make-RoundsTo_example : RoundsTo (integer debt.unscaled) (pos 1) (make debt.unscaled (pos 1))
make-RoundsTo_example =
    make-RoundsTo debt.unscaled (pos 1) debt-IsNumber.bytes (λ e. absurd (cc (integer-debt, e)))
      (omega arith) (64, debt-IsBounded.digits, omega arith)

add-Computes_example :
    Computes
      (at_scale (max_ℤ price.scale debt.scale) price
        +ℤ at_scale (max_ℤ price.scale debt.scale) debt)
      (max_ℤ price.scale debt.scale)
      (add price debt)
add-Computes_example = add-Computes price debt price-IsBounded debt-IsBounded

mult-Computes_example :
    Computes
      (integer price.unscaled *ℤ integer debt.unscaled)
      (price.scale +ℤ debt.scale)
      (mult price debt)
mult-Computes_example =
    mult-Computes price debt price-IsBounded debt-IsBounded (unfold ◌+ℤ◌ in omega arith)

compare_to-Orders_example : Orders (compare_to price debt) price debt
compare_to-Orders_example = compare_to-Orders price debt price-IsBounded debt-IsBounded

arithmetic-IsNumber_example :
    Gives (add price debt)
    × Gives (sub price debt)
    × Gives (mult price debt)
    × Gives (abs price)
    × Gives (floor price)
    × Gives (ceil price)
arithmetic-IsNumber_example = arithmetic-IsNumber price debt price-IsNumber debt-IsNumber

div-none_example :
    ((div price debt ≡ none) ↔ (is_zero debt.unscaled ≡ true))
    × ((is_zero debt.unscaled ≡ true) ⊎ Gives (div price debt))
div-none_example = div-none price debt price-IsNumber debt-IsNumber

floor-Computes_example :
    Computes
      (signed_byte (nat_abs (integer price.unscaled) / ten_power (nat_abs price.scale)))
      (pos 0)
      (floor price)
floor-Computes_example =
    floor-Computes price price-IsNumber (unfold is_negative in refl) refl
      (unfold integer value little base ten_power in omega arith)

deserialise-written_example :
    (serialise debt ≡ some (written debt))
    × (deserialise (record { left = written debt ++ 9 ∷ []; pos = 4 })
        ≡ decoded debt (behind (9 ∷ []) (4 + 2) (length debt.unscaled)))
deserialise-written_example =
    deserialise-written debt (9 ∷ []) 4 debt-IsNumber.bytes (omega arith) (omega arith, omega arith)
