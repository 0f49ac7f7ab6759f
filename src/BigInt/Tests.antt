-- ===== src/BigInt/Tests.antt =====
-- Runs of class BigInt (src/types/MiniNumber.cpp).
use kiss_vm_interpreter.Prelude.{◌≡◌, refl, [], ◌∷◌, codes, Bytes, arith}
use kiss_vm_interpreter.Prelude.Int.{pos, negsuc, ◌+ℤ◌, ◌-ℤ◌, ◌*ℤ◌, tdiv, tmod}
use kiss_vm_interpreter.BigInt.Decimal.{tenth, decimal_loop, to_decimal_string, of_decimal}
use kiss_vm_interpreter.BigInt.Digits.{Reads, of_decimal-to_decimal_string}
use kiss_vm_interpreter.BigInt.Mag.{divmod_mag}
use kiss_vm_interpreter.BigInt.Value.{value, little, base}
use kiss_vm_interpreter.BigInt.Quotient.{IsDivision, divmod_mag-IsDivision}
use kiss_vm_interpreter.BigInt.Signed.{add, sub, mul, div, modulo, compare_to}
use kiss_vm_interpreter.BigInt.Integer.{integer, IsBigInt}
use kiss_vm_interpreter.BigInt.Refinement.{StandsFor, add-StandsFor}
use kiss_vm_interpreter.BigInt.Operators.{
  sub-StandsFor, mul-StandsFor, div-StandsFor, modulo-StandsFor, TellsInt, compare_to-TellsInt,
}

-- 1000 and -200
abbrev thousand : Bytes
thousand = 3 ∷ 232 ∷ []

abbrev minus : Bytes
minus = 255 ∷ 56 ∷ []

thousand_is : IsBigInt thousand
thousand_is = (omega arith, (omega arith, tt))

minus_is : IsBigInt minus
minus_is = (omega arith, (omega arith, tt))

integer-minus : integer minus ≡ negsuc 199
unfolding integer base value little
integer-minus = refl

integer-thousand : integer thousand ≡ pos 1000
unfolding integer base value little
integer-thousand = refl

sums : add thousand minus ≡ 3 ∷ 32 ∷ []
unfolding add
sums = refl

add-StandsFor_example : StandsFor (add thousand minus) (integer thousand +ℤ integer minus)
add-StandsFor_example = add-StandsFor thousand minus thousand_is minus_is

sub-StandsFor_example : StandsFor (sub minus thousand) (integer minus -ℤ integer thousand)
sub-StandsFor_example = sub-StandsFor minus thousand minus_is thousand_is

mul-StandsFor_example : StandsFor (mul thousand minus) (integer thousand *ℤ integer minus)
mul-StandsFor_example = mul-StandsFor thousand minus thousand_is minus_is

div-StandsFor_example : StandsFor (div thousand minus) (tdiv (integer thousand) (integer minus))
div-StandsFor_example =
    div-StandsFor thousand minus thousand_is minus_is (λ e. absurd (cc (integer-minus, e)))

modulo-StandsFor_example :
    StandsFor (modulo minus thousand) (tmod (integer minus) (integer thousand))
modulo-StandsFor_example =
    modulo-StandsFor minus thousand minus_is thousand_is (λ e. absurd (cc (integer-thousand, e)))

compare_to-TellsInt_example :
    TellsInt (compare_to minus thousand) (integer minus) (integer thousand)
compare_to-TellsInt_example = compare_to-TellsInt minus thousand minus_is thousand_is

divmod_mag-IsDivision_example : IsDivision thousand (7 ∷ []) (divmod_mag thousand (7 ∷ []))
divmod_mag-IsDivision_example =
    divmod_mag-IsDivision thousand (7 ∷ []) (λ e. absurd (omega (arith, e)), thousand_is)
      (omega arith) (unfold value little in λ e. absurd (omega (arith, e)))

minus_text : to_decimal_string minus ≡ codes "-200"
unfolding to_decimal_string decimal_loop tenth
minus_text = refl

of_decimal-to_decimal_string_example : Reads (of_decimal (to_decimal_string minus)) (integer minus)
of_decimal-to_decimal_string_example = of_decimal-to_decimal_string minus minus_is
