-- ===== src/KissVm/Numbers.antt =====
-- class MiniNumber (src/types/MiniNumber.cpp) as the numbers of the KISS VM: src/kissvm/Value.cpp and
-- Interpreter.cpp call its operators, toString() and isZero().
use kiss_vm_interpreter.Prelude.Int.{pos}
use kiss_vm_interpreter.BigInt.Mag.{Order}
use kiss_vm_interpreter.BigInt.Signed.{is_zero}
use kiss_vm_interpreter.KissVm.Value.{Sign, below, equal, above, Numbers}
use kiss_vm_interpreter.MiniNumber.{MiniNumber, of_long, add, sub, mult, div, modulo, compare_to}
use kiss_vm_interpreter.MiniNumber.Text.{of_text, to_string}

abbrev sign_of : Order → Sign
sign_of Order.below = below
sign_of Order.equal = equal
sign_of Order.above = above

abbrev pub mini_numbers : Numbers
mini_numbers = record {
  Num = MiniNumber;
  of_text = of_text;
  of_int = λ k. of_long (pos k);
  add = add;
  sub = sub;
  mult = mult;
  div = div;
  modulo = modulo;
  compare_to = λ a o. sign_of (compare_to a o);
  is_zero = λ a. is_zero a.unscaled;
  text = to_string;
}
