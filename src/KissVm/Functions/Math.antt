-- ===== src/KissVm/Functions/Math.antt =====
-- The functions on numbers of src/kissvm/functions/Functions.cpp.
use kiss_vm_interpreter.Prelude.{Bool, true, false, List, [], ◌∷◌, none, some, if◌then◌else◌}
use kiss_vm_interpreter.Prelude.Int.{int_of, ℤ}
use kiss_vm_interpreter.BigInt.Mag.{Order, below, above}
use kiss_vm_interpreter.KissVm.Value.{number}
use kiss_vm_interpreter.MiniNumber.{MiniNumber, add, sub, floor, ceil, compare_to}
use kiss_vm_interpreter.MiniNumber.Derived.{one, pow, sqrt}
use kiss_vm_interpreter.KissVm.Functions.{V, Result, nought, with_number, with_long, and_number}

-- operator< and operator>
abbrev pub is_below : Order → Bool
is_below below = true
is_below _ = false

abbrev pub is_above : Order → Bool
is_above above = true
is_above _ = false

-- ABS
unfoldable pub abs : List V → Result
unfolding compare_to sub
abs (v ∷ []) = with_number v (λ (n : MiniNumber).
    if is_below (compare_to n nought) then and_number (sub nought n) else some (number n))
abs _ = none

-- MAX and MIN
unfoldable pub max : List V → Result
unfolding compare_to
max (u ∷ v ∷ []) = with_number u (λ (a : MiniNumber).
    with_number v (λ (b : MiniNumber). some (number (if is_above (compare_to a b) then a else b))))
max _ = none

unfoldable pub min : List V → Result
unfolding compare_to
min (u ∷ v ∷ []) = with_number u (λ (a : MiniNumber).
    with_number v (λ (b : MiniNumber). some (number (if is_below (compare_to a b) then a else b))))
min _ = none

-- DEC and INC
unfoldable pub dec : List V → Result
unfolding sub
dec (v ∷ []) = with_number v (λ (n : MiniNumber). and_number (sub n one))
dec _ = none

unfoldable pub inc : List V → Result
unfolding add
inc (v ∷ []) = with_number v (λ (n : MiniNumber). and_number (add n one))
inc _ = none

-- FLOOR, CEIL, POW and SQRT
unfoldable pub to_floor : List V → Result
unfolding floor
to_floor (v ∷ []) = with_number v (λ (n : MiniNumber). and_number (floor n))
to_floor _ = none

unfoldable pub to_ceil : List V → Result
unfolding ceil
to_ceil (v ∷ []) = with_number v (λ (n : MiniNumber). and_number (ceil n))
to_ceil _ = none

unfoldable pub to_power : List V → Result
unfolding int_of pow with_long
to_power (v ∷ w ∷ []) =
    with_number v (λ (base : MiniNumber). with_long w (λ (e : ℤ). and_number (pow base (int_of e))))
to_power _ = none

unfoldable pub square_root : List V → Result
unfolding sqrt
square_root (v ∷ []) = with_number v (λ (n : MiniNumber). and_number (sqrt n))
square_root _ = none
