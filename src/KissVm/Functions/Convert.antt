-- ===== src/KissVm/Functions/Convert.antt =====
-- The conversions of src/kissvm/functions/Functions.cpp.
use kiss_vm_interpreter.Prelude.{
  ℕ, ◌+◌, ◌-◌, ◌*◌, ◌%◌, ◌&&◌, ◌||◌, List, [], ◌∷◌, Option, none, some, Bytes, length, ◌==◌,
  if◌then◌else◌, is_xdigit, is_space,
}
use kiss_vm_interpreter.KissVm.Value.{number, hex, boolean, script, is_true, to_string}
use kiss_vm_interpreter.KissVm.Interpreter.{nibble}
use kiss_vm_interpreter.KissVm.Numbers.{mini_numbers}
use kiss_vm_interpreter.MiniNumber.{MiniNumber, from_bytes}
use kiss_vm_interpreter.MiniNumber.Text.{of_text}
use kiss_vm_interpreter.MiniNumber.Derived.{one, to_bytes}
use kiss_vm_interpreter.KissVm.Functions.{V, Result, nought, with_hex, with_number, and_number}
use kiss_vm_interpreter.KissVm.Functions.Strings.{and_hex}

-- NUMBER
unfoldable pub to_number : List V → Result
unfolding of_text from_bytes
to_number (number x ∷ []) = some (number x)
to_number (boolean b ∷ []) = some (number (if b then one else nought))
to_number (script s ∷ []) = and_number (of_text s)
to_number (hex d ∷ []) = and_number (from_bytes d)
to_number _ = none

-- (uint8_t)std::stoul() of two characters in base 16; it throws where no digit begins.
unfoldable pub stoul_pair : ℕ → ℕ → Option ℕ
unfolding nibble is_xdigit is_space
stoul_pair c d =
    if is_xdigit c
    then some (if is_xdigit d then nibble c * 16 + nibble d else nibble c)
    else if is_xdigit d && (is_space c || (c == b'+'))
    then some (nibble d)
    else if is_xdigit d && (c == b'-')
    then some ((256 - nibble d) % 256)
    else none

unfoldable pub hex_pairs : Bytes → Option Bytes
unfolding stoul_pair
hex_pairs [] = some []
hex_pairs (c ∷ []) = none
hex_pairs (c ∷ d ∷ s) = elim (stoul_pair c d) [
  | none ↦ none
  | some b ↦ elim (hex_pairs s) [ none ↦ none | some bs ↦ some (b ∷ bs) ]
]

-- The bytes of a script: those that a text with 0x in front writes, or its characters.
unfoldable pub script_bytes : Bytes → Option Bytes
unfolding hex_pairs
script_bytes (z ∷ x ∷ h) =
    if (z == b'0') && ((x == b'x') || (x == b'X'))
    then hex_pairs (if length h % 2 == 0 then h else b'0' ∷ h)
    else some (z ∷ x ∷ h)
script_bytes s = some s

-- HEX
unfoldable pub to_hex : List V → Result
unfolding to_bytes script_bytes
to_hex (hex d ∷ []) = some (hex d)
to_hex (number x ∷ []) = some (hex (to_bytes x))
to_hex (script s ∷ []) = and_hex (script_bytes s)
to_hex (boolean b ∷ []) = some (hex ((if b then 1 else 0) ∷ []))
to_hex _ = none

-- SCRIPT and BOOL
unfoldable pub to_script : List V → Result
unfolding to_string
to_script (v ∷ []) = some (script (to_string mini_numbers v))
to_script _ = none

unfoldable pub to_bool : List V → Result
unfolding is_true
to_bool (v ∷ []) = some (boolean (is_true mini_numbers v))
to_bool _ = none

-- HEXTONUM and NUMTOHEX
unfoldable pub hex_to_num : List V → Result
unfolding from_bytes
hex_to_num (v ∷ []) = with_hex v (λ (d : Bytes). and_number (from_bytes d))
hex_to_num _ = none

unfoldable pub num_to_hex : List V → Result
unfolding to_bytes
num_to_hex (v ∷ []) = with_number v (λ (x : MiniNumber). some (hex (to_bytes x)))
num_to_hex _ = none
