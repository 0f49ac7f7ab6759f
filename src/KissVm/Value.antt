-- ===== src/KissVm/Value.antt =====
-- src/kissvm/Value.cpp: the values of the VM, over an interface to src/types/MiniNumber.cpp.
use kiss_vm_interpreter.Prelude.{
  ℕ, ◌+◌, ◌/◌, ◌%◌, Bool, true, false, not, [], ◌∷◌, Option, none, some, Bytes, codes, ltb,
  if◌then◌else◌,
}

-- The sign of compareTo().
pub data Sign : Type 0 where
  below equal above : Sign

-- What the interpreter uses of MiniNumber; `none` is an exception that its code throws.
pub record Numbers : Type 1 where
  pub Num : Type 0
  pub of_text : Bytes → Option Num
  pub of_int : ℕ → Num
  pub add : Num → Num → Option Num
  pub sub : Num → Num → Option Num
  pub mult : Num → Num → Option Num
  pub div : Num → Num → Option Num
  pub modulo : Num → Num → Option Num
  pub compare_to : Num → Num → Sign
  pub is_zero : Num → Bool
  pub text : Num → Bytes

-- enum class ValueType, and the payload of each
pub data Value (Num : Type 0) : Type 0 where
  boolean : Bool → Value Num
  number : Num → Value Num
  hex : Bytes → Value Num
  script : Bytes → Value Num

-- asBoolean(), asNumber(), asHex() and asScript(); `none` is their exception.
abbrev pub as_boolean : {Num : Type 0} → Value Num → Option Bool
as_boolean (boolean b) = some b
as_boolean _ = none

abbrev pub as_number : {Num : Type 0} → Value Num → Option Num
as_number (number x) = some x
as_number _ = none

abbrev pub as_hex : {Num : Type 0} → Value Num → Option Bytes
as_hex (hex d) = some d
as_hex _ = none

abbrev pub as_script : {Num : Type 0} → Value Num → Option Bytes
as_script (script s) = some s
as_script _ = none

-- MiniData::toHexString() with its prefix
abbrev pub hex_digit : ℕ → ℕ
hex_digit d = if ltb d 10 then b'0' + d else d + 55

unfoldable pub hex_digits : Bytes → Bytes
hex_digits [] = []
hex_digits (b ∷ bs) = hex_digit (b / 16) ∷ hex_digit (b % 16) ∷ hex_digits bs

unfoldable pub to_hex_string : Bytes → Bytes
unfolding hex_digits
to_hex_string bs = b'0' ∷ b'x' ∷ hex_digits bs

abbrev pub is_empty : Bytes → Bool
is_empty [] = true
is_empty (b ∷ bs) = false

module _ (n : Numbers) where
  unfoldable pub is_true : Value n.Num → Bool
  is_true (boolean b) = b
  is_true (number x) = not (n.is_zero x)
  is_true (hex d) = not (is_empty d)
  is_true (script s) = not (is_empty s)

  unfoldable pub to_string : Value n.Num → Bytes
  unfolding to_hex_string
  to_string (boolean true) = codes "TRUE"
  to_string (boolean false) = codes "FALSE"
  to_string (number x) = n.text x
  to_string (hex d) = to_hex_string d
  to_string (script s) = s
