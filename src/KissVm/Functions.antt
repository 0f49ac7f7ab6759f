-- ===== src/KissVm/Functions.antt =====
-- The built-in functions of the KISS VM (src/kissvm/functions/Functions.cpp): what they share.
pub mod Strings
pub mod Bits
pub mod Convert
pub mod Math
pub mod Coins
pub mod Signatures
pub mod Registry
pub mod RoundTrip
pub mod Sums
pub mod SameState
pub mod SetBits
mod Tests
use kiss_vm_interpreter.Prelude.{
  ℕ, ◌+◌, ◌-◌, ◌%◌, Bool, List, [], ◌∷◌, Option, none, some, Bytes, ltb, if◌then◌else◌,
}
use kiss_vm_interpreter.Prelude.Int.{ℤ, pos, negsuc}
use kiss_vm_interpreter.KissVm.Value.{Value, number, hex, boolean}
use kiss_vm_interpreter.MiniNumber.{MiniNumber}
use kiss_vm_interpreter.MiniNumber.Derived.{get_as_long}

abbrev pub V : Type 0
V = Value MiniNumber

-- A function's result; `none` is an exception, of its own or of what it calls.
abbrev pub Result : Type 0
Result = Option V

-- MiniNumber("0")
abbrev pub nought : MiniNumber
nought = record { unscaled = 0 ∷ []; scale = pos 0 }

-- hexArg(), numArg() and numArg().getAsLong(), with what comes next
abbrev pub with_hex : V → (Bytes → Result) → Result
with_hex (hex d) f = f d
with_hex _ f = none

abbrev pub with_number : V → (MiniNumber → Result) → Result
with_number (number x) f = f x
with_number _ f = none

unfoldable pub with_long : V → (ℤ → Result) → Result
unfolding get_as_long
with_long v f = with_number v (λ (x : MiniNumber). f (get_as_long x))

-- Value::number() of a result that may be an exception
abbrev pub and_number : Option MiniNumber → Result
and_number none = none
and_number (some x) = some (number x)

-- What the functions read of a coin; tokenID() throws where the coin has no token.
pub record FnCoin : Type 0 where
  pub address : Bytes
  pub amount : MiniNumber
  pub coin_id : Bytes
  pub token_id : Option Bytes
  pub has_state : Bool

-- What they read of a signature of the witness: its root key, and the key and the signature of each
-- proof.
pub record FnSignature : Type 0 where
  pub root_key : Bytes
  pub proofs : List (Bytes × Bytes)
