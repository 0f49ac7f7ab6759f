-- ===== src/KissVm/Functions/Bits.antt =====
-- The functions on bits of src/kissvm/functions/Functions.cpp.
use kiss_vm_interpreter.Prelude.{
  ℕ, zero, suc, ◌+◌, ◌-◌, ◌/◌, ◌%◌, ◌^◌, Bool, true, false, List, [], ◌∷◌, Option, none, some,
  Bytes, length, ltb, ◌==◌, if◌then◌else◌, get_elem?,
}
use kiss_vm_interpreter.Prelude.Int.{ℤ, pos, negsuc}
use kiss_vm_interpreter.KissVm.Value.{number, hex, boolean, is_true}
use kiss_vm_interpreter.KissVm.Numbers.{mini_numbers}
use kiss_vm_interpreter.MiniNumber.{of_long}
use kiss_vm_interpreter.KissVm.Functions.{V, Result, with_hex, with_long}

-- bitPos / 8 as a size_t; a negative quotient is past the end of every byte string.
abbrev pub byte_index : ℤ → Option ℕ
byte_index (pos n) = some (n / 8)
byte_index (negsuc n) = if ltb n 7 then some 0 else none

-- 7 - bitPos % 8, where the remainder has the sign of bitPos
abbrev pub bit_index : ℤ → ℕ
bit_index (pos n) = 7 - n % 8
bit_index (negsuc n) = 7 + suc n % 8

-- (b >> i) & 1, and a byte with the bit i set or cleared; a bit above the seventh is not there.
abbrev pub bit : ℕ → ℕ → Bool
bit i b = b / 2 ^ i % 2 == 1

abbrev pub set_bit : ℕ → Bool → ℕ → ℕ
set_bit i true b = if bit i b then b else (b + 2 ^ i) % 256
set_bit i false b = if bit i b then b - 2 ^ i else b

unfoldable pub set_at : ℕ → ℕ → Bool → Bytes → Bytes
set_at k i val [] = []
set_at zero i val (b ∷ bs) = set_bit i val b ∷ bs
set_at (suc k) i val (b ∷ bs) = b ∷ set_at k i val bs

abbrev pub bit_set_at : Option ℕ → ℕ → Bool → Bytes → Result
bit_set_at none i val bytes = none
bit_set_at (some k) i val bytes =
    if ltb k (length bytes) then some (hex (set_at k i val bytes)) else none

-- BITSET
unfoldable pub bit_set : List V → Result
unfolding with_long set_at is_true
bit_set (d ∷ at ∷ val ∷ []) = with_hex d (λ (bytes : Bytes).
    with_long at
      (λ (p : ℤ). bit_set_at (byte_index p) (bit_index p) (is_true mini_numbers val) bytes))
bit_set _ = none

abbrev pub bit_at : Option ℕ → ℕ → Bytes → Bool
bit_at none i bytes = false
bit_at (some k) i bytes = elim (get_elem? bytes k) [ none ↦ false | some b ↦ bit i b ]

-- BITGET
unfoldable pub bit_get : List V → Result
unfolding with_long
bit_get (d ∷ at ∷ []) = with_hex d (λ (bytes : Bytes).
    with_long at (λ (p : ℤ). some (boolean (bit_at (byte_index p) (bit_index p) bytes))))
bit_get _ = none

-- BITCOUNT: __builtin_popcount() of the bytes
unfoldable pub popcount : ℕ → ℕ → ℕ
popcount zero b = 0
popcount (suc f) b = b % 2 + popcount f (b / 2)

unfoldable pub popcounts : Bytes → ℕ
unfolding popcount
popcounts [] = 0
popcounts (b ∷ bs) = popcount 8 b + popcounts bs

unfoldable pub bit_count : List V → Result
unfolding popcounts
bit_count (hex d ∷ []) = some (number (of_long (pos (popcounts d))))
bit_count _ = none
