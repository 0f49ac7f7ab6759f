-- ===== src/MiniNumber/Wire.antt =====
-- serialise() and deserialise() of class MiniNumber (src/types/MiniNumber.cpp).
use kiss_vm_interpreter.Prelude.{
  ℕ, ◌+◌, ◌-◌, ◌%◌, ◌≤◌, ◌≡◌, refl, ap, ◌∙◌, [], ◌∷◌, ◌++◌, Option, none, some, Bytes, length, ltb,
  leb, if◌then◌else◌, if_ind, arith,
}
use kiss_vm_interpreter.Prelude.Int.{ℤ, pos, negsuc, ◌≤ℤ◌}
use kiss_vm_interpreter.BigInt.Signed.{from_java_bytes}
use kiss_vm_interpreter.BigInt.Integer.{IsBigInt}
use kiss_vm_interpreter.Serialization.{Reader, advance, split_at?}
use kiss_vm_interpreter.Serialization.Primitives.{advance-append, behind}
use kiss_vm_interpreter.MiniNumber.{MiniNumber}

-- (uint8_t)(int8_t)scale, and the int8_t of a byte
abbrev pub scale_byte : ℤ → ℕ
scale_byte (pos n) = n % 256
scale_byte (negsuc n) = 255 - n % 256

abbrev pub byte_scale : ℕ → ℤ
byte_scale b = if leb 128 b then negsuc (255 - b) else pos b

-- `none` is the exception.
unfoldable pub serialise : MiniNumber → Option Bytes
serialise a =
    if ltb 32 (length a.unscaled)
    then none
    else some (scale_byte a.scale ∷ length a.unscaled ∷ a.unscaled)

-- `undefined` is a read past the end of the buffer.
pub data Decoded : Type 0 where
  decoded : MiniNumber → Reader → Decoded
  too_large undefined : Decoded

abbrev pub with_scale : ℕ → Option (Bytes × Reader) → Decoded
with_scale s none = undefined
with_scale s (some (bytes, r)) =
    decoded (record { unscaled = from_java_bytes bytes; scale = byte_scale s }) r

abbrev pub read_number : Bytes → Reader → Decoded
read_number (s ∷ n ∷ []) r = if ltb 32 n then too_large else with_scale s (advance n r)
read_number _ r = undefined

unfoldable pub deserialise : Reader → Decoded
unfolding advance from_java_bytes
deserialise r = elim (advance 2 r) [ none ↦ undefined | some (bs, t) ↦ read_number bs t ]

-- Where the scale is an int8_t.
abbrev pub IsInt8 : ℤ → Type 0
IsInt8 i = (negsuc 127 ≤ℤ i) × (i ≤ℤ pos 127)

byte_scale-scale_byte : (i : ℤ) → IsInt8 i → byte_scale (scale_byte i) ≡ i
byte_scale-scale_byte (pos n) h = ground arith
byte_scale-scale_byte (negsuc n) h = ground arith

from_java_bytes_lem : (bs : Bytes) → IsBigInt bs → from_java_bytes bs ≡ bs
unfolding from_java_bytes
from_java_bytes_lem [] h = absurd h
from_java_bytes_lem (b ∷ bs) h = refl

-- The bytes of a number that serialise() writes.
abbrev pub written : MiniNumber → Bytes
written a = scale_byte a.scale ∷ length a.unscaled ∷ a.unscaled

pub serialise_lem : (a : MiniNumber) → length a.unscaled ≤ 32 → serialise a ≡ some (written a)
unfolding serialise
serialise_lem a h =
    if_ind (λ x. x ≡ some (written a)) (ltb 32 (length a.unscaled)) (λ e. absurd (ground arith))
      (λ e. refl)

-- A number of at most 32 bytes, and with a scale that fits an int8_t, is written, and read back from
-- what was written, wherever that stands in a buffer; what follows is left.
pub deserialise-written :
    (a : MiniNumber) (rest : Bytes) (at : ℕ)
    → IsBigInt a.unscaled
    → length a.unscaled ≤ 32
    → IsInt8 a.scale
    → (serialise a ≡ some (written a))
      × (deserialise (record { left = written a ++ rest; pos = at })
          ≡ decoded a (behind rest (at + 2) (length a.unscaled)))
unfolding deserialise advance split_at?
deserialise-written a rest at h k s =
    let out = behind rest (at + 2) (length a.unscaled) in
    (
      serialise_lem a k,
      if_ind (λ d. d ≡ decoded a out) (ltb 32 (length a.unscaled)) (λ e. absurd (ground arith))
          (λ e.
            ap (with_scale (scale_byte a.scale)) (advance-append a.unscaled rest (at + 2))
            ∙ cc (from_java_bytes_lem a.unscaled h, byte_scale-scale_byte a.scale s)),
    )
