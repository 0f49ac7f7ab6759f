-- ===== src/Serialization.antt =====
-- src/serialization/DataStream.cpp: the big-endian wire format of every object.
pub mod Fields
pub mod Primitives
pub mod RoundTrip
mod Tests
use kiss_vm_interpreter.Prelude.{
  ℕ, zero, suc, ◌+◌, ◌*◌, ◌/◌, ◌%◌, ◌^◌, Bool, true, false, not, List, [], ◌∷◌, ◌++◌, Option, none,
  some, Bytes, length, ltb, ◌==◌, if◌then◌else◌,
}
use mathlib.Core.Option

-- What is appended to m_buf. A shift to the right is a division, and `& 0xff` a remainder.
abbrev pub u_int16_bytes : ℕ → Bytes
u_int16_bytes v = (v / 256 % 256) ∷ (v % 256) ∷ []

abbrev pub u_int32_bytes : ℕ → Bytes
u_int32_bytes v = (v / 16777216 % 256) ∷ (v / 65536 % 256) ∷ (v / 256 % 256) ∷ (v % 256) ∷ []

-- The loop of writeUInt64() from the byte i - 1 downwards.
unfoldable pub u_int64_from : ℕ → ℕ → Bytes
u_int64_from zero v = []
u_int64_from (suc i) v = (v / 256 ^ i % 256) ∷ u_int64_from i v

unfoldable pub write_u_int8 : ℕ → Bytes → Bytes
write_u_int8 v buf = buf ++ v ∷ []

unfoldable pub write_bool : Bool → Bytes → Bytes
write_bool v buf = buf ++ (if v then 1 else 0) ∷ []

unfoldable pub write_u_int16 : ℕ → Bytes → Bytes
write_u_int16 v buf = buf ++ u_int16_bytes v

unfoldable pub write_u_int32 : ℕ → Bytes → Bytes
write_u_int32 v buf = buf ++ u_int32_bytes v

unfoldable pub write_u_int64 : ℕ → Bytes → Bytes
unfolding u_int64_from
write_u_int64 v buf = buf ++ u_int64_from 8 v

unfoldable pub write_bytes : Bytes → Bytes → Bytes
write_bytes bytes buf = buf ++ bytes

-- The length is cast to 32 bits.
unfoldable pub write_length_prefixed_bytes : Bytes → Bytes → Bytes
unfolding write_bytes write_u_int32
write_length_prefixed_bytes bytes buf =
    write_bytes bytes (write_u_int32 (length bytes % 2 ^ 32) buf)

-- `none` is the exception "string too long".
unfoldable pub write_length_prefixed_string : Bytes → Bytes → Option Bytes
unfolding write_bytes write_u_int16
write_length_prefixed_string s buf =
    if ltb 65535 (length s)
    then none
    else some (write_bytes s (write_u_int16 (length s % 2 ^ 16) buf))

-- A stream that is read: the bytes from m_pos up to m_len, and m_pos.
pub record Reader : Type 0 where
  pub left : Bytes
  pub pos : ℕ

-- DataStream(data, len)
abbrev pub open_buffer : Bytes → Reader
open_buffer bytes = record { left = bytes; pos = 0 }

abbrev pub remaining : Reader → ℕ
remaining r = length r.left

abbrev pub position : Reader → ℕ
position r = r.pos

-- A read gives a value and the stream behind it; `none` is the std::out_of_range of checkAvailable().
abbrev pub Read : Type 0 → Type 0
Read A = Reader → Option (A × Reader)

module _ {A : Type 0} where
  abbrev pub pure : A → Read A
  pure a r = some (a, r)

  abbrev pub bind_option : {B : Type 0} → Option (A × Reader) → (A → Read B) → Option (B × Reader)
  bind_option none f = none
  bind_option (some (a, r)) f = f a r

  infixl 5 ◌>>=◌
  abbrev pub ◌>>=◌ : {B : Type 0} → Read A → (A → Read B) → Read B
  ◌>>=◌ m f r = bind_option (m r) f

-- The first n bytes and the rest, where there are n.
unfoldable pub split_at? : ℕ → Bytes → Option (Bytes × Bytes)
split_at? zero bs = some ([], bs)
split_at? (suc n) [] = none
split_at? (suc n) (b ∷ bs) = Option.map (λ (xs, ys). (b ∷ xs, ys)) (split_at? n bs)

-- checkAvailable(n), the n bytes from m_pos on, and m_pos += n.
unfoldable pub advance : ℕ → Read Bytes
unfolding split_at?
advance n r =
    Option.map (λ (xs, ys). (xs, record { left = ys; pos = r.pos + n })) (split_at? n r.left)

-- The bytes of a big-endian number of 8, 16 or 32 bits, shifted and joined.
unfoldable pub joined : Bytes → ℕ
joined (a ∷ []) = a
joined (a ∷ b ∷ []) = a * 256 + b
joined (a ∷ b ∷ c ∷ d ∷ []) = a * 16777216 + b * 65536 + c * 256 + d
joined _ = 0

unfoldable pub read_u_int8 : Read ℕ
unfolding advance joined
read_u_int8 = advance 1 >>= λ bs. pure (joined bs)

unfoldable pub read_bool : Read Bool
unfolding read_u_int8
read_bool = read_u_int8 >>= λ b. pure (not (b == 0))

unfoldable pub read_u_int16 : Read ℕ
unfolding advance joined
read_u_int16 = advance 2 >>= λ bs. pure (joined bs)

unfoldable pub read_u_int32 : Read ℕ
unfolding advance joined
read_u_int32 = advance 4 >>= λ bs. pure (joined bs)

-- v = (v << 8) | byte, in 64 bits, over the bytes.
unfoldable pub shift_in : ℕ → Bytes → ℕ
shift_in v [] = v
shift_in v (b ∷ bs) = shift_in (v * 256 % 2 ^ 64 + b) bs

unfoldable pub read_u_int64 : Read ℕ
unfolding advance shift_in
read_u_int64 = advance 8 >>= λ bs. pure (shift_in 0 bs)

abbrev pub read_bytes : ℕ → Read Bytes
read_bytes n = advance n

unfoldable pub read_length_prefixed_bytes : Read Bytes
unfolding read_u_int32 advance
read_length_prefixed_bytes = read_u_int32 >>= λ len. read_bytes len

unfoldable pub read_length_prefixed_string : Read Bytes
unfolding read_u_int16 advance
read_length_prefixed_string = read_u_int16 >>= λ len. advance len
