-- ===== src/MiniData.antt =====
-- src/types/MiniData.cpp: byte strings, their order, padding and wire format.
pub mod RoundTrip
mod Tests
use kiss_vm_interpreter.Prelude.{
  ℕ, zero, suc, ◌+◌, ◌-◌, ◌%◌, ◌^◌, Bool, true, false, ◌||◌, List, [], ◌∷◌, ◌++◌, Option, none,
  some, Bytes, length, ltb, leb, ◌==◌, if◌then◌else◌,
}
use kiss_vm_interpreter.Serialization.{Reader, u_int32_bytes, advance, joined}

abbrev pub max_mini_data_length : ℕ
max_mini_data_length = 536870912

abbrev pub max_hash_length : ℕ
max_hash_length = 64

-- withMinLength(): zeros in front, up to the least length.
unfoldable pub zeros : ℕ → Bytes
zeros zero = []
zeros (suc k) = 0 ∷ zeros k

unfoldable pub with_min_length : Bytes → ℕ → Bytes
unfolding zeros
with_min_length bytes min_len =
    if leb min_len (length bytes) then bytes else zeros (min_len - length bytes) ++ bytes

-- std::vector's order, and isLess(): first by length
unfoldable pub lexicographic : Bytes → Bytes → Bool
lexicographic [] [] = false
lexicographic [] (b ∷ bs) = true
lexicographic (a ∷ us) [] = false
lexicographic (a ∷ us) (b ∷ bs) = let rest = lexicographic us bs in if a == b then rest else ltb a b

unfoldable pub is_less : Bytes → Bytes → Bool
unfolding lexicographic
is_less xs ys = if length xs == length ys then lexicographic xs ys else ltb (length xs) (length ys)

-- serialise()
unfoldable pub serialise : Bytes → Bytes
serialise bytes = u_int32_bytes (length bytes % 2 ^ 32) ++ bytes

-- `undefined` is a read past the end of the buffer.
pub data Decoded : Type 0 where
  decoded : Bytes → Reader → Decoded
  too_large wrong_size undefined : Decoded

-- (int)len > max: a length of 2 ^ 31 or more is negative as an int, and passes.
abbrev pub too_long : ℕ → ℕ → Bool
too_long max len = if leb (2 ^ 31) len then false else ltb max len

abbrev pub or_undefined : Option (Bytes × Reader) → Decoded
or_undefined none = undefined
or_undefined (some (bytes, r)) = decoded bytes r

-- deserialise() and deserialiseHash(), which differ in the limit
unfoldable pub deserialise_within : ℕ → Reader → Decoded
unfolding advance joined
deserialise_within max r = elim (advance 4 r) [
  | none ↦ undefined
  | some (bs, t) ↦
      if too_long max (joined bs) then too_large else or_undefined (advance (joined bs) t)
]

unfoldable pub deserialise : Reader → Decoded
unfolding deserialise_within
deserialise r = deserialise_within max_mini_data_length r

unfoldable pub deserialise_hash : Reader → Decoded
unfolding deserialise_within
deserialise_hash r = deserialise_within max_hash_length r

-- serialiseHash(); `none` is its exception.
unfoldable pub serialise_hash : Bytes → Option Bytes
unfolding serialise
serialise_hash bytes = if ltb max_hash_length (length bytes) then none else some (serialise bytes)

abbrev pub check_size : ℕ → Decoded → Decoded
check_size n (decoded bytes r) = if length bytes == n then decoded bytes r else wrong_size
check_size n d = d

-- deserialise() with an expected size
unfoldable pub deserialise_sized : ℕ → Reader → Decoded
unfolding deserialise
deserialise_sized n r = check_size n (deserialise r)
