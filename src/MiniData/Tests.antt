-- ===== src/MiniData/Tests.antt =====
-- Byte strings written, read and turned away.
use kiss_vm_interpreter.Prelude.{
  ◌≡◌, refl, true, false, [], ◌∷◌, ◌++◌, some, length, codes, arith, ◌+◌,
}
use kiss_vm_interpreter.Serialization.{advance, joined, split_at?, open_buffer}
use kiss_vm_interpreter.Serialization.Primitives.{behind}
use kiss_vm_interpreter.MiniData.{
  serialise, deserialise_within, deserialise, deserialise_hash, deserialise_sized, serialise_hash,
  zeros, with_min_length, lexicographic, is_less, decoded, too_large, wrong_size, too_long,
  max_mini_data_length,
}
use kiss_vm_interpreter.MiniData.RoundTrip.{deserialise_within-serialise}

deserialise_within-serialise_example :
    deserialise_within 64 (record { left = serialise (codes "AB") ++ codes "C"; pos = 0 })
    ≡ decoded (codes "AB") (behind (codes "C") (0 + 4) (length (codes "AB")))
deserialise_within-serialise_example =
    deserialise_within-serialise 64 (codes "AB") (codes "C") 0 (omega arith) (omega arith)

padded : with_min_length (codes "A") 3 ≡ 0 ∷ 0 ∷ 65 ∷ []
unfolding with_min_length zeros
padded = refl

shorter_is_less : is_less (codes "Z") (codes "AA") ≡ true
unfolding is_less lexicographic
shorter_is_less = refl

hash_too_large : deserialise_hash (open_buffer (0 ∷ 0 ∷ 0 ∷ 65 ∷ [])) ≡ too_large
unfolding deserialise_hash deserialise_within advance split_at? joined
hash_too_large = refl

wrong_size_runs : deserialise_sized 2 (open_buffer (0 ∷ 0 ∷ 0 ∷ 1 ∷ 7 ∷ [])) ≡ wrong_size
unfolding deserialise_sized deserialise deserialise_within advance split_at? joined
wrong_size_runs = refl

hash_written : serialise_hash (codes "A") ≡ some (0 ∷ 0 ∷ 0 ∷ 1 ∷ 65 ∷ [])
unfolding serialise_hash serialise
hash_written = refl

-- A length of 2 ^ 31 passes the check of the limit.
huge_passes : too_long max_mini_data_length 2147483648 ≡ false
huge_passes = refl
