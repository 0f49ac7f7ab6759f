-- ===== src/MiniData/RoundTrip.antt =====
-- deserialise() of src/types/MiniData.cpp reads what serialise() writes.
use kiss_vm_interpreter.Prelude.{
  ℕ, ◌+◌, ◌≤◌, ◌≡◌, ap, if_ind, Bytes, ◌++◌, length, arith, if◌then◌else◌, subst,
}
use kiss_vm_interpreter.Serialization.{advance, joined, split_at?}
use kiss_vm_interpreter.Serialization.Primitives.{advance-append, behind}
use kiss_vm_interpreter.MiniData.{
  serialise, deserialise_within, decoded, too_large, or_undefined, too_long,
}

-- A byte string within the limit is read back from its wire format, wherever that stands in a
-- buffer, whatever the limit is below 2 ^ 31; what follows is left.
pub deserialise_within-serialise :
    (max : ℕ) (bytes rest : Bytes) (pos : ℕ)
    → max ≤ 2147483647
    → length bytes ≤ max
    → deserialise_within max (record { left = serialise bytes ++ rest; pos = pos })
      ≡ decoded bytes (behind rest (pos + 4) (length bytes))
unfolding deserialise_within serialise advance split_at? joined
deserialise_within-serialise max bytes rest pos h k =
    let at = behind rest (pos + 4) (length bytes) in
    subst
      (λ m.
        (if too_long max m
          then too_large
          else or_undefined (advance m (behind (bytes ++ rest) pos 4)))
        ≡ decoded bytes at)
      (omega arith)
      (if_ind (λ d. d ≡ decoded bytes at) (too_long max (length bytes)) (λ e. absurd (ground arith))
        (λ e. ap or_undefined (advance-append bytes rest (pos + 4))))
