-- ===== src/Serialization/RoundTrip.antt =====
-- What is written to a DataStream of src/serialization/DataStream.cpp is read back.
use kiss_vm_interpreter.Prelude.{
  ℕ, ◌+◌, ◌%◌, ◌^◌, ◌≤◌, ◌≡◌, refl, sym, ap, ◌∙◌, true, false, List, [], ◌∷◌, ◌++◌, none, some,
  length-append, Option-cases, inl, inr, Bytes, length, if◌then◌else◌, arith,
}
use mathlib.Core.List.{append_assoc, append-nil}
use kiss_vm_interpreter.Serialization.{
  bind_option, pure, ◌>>=◌, open_buffer, u_int64_from, split_at?, u_int16_bytes, u_int32_bytes,
  advance, joined, read_u_int8, read_bool,
}
use kiss_vm_interpreter.Serialization.Fields.{
  Field, u_int8, u_int16, u_int32, u_int64, bool, bytes, prefixed_bytes, prefixed_string, format,
  write, read, InRange, and_then, write_all, read_all, formats, AllInRange,
}
use kiss_vm_interpreter.Serialization.Primitives.{
  advance-append, behind, through, read_u_int16-bytes, read_u_int32-bytes, read_u_int64-bytes,
  read_prefixed_bytes-bytes, read_prefixed_string-bytes,
}

-- The bytes that `f` adds to a buffer.
unfoldable pub encoded : Field → Bytes
unfolding u_int64_from
encoded (u_int8 v) = v ∷ []
encoded (u_int16 v) = u_int16_bytes v
encoded (u_int32 v) = u_int32_bytes v
encoded (u_int64 v) = u_int64_from 8 v
encoded (bool v) = (if v then 1 else 0) ∷ []
encoded (bytes v) = v
encoded (prefixed_bytes v) = u_int32_bytes (length v % 2 ^ 32) ++ v
encoded (prefixed_string v) = u_int16_bytes (length v % 2 ^ 16) ++ v

abbrev Fits : Field → Type 0
Fits (prefixed_string v) = length v ≤ 65535
Fits _ = Unit

write-encoded : (f : Field) (buf b : Bytes) → write f buf ≡ some b → (b ≡ buf ++ encoded f) × Fits f
unfolding write encoded u_int64_from
write-encoded (u_int8 v) buf b e = (cc, tt)
write-encoded (u_int16 v) buf b e = (cc, tt)
write-encoded (u_int32 v) buf b e = (cc, tt)
write-encoded (u_int64 v) buf b e = (cc, tt)
write-encoded (bool v) buf b e = (cc, tt)
write-encoded (bytes v) buf b e = (cc, tt)
write-encoded (prefixed_bytes v) buf b e =
    let q = append_assoc buf (u_int32_bytes (length v % 2 ^ 32)) v in (cc, tt)
write-encoded (prefixed_string v) buf b e =
    let q = append_assoc buf (u_int16_bytes (length v % 2 ^ 16)) v in
    (ground (arith, q), ground arith)

module _ (rest : Bytes) (pos : ℕ) where
  read-encoded :
      (f : Field)
      → InRange f
      → Fits f
      → read (format f) (record { left = encoded f ++ rest; pos = pos })
        ≡ some (f, behind rest pos (length (encoded f)))
  unfolding read format encoded InRange
  read-encoded (u_int8 v) h k = unfold read_u_int8 advance split_at? joined in refl
  read-encoded (u_int16 v) h k = through (λ x. pure (u_int16 x)) (read_u_int16-bytes rest pos v h)
  read-encoded (u_int32 v) h k = through (λ x. pure (u_int32 x)) (read_u_int32-bytes rest pos v h)
  read-encoded (u_int64 v) h k =
      unfold u_int64_from in through (λ x. pure (u_int64 x)) (read_u_int64-bytes rest pos v h)
  read-encoded (bool true) h k = unfold read_bool read_u_int8 advance split_at? joined in refl
  read-encoded (bool false) h k = unfold read_bool read_u_int8 advance split_at? joined in refl
  read-encoded (bytes v) h k = through (λ x. pure (bytes x)) (advance-append v rest pos)
  read-encoded (prefixed_bytes v) h k =
      through (λ x. pure (prefixed_bytes x)) (read_prefixed_bytes-bytes rest pos v h)
  read-encoded (prefixed_string v) h k =
      through (λ x. pure (prefixed_string x)) (read_prefixed_string-bytes rest pos v k)

-- The stream with bs and rest left, from which bs is read as fs.
abbrev Reads : List Field → Bytes → Type 0
Reads fs bs =
    (rest : Bytes) (pos : ℕ)
    → read_all (formats fs) (record { left = bs ++ rest; pos = pos })
      ≡ some (fs, behind rest pos (length bs))

encoded-Reads :
    (f : Field) (fs : List Field) (bs : Bytes)
    → InRange f
    → Fits f
    → Reads fs bs
    → Reads (f ∷ fs) (encoded f ++ bs)
unfolding read_all formats
encoded-Reads f fs bs h k reads rest pos =
    let at = pos + length (encoded f) in
    let all = λ (g : Field). read_all (formats fs) >>= λ gs. pure (g ∷ gs) in
    ap (λ (xs : Bytes). bind_option (read (format f) (record { left = xs; pos = pos })) all)
      (append_assoc (encoded f) bs rest)
    ∙ (through all (read-encoded (bs ++ rest) pos f h k)
        ∙ (through (λ gs. pure (f ∷ gs)) (reads rest at)
            ∙ ap (λ (p : ℕ). some (f ∷ fs, record { left = rest; pos = p }))
                (omega (arith, length-append (encoded f) bs))))

-- What fs add to a buffer, and that they are read from it again.
write_all-Reads :
    (fs : List Field) (buf b : Bytes)
    → AllInRange fs
    → write_all fs buf ≡ some b
    → (bs : Bytes) × (b ≡ buf ++ bs) × Reads fs bs
unfolding write_all read_all formats AllInRange
write_all-Reads [] buf b h e = (
  [],
  cc (append-nil buf),
  λ rest pos. ap (λ (p : ℕ). some ([], record { left = rest; pos = p })) (omega arith),
)
write_all-Reads (f ∷ fs) buf b h e = elim (Option-cases (write f buf)) [
  | inl q ↦ let z : none ≡ some b = sym (ap (λ o. and_then o (λ c. write_all fs c)) q) ∙ e in cc
  | inr (c, q) ↦
      let (c_is, fits) = write-encoded f buf c q in
      let (bs, b_is, reads) =
        write_all-Reads fs c b h.1 (sym (ap (λ o. and_then o (λ x. write_all fs x)) q) ∙ e) in
      (encoded f ++ bs, cc (append_assoc buf (encoded f) bs), encoded-Reads f fs bs h.0 fits reads)
]

-- Values in the range of their C++ types (and fewer than 2 ^ 32 bytes behind a 4-byte length),
-- written one after the other to an empty stream without an exception, are read back from its
-- buffer in that order by the same primitives, and the reader is then at the end of the buffer.
pub read_all-write_all :
    (fs : List Field) (b : Bytes)
    → AllInRange fs
    → write_all fs [] ≡ some b
    → read_all (formats fs) (open_buffer b) ≡ some (fs, record { left = []; pos = length b })
read_all-write_all fs b h e =
    let (bs, b_is, reads) = write_all-Reads fs [] b h e in
    let q : bs ++ [] ≡ b = cc (append-nil bs) in
    ap (λ xs. read_all (formats fs) (open_buffer xs)) (sym q)
    ∙ (reads [] 0
        ∙ ap (λ (p : ℕ). some (fs, record { left = []; pos = p }))
            (omega (arith, ap (λ (xs : Bytes). length xs) b_is)))
