-- ===== src/Serialization/Fields.antt =====
-- Sequences of values on a DataStream of src/serialization/DataStream.cpp, each with the primitives
-- that write and read it.
use kiss_vm_interpreter.Prelude.{
  ℕ, ◌^◌, ◌<◌, Bool, List, [], ◌∷◌, Option, none, some, Bytes, length,
}
use kiss_vm_interpreter.Serialization.{
  write_u_int8, write_bool, write_u_int16, write_u_int32, write_u_int64, write_bytes,
  write_length_prefixed_bytes, write_length_prefixed_string, Read, bind_option, pure, ◌>>=◌,
  read_u_int8, read_bool, read_u_int16, read_u_int32, read_u_int64, read_bytes,
  read_length_prefixed_bytes, read_length_prefixed_string,
}

-- One value of the wire format, with the primitive that writes it. A `bytes` has no length on the
-- wire: the reader is told it.
pub data Field : Type 0 where
  u_int8 u_int16 u_int32 u_int64 : ℕ → Field
  bool : Bool → Field
  bytes prefixed_bytes prefixed_string : Bytes → Field

pub data Format : Type 0 where
  u_int8_format u_int16_format u_int32_format u_int64_format bool_format : Format
  bytes_format : ℕ → Format
  prefixed_bytes_format prefixed_string_format : Format

unfoldable pub format : Field → Format
format (u_int8 v) = u_int8_format
format (u_int16 v) = u_int16_format
format (u_int32 v) = u_int32_format
format (u_int64 v) = u_int64_format
format (bool v) = bool_format
format (bytes v) = bytes_format (length v)
format (prefixed_bytes v) = prefixed_bytes_format
format (prefixed_string v) = prefixed_string_format

unfoldable pub write : Field → Bytes → Option Bytes
unfolding write_u_int8 write_bool write_u_int16 write_u_int32 write_u_int64 write_bytes
    write_length_prefixed_bytes write_length_prefixed_string
write (u_int8 v) buf = some (write_u_int8 v buf)
write (u_int16 v) buf = some (write_u_int16 v buf)
write (u_int32 v) buf = some (write_u_int32 v buf)
write (u_int64 v) buf = some (write_u_int64 v buf)
write (bool v) buf = some (write_bool v buf)
write (bytes v) buf = some (write_bytes v buf)
write (prefixed_bytes v) buf = some (write_length_prefixed_bytes v buf)
write (prefixed_string v) buf = write_length_prefixed_string v buf

unfoldable pub read : Format → Read Field
unfolding read_u_int8 read_bool read_u_int16 read_u_int32 read_u_int64 read_length_prefixed_bytes
    read_length_prefixed_string
read u_int8_format = read_u_int8 >>= λ v. pure (u_int8 v)
read u_int16_format = read_u_int16 >>= λ v. pure (u_int16 v)
read u_int32_format = read_u_int32 >>= λ v. pure (u_int32 v)
read u_int64_format = read_u_int64 >>= λ v. pure (u_int64 v)
read bool_format = read_bool >>= λ v. pure (bool v)
read (bytes_format n) = read_bytes n >>= λ v. pure (bytes v)
read prefixed_bytes_format = read_length_prefixed_bytes >>= λ v. pure (prefixed_bytes v)
read prefixed_string_format = read_length_prefixed_string >>= λ v. pure (prefixed_string v)

-- What the C++ types of the arguments allow, and fewer than 2 ^ 32 bytes behind a 4-byte length.
unfoldable pub InRange : Field → Type 0
InRange (u_int8 v) = v < 256
InRange (u_int16 v) = v < 65536
InRange (u_int32 v) = v < 4294967296
InRange (u_int64 v) = v < 2 ^ 64
InRange (bool v) = Unit
InRange (bytes v) = Unit
InRange (prefixed_bytes v) = length v < 4294967296
InRange (prefixed_string v) = Unit

-- An exception of the first ends both.
abbrev pub and_then : Option Bytes → (Bytes → Option Bytes) → Option Bytes
and_then none f = none
and_then (some b) f = f b

unfoldable pub write_all : List Field → Bytes → Option Bytes
unfolding write
write_all [] buf = some buf
write_all (f ∷ fs) buf = and_then (write f buf) (λ b. write_all fs b)

unfoldable pub read_all : List Format → Read (List Field)
unfolding read
read_all [] r = some ([], r)
read_all (k ∷ ks) r = bind_option (read k r) (λ f. read_all ks >>= λ fs. pure (f ∷ fs))

unfoldable pub formats : List Field → List Format
unfolding format
formats [] = []
formats (f ∷ fs) = format f ∷ formats fs

unfoldable pub AllInRange : List Field → Type 0
unfolding InRange
AllInRange [] = Unit
AllInRange (f ∷ fs) = InRange f × AllInRange fs
